-- ===== src/Client/Commands/Sending.antt =====
-- What a command puts on the stream.
use simple_chat_ddn.Common.{
  ℕ, ◌≡◌, ◌≢◌, refl, sym, ap, ◌∙◌, Result, ok, err, map_err, none, some, [], ◌∷◌, ◌++◌, if_neg,
  arith, All, ◌⊎◌, inl, inr, map_err_ok, subst,
}
use simple_chat_ddn.Common.Text.{Text, Bytes, ascii, text_eq}
use simple_chat_ddn.Core.Error.{display}
use simple_chat_ddn.Core.Bincode.{Codec}
use simple_chat_ddn.Core.Stream.{Writer, IsWriter}
use simple_chat_ddn.Core.Message.Client.{ClientMessage, leave, message}
use simple_chat_ddn.Core.Protocol.{encode_message, frame}
use simple_chat_ddn.Core.Protocol.Framing.{encode_message_ok}
use simple_chat_ddn.Client.Commands.{
  ChatClient, split_space, send_client_message, write_to, handle_user_input, requested_leave,
  then_leave, send_part, graceful_leave, flushed, closed,
}

-- The input is its first word, or that, a space and the rest.
split_space_front :
    (front s : Text)
    → All (λ (c : ℕ). c ≢ b' ') front
    → split_space (front ++ (b' ' ∷ s)) ≡ (front, some s)
unfolding split_space
split_space_front [] s h = refl
split_space_front (c ∷ front) s h = ground (arith, split_space_front front s h.1)

split_space_alone :
    (front : Text) → All (λ (c : ℕ). c ≢ b' ') front → split_space front ≡ (front, none)
unfolding split_space
split_space_alone [] h = refl
split_space_alone (c ∷ front) h = ground (arith, split_space_alone front h.1)

module _ {R W : Type 0} ⦃w : Writer W⦄ {sent : W → Bytes} (l : IsWriter w sent)
    ⦃codec : Codec ClientMessage⦄ where
  -- The message's frame goes out after what was sent before, and the name stays.
  unfoldable pub SendsFrame : ClientMessage → ChatClient R W → ChatClient R W → Type 0
  SendsFrame m client client' =
      (p : Bytes) × (codec.encode_to_vec m ≡ ok p)
      × (sent client'.writer ≡ sent client.writer ++ frame p)
      × (client'.username ≡ client.username)

  write_to_ok :
      (client : ChatClient R W) (f : Result Text Bytes)
      → (write_to client f).0 ≡ ok tt
      → (b : Bytes) × (f ≡ ok b)
        × (sent (write_to client f).1.writer ≡ sent client.writer ++ b)
        × ((write_to client f).1.username ≡ client.username)
  unfolding write_to
  write_to_ok client (err e) h = absurd (cc (h))
  write_to_ok client (ok f) h = (
    f,
    refl,
    l.write_all_ok f client.writer _ (ap (λ x. (x, (w.write_all f client.writer).1)) h),
    refl,
  )

  pub send_client_message_ok :
      (m : ClientMessage) (client : ChatClient R W)
      → (send_client_message m client).0 ≡ ok tt
      → SendsFrame m client (send_client_message m client).1
  unfolding send_client_message SendsFrame
  send_client_message_ok m client h =
      let (b, encoded, out, same) = write_to_ok client (map_err display (encode_message m)) h in
      let (p, pay, is_frame) =
        encode_message_ok m b (map_err_ok display (encode_message m) encoded) in
      (p, pay, out ∙ ap (λ x. sent client.writer ++ x) is_frame, same)

  -- If the command "send " with a text succeeds, it has sent the frame of a `Message` with the
  -- client's name and that text, and the name stays.
  pub handle_user_input_send :
      (content : Text) (client : ChatClient R W)
      → (handle_user_input (ascii "send " ++ content) client).0 ≡ ok tt
      → SendsFrame
          (message client.username content)
          client
          (handle_user_input (ascii "send " ++ content) client).1
  unfolding handle_user_input split_space text_eq
  handle_user_input_send content client h =
      send_client_message_ok (message client.username content) client h

  then_leave_ok :
      (x : Result Text (Unit {0}) × ChatClient R W)
      → x.0 ≡ ok tt
      → then_leave x ≡ (err requested_leave, x.1)
  unfolding then_leave
  then_leave_ok (ok tt, c) h = refl
  then_leave_ok (err e, c) h = absurd (cc (h))

  pub handle_user_input_leave :
      (client : ChatClient R W)
      → (send_client_message (leave client.username) client).0 ≡ ok tt
      → ((handle_user_input (ascii "leave") client).0 ≡ err requested_leave)
        × SendsFrame (leave client.username) client (handle_user_input (ascii "leave") client).1
  unfolding handle_user_input split_space text_eq
  handle_user_input_leave client h =
      let e = then_leave_ok (send_client_message (leave client.username) client) h in
      (
        ap (λ x. x.0) e,
        subst (λ x. SendsFrame (leave client.username) client x.1) (sym e)
            (send_client_message_ok (leave client.username) client h),
      )

  handle_user_input_other :
      (input : Text) (client : ChatClient R W)
      → (input ≡ ascii "send")
        ⊎ (((split_space input).0 ≢ ascii "send") × ((split_space input).0 ≢ ascii "leave"))
      → handle_user_input input client ≡ (ok tt, client)
  unfolding handle_user_input split_space text_eq send_part
  handle_user_input_other input client (inl e) =
      subst (λ i. handle_user_input i client ≡ (ok tt, client)) (sym e) refl
  handle_user_input_other input client (inr (ns, nl)) =
      if_neg (text_eq (split_space input).0 (ascii "send")) ns _ _
      ∙ if_neg (text_eq (split_space input).0 (ascii "leave")) nl _ _

module _ {R W : Type 0} ⦃w : Writer W⦄ ⦃codec : Codec ClientMessage⦄ where
  write_to_attempts :
      (client : ChatClient R W) (f : Result Text Bytes)
      → (write_to client f).1.join_attempts ≡ client.join_attempts
  unfolding write_to
  write_to_attempts client (ok f) = refl
  write_to_attempts client (err e) = refl

  write_to_reader :
      (client : ChatClient R W) (f : Result Text Bytes)
      → (write_to client f).1.reader ≡ client.reader
  unfolding write_to
  write_to_reader client (ok f) = refl
  write_to_reader client (err e) = refl

  pub send_client_message_reader :
      (m : ClientMessage) (client : ChatClient R W)
      → (send_client_message m client).1.reader ≡ client.reader
  unfolding send_client_message
  send_client_message_reader m client = write_to_reader client (map_err display (encode_message m))

  pub send_client_message_attempts :
      (m : ClientMessage) (client : ChatClient R W)
      → (send_client_message m client).1.join_attempts ≡ client.join_attempts
  unfolding send_client_message
  send_client_message_attempts m client =
      write_to_attempts client (map_err display (encode_message m))

module _ {R W : Type 0} ⦃w : Writer W⦄ {sent : W → Bytes} (l : IsWriter w sent)
    ⦃codec : Codec ClientMessage⦄ where
  closed_sent :
      (x : Result Text (Unit {0}) × W) (c : ChatClient R W)
      → (sent (closed x c).1.writer ≡ sent x.1) × ((closed x c).1.username ≡ c.username)
  unfolding closed
  closed_sent (err e, s) c = (refl, refl)
  closed_sent (ok tt, s) c = (l.shutdown_keeps s, refl)

  flushed_sent :
      (x : Result Text (Unit {0}) × ChatClient R W)
      → (flushed x).0 ≡ ok tt
      → (x.0 ≡ ok tt)
        × (sent (flushed x).1.writer ≡ sent x.1.writer)
        × ((flushed x).1.username ≡ x.1.username)
  unfolding flushed
  flushed_sent (err e, c) h = absurd (cc (h))
  flushed_sent (ok tt, c) h =
      let (same, named) = closed_sent (w.flush c.writer) c in
      (refl, same ∙ l.flush_keeps c.writer, named)

  pub graceful_leave_ok :
      (client : ChatClient R W)
      → (graceful_leave client).0 ≡ ok tt
      → SendsFrame l (leave client.username) client (graceful_leave client).1
  unfolding graceful_leave SendsFrame
  graceful_leave_ok client h =
      let (done, same, named) =
        flushed_sent (send_client_message (leave client.username) client) h in
      let (p, encoded, out, kept) = send_client_message_ok l (leave client.username) client done in
      (p, encoded, same ∙ out, named ∙ kept)
