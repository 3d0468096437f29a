-- ===== src/Client/Run/Leaving.antt =====
-- How a run ends, and what it has sent then.
use mathlib.Core.List.{append_assoc}
use simple_chat_ddn.Common.{
  ℕ, ◌<◌, ◌≤◌, ◌^◌, ◌≡◌, refl, ap, ◌∙◌, Result, ok, err, List, [], ◌∷◌, ◌++◌, true, false, length,
  All, map,
}
use simple_chat_ddn.Common.Text.{Text, Bytes, ascii}
use simple_chat_ddn.Core.Bincode.{Codec, IsLawful}
use simple_chat_ddn.Core.Stream.{Writer, IsWriter}
use simple_chat_ddn.Core.Message.Client.{ClientMessage, leave}
use simple_chat_ddn.Core.Message.Server.{ServerMessage}
use simple_chat_ddn.Core.Protocol.{frame, to_be_bytes}
use simple_chat_ddn.Client.Messages.{render}
use simple_chat_ddn.Client.Messages.Frames.{handle_server_message-frame}
use simple_chat_ddn.Client.Commands.{
  ChatClient, send_client_message, graceful_leave, handle_user_input, requested_leave,
}
use simple_chat_ddn.Client.Commands.Sending.{SendsFrame, graceful_leave_ok, handle_user_input_leave}
use simple_chat_ddn.Client.Run.{
  Event, ctrl_c, from_server, from_stdin, stopped, contains, starts_with, input_handled, turn,
  finish, after_turn, run, shown, on_read, read_size,
}

module _ ⦃enc : Codec ClientMessage⦄ where
  same_payload :
      (u v : Text) (p q : Bytes)
      → enc.encode_to_vec (leave u) ≡ ok p
      → enc.encode_to_vec (leave v) ≡ ok q
      → v ≡ u
      → q ≡ p
  same_payload u v p q e f same = cc

  two_frames :
      (u v : Text) (p q a b c : Bytes)
      → enc.encode_to_vec (leave u) ≡ ok p
      → enc.encode_to_vec (leave v) ≡ ok q
      → v ≡ u
      → b ≡ a ++ frame p
      → c ≡ b ++ frame q
      → c ≡ a ++ (frame p ++ frame p)
  two_frames u v p q a b c e f same x y =
      y
      ∙ ap (λ z. z ++ frame q) x
      ∙ append_assoc a (frame p) (frame q)
      ∙ ap (λ z. a ++ (frame p ++ frame z)) (same_payload u v p q e f same)

module _ {R W : Type 0} ⦃w : Writer W⦄ {sent : W → Bytes} (l : IsWriter w sent)
    ⦃enc : Codec ClientMessage⦄ ⦃dec : Codec ServerMessage⦄ (trim : Text → Text) where
  -- On Ctrl+C, if the farewell succeeds, the run ends, and the frame of `Leave` with the client's
  -- name has been sent once.
  run_ctrl_c :
      (es : List Event) (client : ChatClient R W)
      → (graceful_leave client).0 ≡ ok tt
      → ((run trim (ctrl_c ∷ es) client).1 ≡ true)
        × SendsFrame l (leave client.username) client (run trim (ctrl_c ∷ es) client).2
  unfolding run turn after_turn finish
  run_ctrl_c es client h = (refl, graceful_leave_ok l client h)

  input_handled_leave :
      (x : Result Text (Unit {0}) × ChatClient R W)
      → x.0 ≡ err requested_leave
      → input_handled x ≡ (stopped true, x.1)
  unfolding input_handled contains starts_with
  input_handled_leave (ok tt, c) h = absurd (cc (h))
  input_handled_leave (err e, c) h = ap (λ (r : Result Text (Unit {0})). input_handled (r, c)) h

  run_leave_end :
      (c : ℕ) (line : Text) (es : List Event) (client : ChatClient R W)
      → trim (c ∷ line) ≡ ascii "leave"
      → (handle_user_input (ascii "leave") client).0 ≡ err requested_leave
      → run trim (from_stdin (ok (c ∷ line)) ∷ es) client
        ≡ ([], true, (graceful_leave (handle_user_input (ascii "leave") client).1).1)
  unfolding run turn after_turn finish
  run_leave_end c line es client t h =
      ap
        (λ i.
          after_turn (λ (d : ChatClient R W). run trim es d)
            (
              [],
              (input_handled (handle_user_input i client)).0,
              (input_handled (handle_user_input i client)).1,
            ))
        t
      ∙ ap (λ x. after_turn (λ (d : ChatClient R W). run trim es d) ([], x.0, x.1))
          (input_handled_leave (handle_user_input (ascii "leave") client) h)

  -- When the user types "leave", and both farewells succeed, the run ends, and the frame of `Leave`
  -- has been sent twice.
  pub run_leave :
      (c : ℕ) (line : Text) (es : List Event) (client : ChatClient R W)
      → trim (c ∷ line) ≡ ascii "leave"
      → (send_client_message (leave client.username) client).0 ≡ ok tt
      → (graceful_leave (handle_user_input (ascii "leave") client).1).0 ≡ ok tt
      → (p : Bytes) × (enc.encode_to_vec (leave client.username) ≡ ok p)
        × ((run trim (from_stdin (ok (c ∷ line)) ∷ es) client).1 ≡ true)
        × (sent (run trim (from_stdin (ok (c ∷ line)) ∷ es) client).2.writer
            ≡ sent client.writer ++ (frame p ++ frame p))
  unfolding SendsFrame
  run_leave c line es client t h k =
      let (asked, (p, e, out, named)) = handle_user_input_leave l client h in
      let (q, f, out', _) = graceful_leave_ok l _ k in
      let over = run_leave_end c line es client t asked in
      (
        p,
        e,
        ap (λ x. x.1) over,
        ap (λ x. sent x.2.writer) over ∙ two_frames _ _ p q _ _ _ e f named out out',
      )

-- What one read gives that begins with the frame of a message: the message, its payload, and what
-- comes after.
pub record Chunk : Type 0 where
  pub message : ServerMessage
  pub payload : Bytes
  pub rest : Bytes
  pub fits : length (frame payload ++ rest) ≤ read_size

unfoldable pub arrival : Chunk → Event
arrival c = from_server (ok (record { bytes = frame c.payload ++ c.rest; fits = c.fits }))

module _ ⦃dec : Codec ServerMessage⦄ where
  unfoldable pub IsChunk : Chunk → Type 0
  IsChunk c = (dec.encode_to_vec c.message ≡ ok c.payload) × (length c.payload < 2 ^ 32)

module _ {R W : Type 0} ⦃w : Writer W⦄ ⦃enc : Codec ClientMessage⦄ ⦃dec : Codec ServerMessage⦄
    (trim : Text → Text) where
  -- If every chunk that arrives begins with the frame of a message, with a payload below 2^32
  -- bytes, the client prints one line for each chunk, that of its message, in order, and goes on:
  -- what follows the frame in a chunk is dropped. The codec is lawful.
  pub run_prints :
      IsLawful dec
      → (cs : List Chunk) (client : ChatClient R W) → All IsChunk cs
      → run trim (map arrival cs) client ≡ (map (λ x. render x.message) cs, false, client)
  unfolding run turn after_turn arrival IsChunk on_read frame to_be_bytes shown
  run_prints law [] client h = refl
  run_prints law (c ∷ cs) client h = rw (
    handle_server_message-frame law c.message c.payload c.rest h.0.0 h.0.1,
    run_prints law cs client h.1,
  )
