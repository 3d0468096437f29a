-- ===== src/Server/Session/Joining.antt =====
-- What a handler does before the chat: which names it accepts, and what it answers to the rest.
use simple_chat_ddn.Common.{
  ℕ, zero, suc, ◌≡◌, ◌≢◌, refl, sym, ap, ◌∙◌, Result, ok, err, true, false, [], ◌++◌, map_err_ok,
  Bool-cases, inl, inr,
}
use simple_chat_ddn.Common.Text.{Text, Bytes}
use simple_chat_ddn.Core.Error.{ApplicationError, stream_io_error}
use simple_chat_ddn.Core.Bincode.{Codec}
use simple_chat_ddn.Core.Stream.{Reader, IsReader, IsPrompt, Writer, IsWriter}
use simple_chat_ddn.Core.Message.Client.{ClientMessage, join, leave, message}
use simple_chat_ddn.Core.Message.Server.{
  ServerMessage, user_name_already_taken, new_user_name_already_taken,
}
use simple_chat_ddn.Core.MessageCache.{MessageCache}
use simple_chat_ddn.Core.Protocol.{frame, encode_message, length_prefix}
use simple_chat_ddn.Core.Protocol.Framing.{encode_message_ok}
use simple_chat_ddn.Core.Transport.Reading.{read_message_closed}
use simple_chat_ddn.Core.Utils.{validate_username}
use simple_chat_ddn.Server.Runtime.{Runtime}
use simple_chat_ddn.Server.Pool.{BroadcastPool, has}
use simple_chat_ddn.Server.Session.{
  Session, joining, registering, announcing, chatting, leaving, finishing, ended, must_join,
  write_reply, reply, replied, accepted, join_with, session_step, handle_client,
}

module _ {W : Type 0} ⦃w : Writer W⦄ ⦃c : Codec ServerMessage⦄ {sent : W → Bytes}
    (lw : IsWriter w sent) where
  write_reply_ok :
      (f : Result ApplicationError Bytes) (s s' : W)
      → write_reply f s ≡ (ok tt, s')
      → (b : Bytes) × (f ≡ ok b) × (sent s' ≡ sent s ++ b)
  unfolding write_reply
  write_reply_ok (err x) s s' e = absurd (cc (ap (λ x. x.0) e))
  write_reply_ok (ok f) s s' e =
      let done = map_err_ok stream_io_error (w.write_all f s).0 (ap (λ x. x.0) e) in
      (
        f,
        refl,
        ap sent (sym (ap (λ x. x.1) e))
            ∙ lw.write_all_ok f s (w.write_all f s).1 (ap (λ x. (x, (w.write_all f s).1)) done),
      )

  -- A reply that succeeds has sent the message's frame.
  reply_ok :
      (m : ServerMessage) (s s' : W)
      → reply m s ≡ (ok tt, s')
      → (p : Bytes) × (c.encode_to_vec m ≡ ok p) × (sent s' ≡ sent s ++ frame p)
  unfolding reply
  reply_ok m s s' e =
      let (f, encoded, out) = write_reply_ok (encode_message m) s s' e in
      let (p, pay, same) = encode_message_ok m f encoded in
      (p, pay, out ∙ ap (λ x. sent s ++ x) same)

module _ {R W : Type 0} where
  replied-ne-registering :
      (r r' : R) (b b' : Bytes) (x : Result ApplicationError (Unit {0}) × W) (s' : W) (u : Text)
      → replied r b x ≢ registering r' s' b' u
  unfolding replied
  replied-ne-registering r r' b b' (ok _, s) s' u e = cc
  replied-ne-registering r r' b b' (err x, s) s' u e = cc

  replied_ok :
      (r : R) (b : Bytes) (x : Result ApplicationError (Unit {0}) × W)
      → x.0 ≡ ok tt
      → replied r b x ≡ joining r x.1 b
  unfolding replied
  replied_ok r b (ok _, s) e = refl
  replied_ok r b (err x, s) e = absurd (cc)

module _ {W : Type 0} {rt : Runtime W} where
  -- Why a message before the chat is answered, and with what.
  abbrev pub Refused : ClientMessage → ServerMessage → BroadcastPool rt → Type 0
  Refused (join u) answer pool =
      (validate_username u ≡ ok tt) × (has u pool ≡ true) × (answer ≡ user_name_already_taken u)
  Refused (leave u) answer pool = answer ≡ must_join
  Refused (message u x) answer pool = answer ≡ must_join

module _ {R W : Type 0} {rt : Runtime W} ⦃w : Writer W⦄ ⦃c : Codec ServerMessage⦄ where
  accepted_registering :
      (v : Result ApplicationError (Unit {0})) (r r' : R) (s s' : W) (b b' : Bytes) (un u : Text)
      (pool : BroadcastPool rt)
      → accepted v r s b un pool ≡ registering r' s' b' u
      → (v ≡ ok tt) × (has un pool ≡ false) × (un ≡ u)
  unfolding accepted
  accepted_registering (err x) r r' s s' b b' un u pool e = absurd (cc)
  accepted_registering (ok tt) r r' s s' b b' un u pool e = elim (Bool-cases (has un pool)) [
    | inl taken ↦ absurd (
        replied-ne-registering r r' b b' (reply (new_user_name_already_taken un) s) s' u
          (rw taken at e))
    | inr free ↦ (refl, free, registering-name (rw free at e))
  ]
    where
      registering-name : registering r s b un ≡ registering r' s' b' u → un ≡ u
      registering-name h = cc

  -- A handler goes on to register a name only if it has read a `Join` with that name,
  -- `validate_username` accepts it, and the pool does not hold it.
  pub join_with_registering :
      (m : Result ApplicationError ClientMessage) (r r' : R) (s s' : W) (b b' : Bytes)
      (pool : BroadcastPool rt) (u : Text)
      → join_with m r s b pool ≡ registering r' s' b' u
      → (m ≡ ok (join u)) × (validate_username u ≡ ok tt) × (has u pool ≡ false)
  unfolding join_with accepted replied
  join_with_registering (ok (join v)) r r' s s' b b' pool u e =
      let (valid, free, same) =
        accepted_registering (validate_username v) r r' s s' b b' v u pool e in
      (
        ap (λ x. ok (join x)) same,
        ap validate_username (sym same) ∙ valid,
        ap (λ x. has x pool) (sym same) ∙ free,
      )
  join_with_registering (ok (leave v)) r r' s s' b b' pool u e =
      absurd (replied-ne-registering r r' b b' (reply must_join s) s' u e)
  join_with_registering (ok (message v x)) r r' s s' b b' pool u e =
      absurd (replied-ne-registering r r' b b' (reply must_join s) s' u e)
  join_with_registering (err x) r r' s s' b b' pool u e = absurd (cc)

  Refused-replied :
      (m : ClientMessage) (answer : ServerMessage) (r : R) (s : W) (b : Bytes)
      (pool : BroadcastPool rt)
      → Refused m answer pool
      → join_with (ok m) r s b pool ≡ replied r b (reply answer s)
  unfolding join_with accepted new_user_name_already_taken
  Refused-replied (join u) answer r s b pool (valid, taken, same) = rw (valid, taken, same)
  Refused-replied (leave u) answer r s b pool same = rw same
  Refused-replied (message u x) answer r s b pool same = rw same

  -- Before the chat, a `Join` with a valid name that the pool holds is answered by
  -- `UserNameAlreadyTaken`, and any other message by the request to join first: if the reply
  -- succeeds, it is the frame of that answer, and the handler goes on to wait for a name.
  pub join_with-Refused :
      {sent : W → Bytes}
      → IsWriter w sent
      → (m : ClientMessage) (answer : ServerMessage) (r : R) (s : W) (b : Bytes)
        (pool : BroadcastPool rt)
      → Refused m answer pool
      → (reply answer s).0 ≡ ok tt
      → (p : Bytes) × (s' : W) × (join_with (ok m) r s b pool ≡ joining r s' b)
        × (c.encode_to_vec answer ≡ ok p)
        × (sent s' ≡ sent s ++ frame p)
  join_with-Refused lw m answer r s b pool why e =
      let done : reply answer s ≡ (ok tt, (reply answer s).1) =
        ap (λ x. (x, (reply answer s).1)) e in
      let (p, pay, out) = reply_ok lw answer s (reply answer s).1 done in
      (
        p,
        (reply answer s).1,
        Refused-replied m answer r s b pool why ∙ replied_ok r b (reply answer s) e,
        pay,
        out,
      )

  -- An invalid name ends the session, with no reply.
  join_with_invalid :
      (u : Text) (x : ApplicationError) (r : R) (s : W) (b : Bytes) (pool : BroadcastPool rt)
      → validate_username u ≡ err x
      → join_with (ok (join u)) r s b pool ≡ ended (err x)
  unfolding join_with accepted
  join_with_invalid u x r s b pool e = rw e

module _ {R W : Type 0} (pending : R → Bytes) where
  -- A handler that waits for a name on a stream that has ended.
  abbrev pub Waits : Session R W → Type 0
  Waits (joining reader writer buffer) = pending reader ≡ []
  Waits (registering reader writer buffer u) = ⊥
  Waits (announcing reader buffer u) = ⊥
  Waits (chatting reader buffer u) = ⊥
  Waits (leaving other u) = ⊥
  Waits (finishing u) = ⊥
  Waits (ended result) = ⊥

module _ {R W : Type 0} {rt : Runtime W} ⦃r : Reader R⦄ ⦃w : Writer W⦄ ⦃cc : Codec ClientMessage⦄
    ⦃cs : Codec ServerMessage⦄ {pending : R → Bytes} (l : IsReader r pending)
    (prompt : IsPrompt r pending) where
  pub step-Waits :
      (cache : MessageCache) (s : Session R W) (pool : BroadcastPool rt)
      → Waits pending s
      → Waits pending (session_step cache s pool).0 × ((session_step cache s pool).1 ≡ pool)
  unfolding session_step join_with
  step-Waits cache (joining reader writer buffer) pool end =
      let (b, s', e, again) = prompt.read_end length_prefix reader end in
      rw (read_message_closed l reader s' buffer b e end) (again, refl)
  step-Waits cache (registering reader writer buffer u) pool end = absurd end
  step-Waits cache (announcing reader buffer u) pool end = absurd end
  step-Waits cache (chatting reader buffer u) pool end = absurd end
  step-Waits cache (leaving other u) pool end = absurd end
  step-Waits cache (finishing u) pool end = absurd end
  step-Waits cache (ended result) pool end = absurd end

  -- If a client hangs up before it has joined, its handler never returns: after any number of steps
  -- it still waits for a name, and the pool is as it was. The stream goes on to report its end.
  pub handle_client_spins :
      (cache : MessageCache) (n : ℕ) (s : Session R W) (pool : BroadcastPool rt)
      → Waits pending s
      → Waits pending (handle_client cache n s pool).0 × ((handle_client cache n s pool).1 ≡ pool)
  unfolding handle_client
  handle_client_spins cache zero s pool end = (end, refl)
  handle_client_spins cache (suc n) s pool end =
      let (still, same) = step-Waits cache s pool end in
      let (stuck, kept) =
        handle_client_spins cache n (session_step cache s pool).0 (session_step cache s pool).1
          still in
      (stuck, kept ∙ same)
