-- ===== src/Client/Join/Attempts/Rounds.antt =====
-- One round of joining, as `join_with_retry` takes it.
use mathlib.Core.List.{append-nil}
use simple_chat_ddn.Common.{
  suc, ◌+◌, ◌≤◌, ◌<◌, ◌≡◌, ◌≢◌, refl, sym, subst, Result, ok, err, none, some, List, [], ◌∷◌, ◌++◌,
  length, leb, arith, if◌then◌else◌, Bool, true, false,
}
use simple_chat_ddn.Common.Text.{Text, Bytes}
use simple_chat_ddn.Core.Error.{ApplicationError}
use simple_chat_ddn.Core.Bincode.{Codec}
use simple_chat_ddn.Core.Stream.{Reader, Writer}
use simple_chat_ddn.Core.Message.Client.{ClientMessage, join}
use simple_chat_ddn.Core.Message.Server.{
  ServerMessage, success, error, user_name_already_taken, message, user_joined, user_left,
}
use simple_chat_ddn.Core.Protocol.{frame}
use simple_chat_ddn.Client.Commands.{ChatClient}
use simple_chat_ddn.Client.Usernames.{Answer, chosen, failed, unanswered, Input}
use simple_chat_ddn.Client.Join.{
  max_join_attempts, Outcome, returned, exhausted, gave_up, round_end, retry, answered,
  sent as sent_on,
}

module _ ⦃enc : Codec ClientMessage⦄ where
  -- The bytes are the frames of a `Join` for each of the names, in order.
  unfoldable pub JoinFrames : List Text → Bytes → Type 0
  JoinFrames [] b = b ≡ []
  JoinFrames (n ∷ ns) b =
      (p : Bytes) × (rest : Bytes) × (enc.encode_to_vec (join n) ≡ ok p)
      × (b ≡ frame p ++ rest)
      × JoinFrames ns rest

module _ {R W : Type 0} (sent : W → Bytes) ⦃enc : Codec ClientMessage⦄ where
  -- The client has sent a `Join` for some names, the last of them its own, each counted.
  unfoldable pub Joined : ChatClient R W → ChatClient R W → Type 0
  Joined start client =
      (ns : List Text) × (b : Bytes) × JoinFrames (ns ++ client.username ∷ []) b
      × (sent client.writer ≡ sent start.writer ++ b)
      × (client.join_attempts ≡ start.join_attempts + suc (length ns))

  unfoldable pub Ends : ChatClient R W → Outcome × ChatClient R W × Input → Type 0
  Ends start x =
      (x.0 ≢ exhausted)
      × (x.1.join_attempts ≤ max_join_attempts)
      × (x.0 ≡ returned (ok tt) → Joined start x.1)

  -- One round has sent its `Join`.
  unfoldable pub Asked : ChatClient R W → ChatClient R W → Type 0
  Asked start client =
      (p : Bytes) × (enc.encode_to_vec (join start.username) ≡ ok p)
      × (sent client.writer ≡ sent start.writer ++ frame p)
      × (client.username ≡ start.username)
      × (client.join_attempts ≡ suc start.join_attempts)
      × (client.join_attempts ≤ max_join_attempts)

  module _ ⦃r : Reader R⦄ ⦃w : Writer W⦄ ⦃dec : Codec ServerMessage⦄ (trim : Text → Text) where
    module _ (start : ChatClient R W) where
      refused :
          (e : Text) (client : ChatClient R W) (i : Input)
          → client.join_attempts ≤ max_join_attempts
          → Ends start (returned (err e), client, i)
      unfolding Ends
      refused e client i h = ((λ x. cc (x)), h, λ x. cc (x))

      if_Ends :
          (b : Bool) (x y : Outcome × ChatClient R W × Input)
          → (b ≡ true → Ends start x)
          → (b ≡ false → Ends start y)
          → Ends start (if b then x else y)
      if_Ends true x y f g = f refl
      if_Ends false x y f g = g refl

      module _ (client : ChatClient R W) (a : Asked start client)
          (again : ChatClient R W → Input → Outcome × ChatClient R W × Input)
          (next : (c : ChatClient R W) (i : Input)
            → c.join_attempts ≡ client.join_attempts
            → sent c.writer ≡ sent client.writer
            → client.join_attempts < max_join_attempts
            → Ends start (again c i)) where
        few : client.join_attempts ≤ max_join_attempts
        unfolding Asked
        few = a.5

        round_end-Ends :
            (x : Answer × Input)
            → client.join_attempts < max_join_attempts
            → Ends start (round_end trim again client x)
        unfolding round_end Ends
        round_end-Ends (chosen (some name), i) h =
            next (record client { username = name }) i refl refl h
        round_end-Ends (chosen none, i) h = refused _ client i few
        round_end-Ends (failed e, i) h = refused e client i few
        round_end-Ends (unanswered, i) h = ((λ x. cc (x)), few, λ x. cc (x))

        retry-Ends : (u : Text) (i : Input) → Ends start (retry trim again u client i)
        unfolding retry
        retry-Ends u i =
            if_Ends (leb max_join_attempts client.join_attempts) _ _
              (λ e. refused (gave_up u) client i few) (λ e. round_end-Ends _ (ground arith))

        joined : (i : Input) → Ends start (returned (ok tt), client, i)
        unfolding Ends Joined Asked JoinFrames
        joined i =
            let (p, encoded, out, named, counted, _) = a in
            (
              (λ x. cc (x)),
              few,
              λ x. (
                [],
                frame p,
                (
                  p,
                  [],
                  subst (λ n. enc.encode_to_vec (join n) ≡ ok p) (sym named) encoded,
                  sym (append-nil (frame p)),
                  refl,
                ),
                out,
                omega (arith, counted),
              ),
            )

        answered-Ends :
            (x : Result ApplicationError ServerMessage) (i : Input)
            → Ends start (answered trim again x client i)
        unfolding answered
        answered-Ends (ok (success m)) i = joined i
        answered-Ends (ok (user_name_already_taken u)) i = retry-Ends u i
        answered-Ends (ok (error reason)) i = refused _ client i few
        answered-Ends (ok (message u c)) i = refused _ client i few
        answered-Ends (ok (user_joined u)) i = refused _ client i few
        answered-Ends (ok (user_left u)) i = refused _ client i few
        answered-Ends (err e) i = refused _ client i few

    pub sent-Ends :
        (start : ChatClient R W) (again : ChatClient R W → Input → Outcome × ChatClient R W × Input)
        (x : Result Text (Unit {0}) × ChatClient R W) (i : Input)
        → x.1.join_attempts ≤ max_join_attempts
        → (x.0 ≡ ok tt → Asked start x.1)
        → ((c : ChatClient R W) (i : Input)
            → c.join_attempts ≡ x.1.join_attempts
            → sent c.writer ≡ sent x.1.writer
            → x.1.join_attempts < max_join_attempts
            → Asked start x.1
            → Ends start (again c i))
        → Ends start (sent_on trim again x i)
    unfolding sent_on Asked
    sent-Ends start again (err e, c) i h a next = refused start e c i h
    sent-Ends start again (ok tt, c) i h a next =
        answered-Ends start _ (a refl) again (λ d j e f k. next d j e f k (a refl)) _ i
