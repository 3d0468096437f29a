-- ===== src/Server/Forwarder/Progress.antt =====
-- What a task has received and sent, as a relation that each of its turns extends.
use mathlib.Core.List.{append_assoc, append-nil, Sublistᴰ}
use mathlib.Core.List.Sublistᴰ
use simple_chat_ddn.Common.{
  ℕ, zero, suc, ◌<◌, length-append, ◌+◌, ◌≤◌, ◌≡◌, refl, sym, ap, ◌∙◌, subst, ok, some, List, [],
  ◌∷◌, ◌++◌, length, take, drop, get_elem?, take-add, drop-append_le, take-append_le, take_one-drop,
  get_elem?-lt, length-take, Bool-cases, inl, inr, arith,
}
use simple_chat_ddn.Common.Text.{Text, Bytes}
use simple_chat_ddn.Core.Bincode.{Codec}
use simple_chat_ddn.Core.Message.Server.{ServerMessage, SharedServerMessage}
use simple_chat_ddn.Core.MessageCache.{StdHash}
use simple_chat_ddn.Core.Protocol.{frame}
use simple_chat_ddn.Core.Protocol.Cached.{Agrees}
use simple_chat_ddn.Server.Dispatcher.{is_own, shared_codec, welcome}
use simple_chat_ddn.Server.Dispatcher.Delivery.{Delivered, others}
use simple_chat_ddn.Server.Run.{channel_capacity}

-- What the channel has carried from one position up to another.
abbrev pub portion {ℓ} : {A : Type ℓ} → ℕ → ℕ → List A → List A
portion from to log = drop from (take to log)

module _ {A : Type 0} where
  portion-add :
      (from to n : ℕ) (log : List A)
      → from ≤ to
      → to ≤ length log
      → portion from (to + n) log ≡ portion from to log ++ take n (drop to log)
  portion-add from to n log h k =
      ap (drop from) (take-add to n log)
      ∙ drop-append_le from (take to log) _ (omega (arith, length-take to log))

  portion-suc :
      (from to : ℕ) (log : List A) (a : A)
      → from ≤ to
      → get_elem? log to ≡ some a
      → portion from (suc to) log ≡ portion from to log ++ a ∷ []
  portion-suc from to log a h e =
      let sum : suc to ≡ to + 1 = omega arith in
      ap (λ k. portion from k log) sum
      ∙ portion-add from to 1 log h (omega (arith, get_elem?-lt to log a e))
      ∙ ap (λ x. portion from to log ++ x) (take_one-drop to log a e)

  portion-nil : (n : ℕ) (log : List A) → portion n n log ≡ []
  portion-nil zero log = refl
  portion-nil (suc n) [] = refl
  portion-nil (suc n) (x ∷ log) = portion-nil n log

  portion-append :
      (from to : ℕ) (log more : List A)
      → to ≤ length log
      → portion from to (log ++ more) ≡ portion from to log
  portion-append from to log more h = ap (drop from) (take-append_le to log more h)

  Sublistᴰ-append_left : (xs ys zs : List A) → Sublistᴰ xs ys → Sublistᴰ xs (ys ++ zs)
  Sublistᴰ-append_left xs ys zs h =
      subst (λ us. Sublistᴰ us (ys ++ zs)) (append-nil xs)
        (Sublistᴰ.append h (Sublistᴰ.nil-sublist zs))

  Sublistᴰ-snoc : (xs ys : List A) (a : A) → Sublistᴰ xs ys → Sublistᴰ (xs ++ a ∷ []) (ys ++ a ∷ [])
  Sublistᴰ-snoc xs ys a h = Sublistᴰ.append h (Sublistᴰ.refl (a ∷ []))

others-append :
    (owner : Text) (xs ys : List SharedServerMessage)
    → others owner (xs ++ ys) ≡ others owner xs ++ others owner ys
unfolding others
others-append owner [] ys = refl
others-append owner (x ∷ xs) ys = elim (Bool-cases (is_own owner x)) [
  | inl own ↦ rw own (others-append owner xs ys)
  | inr other ↦ rw other (ap (λ z. x ∷ z) (others-append owner xs ys))
]

module _ ⦃h : StdHash⦄ ⦃codec : Codec ServerMessage⦄ where
  Delivered-snoc :
      (ms : List SharedServerMessage) (m : SharedServerMessage) (b p f : Bytes)
      → Delivered ms b
      → codec.encode_to_vec m.shared ≡ ok p
      → Agrees m p (ok f)
      → Delivered (ms ++ m ∷ []) (b ++ f)
  Delivered-snoc [] m b p f d e a = (p, f, [], e, a, ap (λ x. x ++ f) d ∙ sym (append-nil f), refl)
  Delivered-snoc (x ∷ ms) m b p f (px, fx, rest, ex, ax, split, d) e a = (
    px,
    fx,
    rest ++ f,
    ex,
    ax,
    ap (λ z. z ++ f) split ∙ append_assoc fx rest f,
    Delivered-snoc ms m rest p f d e a,
  )

  -- Of what the channel carried from one position up to another, a task has received the messages
  -- `hs`, in order, and skipped the rest; it skipped none if the channel has carried no more than
  -- its capacity since then. Since it had sent `before`, it has sent the frame of the
  -- welcome and a frame for each of them that is not its owner's, in order, except for those that
  -- are `pending`.
  pub record Progressed (log : List SharedServerMessage) (from to : ℕ) (owner : Text)
      (before now : Bytes) (pending : List SharedServerMessage) : Type 0 where
    pub hs : List SharedServerMessage
    pub ms : List SharedServerMessage
    pub p : Bytes
    pub b : Bytes
    pub skims : Sublistᴰ hs (portion from to log)
    pub foreign_ones : others owner hs ≡ ms ++ pending
    pub welcomed : codec.encode_to_vec (welcome owner) ≡ ok p
    pub out : now ≡ before ++ (frame p ++ b)
    pub delivered : Delivered ms b
    pub whole : length log ≤ from + channel_capacity → hs ≡ portion from to log

  module _ {log : List SharedServerMessage} {from to : ℕ} {owner : Text} {before now : Bytes} where
    pub Progressed-welcome :
        (p : Bytes)
        → codec.encode_to_vec (welcome owner) ≡ ok p
        → now ≡ before ++ frame p
        → to ≡ from
        → Progressed log from to owner before now []
    unfolding others
    Progressed-welcome p e out at = record {
      hs = [];
      ms = [];
      p = p;
      b = [];
      skims = Sublistᴰ.nil-sublist (portion from to log);
      foreign_ones = refl;
      welcomed = e;
      out = out ∙ ap (λ x. before ++ x) (sym (append-nil (frame p)));
      delivered = refl;
      whole = λ k. sym (ap (λ n. portion from n log) at ∙ portion-nil from log);
    }

    -- A message received. `rest` is the message if it is to be sent, and nothing if it is not.
    pub Progressed-receive :
        (m : SharedServerMessage) (rest : List SharedServerMessage)
        → from ≤ to
        → get_elem? log to ≡ some m
        → others owner (m ∷ []) ≡ rest
        → Progressed log from to owner before now []
        → Progressed log from (suc to) owner before now rest
    Progressed-receive m rest h e own x = record {
      hs = x.hs ++ m ∷ [];
      ms = x.ms;
      p = x.p;
      b = x.b;
      skims =
          subst (Sublistᴰ (x.hs ++ m ∷ [])) (sym (portion-suc from to log m h e))
            (Sublistᴰ-snoc x.hs (portion from to log) m x.skims);
      foreign_ones =
          others-append owner x.hs (m ∷ [])
          ∙ ap (λ z. z ++ others owner (m ∷ [])) (x.foreign_ones ∙ append-nil x.ms)
          ∙ ap (λ z. x.ms ++ z) own;
      welcomed = x.welcomed;
      out = x.out;
      delivered = x.delivered;
      whole = λ k. ap (λ z. z ++ m ∷ []) (x.whole k) ∙ sym (portion-suc from to log m h e);
    }

    pub Progressed-skip :
        {pending : List SharedServerMessage} (n : ℕ)
        → from ≤ to
        → to ≤ length log
        → from + channel_capacity < length log
        → Progressed log from to owner before now pending
        → Progressed log from (to + n) owner before now pending
    Progressed-skip n h k lags x = record {
      hs = x.hs;
      ms = x.ms;
      p = x.p;
      b = x.b;
      skims =
          subst (Sublistᴰ x.hs) (sym (portion-add from to n log h k))
            (Sublistᴰ-append_left x.hs (portion from to log) (take n (drop to log)) x.skims);
      foreign_ones = x.foreign_ones;
      welcomed = x.welcomed;
      out = x.out;
      delivered = x.delivered;
      whole = λ few. absurd (omega (arith, lags, few));
    }

    pub Progressed-send :
        (m : SharedServerMessage) (p f now' : Bytes)
        → codec.encode_to_vec m.shared ≡ ok p
        → Agrees m p (ok f)
        → now' ≡ now ++ f
        → Progressed log from to owner before now (m ∷ [])
        → Progressed log from to owner before now' []
    Progressed-send m p f now' e a out x = record {
      hs = x.hs;
      ms = x.ms ++ m ∷ [];
      p = x.p;
      b = x.b ++ f;
      skims = x.skims;
      foreign_ones = x.foreign_ones ∙ sym (append-nil (x.ms ++ m ∷ []));
      welcomed = x.welcomed;
      out =
          out
          ∙ ap (λ z. z ++ f) x.out
          ∙ append_assoc before (frame x.p ++ x.b) f
          ∙ ap (λ z. before ++ z) (append_assoc (frame x.p) x.b f);
      delivered = Delivered-snoc x.ms m x.b p f x.delivered e a;
      whole = x.whole;
    }

    pub Progressed-append :
        {pending : List SharedServerMessage} (more : List SharedServerMessage)
        → to ≤ length log
        → Progressed log from to owner before now pending
        → Progressed (log ++ more) from to owner before now pending
    Progressed-append more k x = record {
      hs = x.hs;
      ms = x.ms;
      p = x.p;
      b = x.b;
      skims = subst (Sublistᴰ x.hs) (sym (portion-append from to log more k)) x.skims;
      foreign_ones = x.foreign_ones;
      welcomed = x.welcomed;
      out = x.out;
      delivered = x.delivered;
      whole = λ few.
          x.whole (omega (arith, few, length-append log more))
          ∙ sym (portion-append from to log more k);
    }
