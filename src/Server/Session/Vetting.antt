-- ===== src/Server/Session/Vetting.antt =====
-- The names in the pool under one handler's steps, whatever the others do between them.
use simple_chat_ddn.Common.{◌≡◌, refl, ◌∙◌, sym, Bool, true, arith, [], subst, Result, ok, err}
use simple_chat_ddn.Common.Text.{Text, Bytes, text_eq}
use simple_chat_ddn.Common.Map.{NodupKeys}
use simple_chat_ddn.Core.Error.{ApplicationError}
use simple_chat_ddn.Core.Bincode.{Codec}
use simple_chat_ddn.Core.Stream.{Reader, Writer}
use simple_chat_ddn.Core.Message.Client.{ClientMessage, join, leave, message}
use simple_chat_ddn.Core.Message.Server.{
  ServerMessage, new, new_user_joined, new_user_left, new_message,
}
use simple_chat_ddn.Core.MessageCache.{MessageCache}
use simple_chat_ddn.Core.Utils.{validate_username}
use simple_chat_ddn.Server.Runtime.{Runtime}
use simple_chat_ddn.Server.Pool.{BroadcastPool, has, broadcast_message}
use simple_chat_ddn.Server.Pool.Registry.{
  Call, create, destroy, broadcast, call, call_distinct, call_names, names_after,
}
use simple_chat_ddn.Server.Session.{
  Session, joining, registering, announcing, chatting, leaving, finishing, ended, announced,
  announce, announce_left, left, register, join_with, chat_with, session_step,
}
use simple_chat_ddn.Server.Pool.Shutdown.{has-empty}
use simple_chat_ddn.Server.Session.Joining.{join_with_registering}

-- A name is held once, and every name that is held is valid.
pub record IsNamed {W : Type 0} {rt : Runtime W} (pool : BroadcastPool rt) : Type 0 where
  pub distinct : NodupKeys text_eq pool.dispatchers
  pub valid : (u : Text) → has u pool ≡ true → validate_username u ≡ ok tt

module _ {W : Type 0} where
  -- A dispatcher is made for a valid name.
  abbrev IsVettedCall : Call W → Type 0
  IsVettedCall (create u writer cache) = validate_username u ≡ ok tt
  IsVettedCall (destroy u) = Unit {0}
  IsVettedCall (broadcast m) = Unit {0}

  names_after_vetted :
      (c : Call W) (names : Text → Bool) (v : Text)
      → IsVettedCall c
      → (names v ≡ true → validate_username v ≡ ok tt)
      → names_after c names v ≡ true
      → validate_username v ≡ ok tt
  unfolding names_after
  names_after_vetted (create u writer cache) names v h old e = elim (text_eq v u) [
    | yes same ↦ rw same h
    | no n ↦ old (ground (arith, e))
  ]
  names_after_vetted (destroy u) names v h old e = elim (text_eq v u) [
    | yes same ↦ ground (arith, e)
    | no n ↦ old (ground (arith, e))
  ]
  names_after_vetted (broadcast m) names v h old e = old e

  module _ {rt : Runtime W} where
    call-IsNamed :
        (c : Call W) (pool : BroadcastPool rt)
        → IsVettedCall c
        → IsNamed pool
        → IsNamed (call c pool)
    call-IsNamed c pool h v = record {
      distinct = call_distinct c pool v.distinct;
      valid = λ u e.
          names_after_vetted c (λ x. has x pool) u h (v.valid u)
            (sym (call_names c pool u v.distinct) ∙ e);
    }

module _ {W : Type 0} {rt : Runtime W} where
  pub emptied-IsNamed : (pool : BroadcastPool rt) → pool.dispatchers ≡ [] → IsNamed pool
  emptied-IsNamed pool e = record {
    distinct = subst (NodupKeys text_eq) (sym e) tt;
    valid = λ u held. absurd (cc (has-empty u pool e, held));
  }

module _ {R W : Type 0} where
  -- A name that the handler is about to register is valid.
  abbrev pub IsVetted : Session R W → Type 0
  IsVetted (registering reader writer buffer u) = validate_username u ≡ ok tt
  IsVetted (joining reader writer buffer) = Unit {0}
  IsVetted (announcing reader buffer u) = Unit {0}
  IsVetted (chatting reader buffer u) = Unit {0}
  IsVetted (leaving other u) = Unit {0}
  IsVetted (finishing u) = Unit {0}
  IsVetted (ended result) = Unit {0}

module _ {R W : Type 0} {rt : Runtime W} where
  -- What a step leaves: a valid handler and a valid pool.
  abbrev pub IsSound : Session R W × BroadcastPool rt → Type 0
  IsSound x = IsVetted x.0 × IsNamed x.1

  module _ ⦃w : Writer W⦄ ⦃cs : Codec ServerMessage⦄ where
    joined-IsVetted :
        (s : Session R W) (m : Result ApplicationError ClientMessage) (reader : R) (writer : W)
        (buffer : Bytes) (pool : BroadcastPool rt)
        → join_with m reader writer buffer pool ≡ s
        → IsVetted s
    joined-IsVetted (registering r' w' b' u) m reader writer buffer pool e =
        let (_, valid, _) = join_with_registering m reader r' writer w' buffer b' pool u e in valid
    joined-IsVetted (joining r' w' b') m reader writer buffer pool e = tt
    joined-IsVetted (announcing r' b' u) m reader writer buffer pool e = tt
    joined-IsVetted (chatting r' b' u) m reader writer buffer pool e = tt
    joined-IsVetted (leaving v u) m reader writer buffer pool e = tt
    joined-IsVetted (finishing u) m reader writer buffer pool e = tt
    joined-IsVetted (ended result) m reader writer buffer pool e = tt

  register-IsSound :
      (cache : MessageCache) (reader : R) (writer : W) (buffer : Bytes) (u : Text)
      (pool : BroadcastPool rt)
      → validate_username u ≡ ok tt
      → IsNamed pool
      → IsSound (register cache reader writer buffer u pool)
  unfolding register call
  register-IsSound cache reader writer buffer u pool h v =
      (tt, call-IsNamed (create u writer cache) pool h v)

  announce-IsSound :
      (reader : R) (buffer : Bytes) (u : Text) (pool : BroadcastPool rt)
      → IsNamed pool
      → IsSound (announce reader buffer u pool)
  unfolding announce announced broadcast_message call
  announce-IsSound reader buffer u pool v =
      (tt, call-IsNamed (broadcast (new (new_user_joined u))) pool tt v)

module _ (R : Type 0) {W : Type 0} {rt : Runtime W} where
  announce_left-IsSound :
      (o u : Text) (pool : BroadcastPool rt)
      → IsNamed pool
      → IsSound (announce_left {R = R} o u pool)
  unfolding announce_left announced broadcast_message call
  announce_left-IsSound o u pool v =
      (tt, call-IsNamed (broadcast (new (new_user_left o))) pool tt v)

  left-IsSound : (u : Text) (pool : BroadcastPool rt) → IsNamed pool → IsSound (left {R = R} u pool)
  unfolding left call
  left-IsSound u pool v = (tt, call-IsNamed (destroy u) pool tt v)

module _ {R W : Type 0} {rt : Runtime W} where
  chat_with-IsSound :
      (m : Result ApplicationError ClientMessage) (reader : R) (buffer : Bytes) (u : Text)
      (pool : BroadcastPool rt)
      → IsNamed pool
      → IsSound (chat_with m reader buffer u pool)
  unfolding chat_with announced left broadcast_message call
  chat_with-IsSound (ok (join v)) reader buffer u pool h = (tt, h)
  chat_with-IsSound (ok (leave v)) reader buffer u pool h = (tt, call-IsNamed (destroy v) pool tt h)
  chat_with-IsSound (ok (message v x)) reader buffer u pool h =
      (tt, call-IsNamed (broadcast (new (new_message v x))) pool tt h)
  chat_with-IsSound (err x) reader buffer u pool h = left-IsSound R u pool h

module _ {R W : Type 0} {rt : Runtime W} ⦃r : Reader R⦄ ⦃w : Writer W⦄ ⦃cc : Codec ClientMessage⦄
    ⦃cs : Codec ServerMessage⦄ where
  pub session_step-IsSound :
      (cache : MessageCache) (s : Session R W) (pool : BroadcastPool rt)
      → IsVetted s
      → IsNamed pool
      → IsSound (session_step cache s pool)
  unfolding session_step
  session_step-IsSound cache (joining reader writer buffer) pool h v =
      (joined-IsVetted _ _ _ writer _ pool refl, v)
  session_step-IsSound cache (registering reader writer buffer u) pool h v =
      register-IsSound cache reader writer buffer u pool h v
  session_step-IsSound cache (chatting reader buffer u) pool h v = chat_with-IsSound _ _ _ u pool v
  session_step-IsSound cache (announcing reader buffer u) pool h v =
      announce-IsSound reader buffer u pool v
  session_step-IsSound cache (leaving o u) pool h v = announce_left-IsSound R o u pool v
  session_step-IsSound cache (finishing u) pool h v = left-IsSound R u pool v
  session_step-IsSound cache (ended result) pool h v = (tt, v)
