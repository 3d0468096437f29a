-- ===== src/Server/Live/Faithful.antt =====
-- The tasks of a living server stay faithful, and its cache sound, in whatever order all run.
use simple_chat_ddn.Common.{
  ℕ, zero, suc, sym, ap, ◌∙◌, subst, List, [], ◌∷◌, ◌++◌, length, length-append, All, All-append,
  Bool, Bool-cases, inl, inr, arith,
}
use simple_chat_ddn.Common.Text.{Text, Bytes}
use simple_chat_ddn.Core.Bincode.{Codec}
use simple_chat_ddn.Core.Stream.{Reader, Writer, IsWriter}
use simple_chat_ddn.Core.Message.Client.{ClientMessage}
use simple_chat_ddn.Core.Message.Server.{ServerMessage, SharedServerMessage}
use simple_chat_ddn.Core.MessageCache.{StdHash, IsStdHash, MessageCache}
use simple_chat_ddn.Server.Dispatcher.Delivery.{IsSound}
use simple_chat_ddn.Server.Runtime.{Runtime, IsRuntime}
use simple_chat_ddn.Server.Pool.{BroadcastPool}
use simple_chat_ddn.Server.Pool.Ownership.{job}
use simple_chat_ddn.Server.Pool.Registry.{Call, create, destroy, broadcast, call, calls}
use simple_chat_ddn.Server.Pool.Channel.{carried, calls-carried}
use simple_chat_ddn.Server.Forwarder.{Receiving, IsReceiving}
use simple_chat_ddn.Server.Forwarder.Faithful.{IsFaithful, begin-IsFaithful, IsFaithful-append}
use simple_chat_ddn.Server.Forwarder.Polls.{poll-IsFaithful}
use simple_chat_ddn.Server.Service
use simple_chat_ddn.Server.Service.{Service}
use simple_chat_ddn.Server.Service.Trace.{event_calls}
use simple_chat_ddn.Server.Service.Channel.{channel_of, step-channel, step-cache}
use simple_chat_ddn.Server.Live.{
  Task, Live, Event, served, polled, cancels, spawned_by, poll_task, poll_nth, cancel_task,
  cancel_nth, step, run,
}

module _ {V : Type 0} {rt : Runtime V} (l : IsRuntime rt) (sent : V → Bytes)
    ⦃codec : Codec ServerMessage⦄ ⦃h : StdHash⦄ where
  abbrev pub AllFaithful : List SharedServerMessage → List (Task rt) → Type 0
  AllFaithful log ts = All (λ t. IsFaithful l sent log t.given t.forwarder) ts

  AllFaithful-append :
      (log more : List SharedServerMessage) (ts : List (Task rt))
      → AllFaithful log ts
      → AllFaithful (log ++ more) ts
  AllFaithful-append log more [] a = tt
  AllFaithful-append log more (t ∷ ts) a = (
    IsFaithful-append l sent log more t.given t.forwarder a.0,
    AllFaithful-append log more ts a.1,
  )

  -- A task that calls of the pool spawn is faithful once they are made.
  spawned_by-Faithful :
      (cs : List (Call V)) (pool : BroadcastPool rt)
      → AllFaithful (l.sent (calls cs pool).broadcaster) (spawned_by cs pool)
  unfolding spawned_by calls
  spawned_by-Faithful [] pool = tt
  spawned_by-Faithful (destroy u ∷ cs) pool = spawned_by-Faithful cs (call (destroy u) pool)
  spawned_by-Faithful (broadcast m ∷ cs) pool = spawned_by-Faithful cs (call (broadcast m) pool)
  spawned_by-Faithful (create u writer cache ∷ cs) pool = (
    begin-IsFaithful l sent _ (job u writer cache pool) (
        omega (
          arith,
          l.subscribe_start pool.broadcaster,
          ap length (calls-carried l (create u writer cache ∷ cs) pool),
          length-append (l.sent pool.broadcaster) (carried (create u writer cache ∷ cs) pool),
        )),
    spawned_by-Faithful cs (call (create u writer cache) pool),
  )

  module _ ⦃w : Writer V⦄ {rc : Receiving rt} (lr : IsReceiving l rc) (lw : IsWriter w sent)
      (lh : IsStdHash h) where
    poll_task-Faithful :
        (t : Task rt) (pool : BroadcastPool rt) (cache : MessageCache)
        → IsSound cache
        → IsFaithful l sent (l.sent pool.broadcaster) t.given t.forwarder
        → let (t', cache') = poll_task l rc t pool cache in
          IsFaithful l sent (l.sent pool.broadcaster) t'.given t'.forwarder × IsSound cache'
    unfolding poll_task
    poll_task-Faithful t pool cache sound v = elim (Bool-cases t.cancelled) [
      | inl over ↦ rw over (v, sound)
      | inr live ↦
          rw live (poll-IsFaithful l lr lw lh pool.broadcaster t.given t.forwarder cache sound v)
    ]

    poll_nth-Faithful :
        (n : ℕ) (ts : List (Task rt)) (pool : BroadcastPool rt) (cache : MessageCache)
        → IsSound cache
        → AllFaithful (l.sent pool.broadcaster) ts
        → AllFaithful (l.sent pool.broadcaster) (poll_nth l rc n ts pool cache).0
          × IsSound (poll_nth l rc n ts pool cache).1
    unfolding poll_nth
    poll_nth-Faithful n [] pool cache sound a = (tt, sound)
    poll_nth-Faithful zero (t ∷ ts) pool cache sound a =
        let (v, sound') = poll_task-Faithful t pool cache sound a.0 in ((v, a.1), sound')
    poll_nth-Faithful (suc n) (t ∷ ts) pool cache sound a =
        let (rest, sound') = poll_nth-Faithful n ts pool cache sound a.1 in ((a.0, rest), sound')

    cancel_nth-Faithful :
        (log : List SharedServerMessage) (n : ℕ) (ts : List (Task rt)) (pool : BroadcastPool rt)
        → AllFaithful log ts
        → AllFaithful log (cancel_nth l rc n ts pool)
    unfolding cancel_nth cancel_task
    cancel_nth-Faithful log n [] pool a = tt
    cancel_nth-Faithful log zero (t ∷ ts) pool a = a
    cancel_nth-Faithful log (suc n) (t ∷ ts) pool a = (a.0, cancel_nth-Faithful log n ts pool a.1)

    module _ {R : Type 0} ⦃r : Reader R⦄ ⦃enc : Codec ClientMessage⦄ (blocks : Text → Bool) where
      -- The cache is sound, and every task is faithful to what the channel has carried.
      abbrev pub IsGood : Live R rt → Type 0
      IsGood s =
          IsSound s.service.server.cache × AllFaithful (l.sent (channel_of s.service)) s.tasks

      served-IsGood :
          (e : Service.Event R V) (s : Live R rt)
          → IsGood s
          → IsGood (step l rc blocks (served e) s)
      unfolding step
      served-IsGood e s (sound, all) =
          let pool = s.service.server.broadcast_pool in
          let cs = event_calls e s.service in
          let log = step-channel blocks l e s.service in
          (
            subst IsSound (sym (step-cache blocks e s.service)) sound,
            All-append _ s.tasks _
                (subst (λ ms. AllFaithful ms s.tasks) (sym log)
                  (AllFaithful-append (l.sent (channel_of s.service)) _ s.tasks all))
                (subst (λ ms. AllFaithful ms (spawned_by cs pool))
                  (calls-carried l cs pool ∙ sym log) (spawned_by-Faithful cs pool)),
          )

      step-IsGood : (e : Event R V) (s : Live R rt) → IsGood s → IsGood (step l rc blocks e s)
      unfolding step
      step-IsGood (served e) s v = served-IsGood e s v
      step-IsGood (polled n) s (sound, all) =
          let server = s.service.server in
          let (all', sound') =
            poll_nth-Faithful n s.tasks server.broadcast_pool server.cache sound all in
          (sound', all')
      step-IsGood (cancels n) s (sound, all) =
          (sound, cancel_nth-Faithful _ n s.tasks s.service.server.broadcast_pool all)

      -- Whatever the loop, the handlers and the tasks of the dispatchers do, also after an abort
      -- and until the executor cancels them, and in whatever order, also between a look into the
      -- cache and what is put there for it, the cache stays sound, and every task that the pool has
      -- spawned is faithful: at each of its waits, unless it has failed, it has received messages
      -- that the channel carried since it subscribed, in order and without others, and has sent the
      -- welcome and a frame for each of them that is not its owner's, in order, except for the one
      -- at hand. A frame is that of the message, or that of a payload with the same hash. The
      -- condition is that this holds at the start.
      pub run-IsGood :
          (es : List (Event R V)) (s : Live R rt) → IsGood s → IsGood (run l rc blocks es s)
      unfolding run
      run-IsGood [] s v = v
      run-IsGood (e ∷ es) s v = run-IsGood es (step l rc blocks e s) (step-IsGood e s v)
