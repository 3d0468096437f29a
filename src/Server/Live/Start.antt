-- ===== src/Server/Live/Start.antt =====
-- A server from its start on.
use simple_chat_ddn.Common.{ℕ, ◌≡◌, refl, subst, none, List, [], Bool}
use simple_chat_ddn.Common.Map.{lookup}
use simple_chat_ddn.Common.Text.{Text, Bytes}
use simple_chat_ddn.Core.Bincode.{Codec}
use simple_chat_ddn.Core.Stream.{Reader, Writer, IsWriter}
use simple_chat_ddn.Core.Message.Client.{ClientMessage}
use simple_chat_ddn.Core.Message.Server.{ServerMessage, SharedServerMessage}
use simple_chat_ddn.Core.MessageCache.{StdHash, IsStdHash}
use simple_chat_ddn.Core.MessageCache.Laws.{new-IsValid}
use simple_chat_ddn.Core.Protocol.Cached.{new-IsCoherent}
use simple_chat_ddn.Server.Runtime.{Runtime, IsRuntime}
use simple_chat_ddn.Server.Pool
use simple_chat_ddn.Server.Pool.Rooms.{IsHeld, room_of, empty-IsHeld}
use simple_chat_ddn.Server.ChatRoom.{Room, History}
use simple_chat_ddn.Server.Forwarder.{Receiving, IsReceiving}
use simple_chat_ddn.Server.Run.{ChatServer, new, channel_capacity, cache_capacity}
use simple_chat_ddn.Server.Service
use simple_chat_ddn.Server.Live.{Live, Event, run}
use simple_chat_ddn.Server.Live.Faithful.{IsGood, run-IsGood}
use simple_chat_ddn.Server.Live.Rooms.{acts, run-acts}

-- Nobody is there.
abbrev pub empty_room : List SharedServerMessage → Room
empty_room log = record { log = log; members = λ u. none }

module _ {R V : Type 0} {rt : Runtime V} where
  unfoldable pub start : ChatServer rt → Live R rt
  start server = record { service = Service.start server; tasks = [] }

module _ (R : Type 0) {V : Type 0} {rt : Runtime V} (l : IsRuntime rt) {sent : V → Bytes}
    {rc : Receiving rt} (lr : IsReceiving l rc) ⦃r : Reader R⦄ ⦃w : Writer V⦄
    ⦃enc : Codec ClientMessage⦄ ⦃codec : Codec ServerMessage⦄ ⦃h : StdHash⦄ (lw : IsWriter w sent)
    (lh : IsStdHash h) (blocks : Text → Bool) (channel : ℕ → rt.Sender)
    (executor : rt.Executor) where
  abbrev pub fresh : ℕ → Live R rt
  fresh max_connections = start (new channel executor max_connections)

  fresh-IsGood : (n : ℕ) → IsGood l sent lr lw lh blocks (fresh n)
  unfolding start Service.start new
  fresh-IsGood n = ((new-IsValid cache_capacity, new-IsCoherent cache_capacity), tt)

  fresh-IsHeld : (n : ℕ) → IsHeld l (fresh n).service.server.broadcast_pool
  unfolding start Service.start new Pool.new
  fresh-IsHeld n = empty-IsHeld l (fresh n).service.server.broadcast_pool refl

  fresh_room :
      (n : ℕ)
      → room_of l (fresh n).service.server.broadcast_pool
        ≡ empty_room (l.sent (channel channel_capacity))
  unfolding start Service.start new Pool.new lookup
  fresh_room n = refl

  -- From the server that `ChatServer::new` makes on, whatever the loop, the handlers and the tasks
  -- of the dispatchers do, in whatever order: the cache stays sound and the tasks faithful, each
  -- name is held once and nobody has told its dispatcher to stop, and what has happened is a
  -- history of a chat room that begins with nobody in it. Every call of the pool is one act there:
  -- a registration adds its name from the end of the log on, or moves it there, a broadcast adds to
  -- the log or is unheard, a destroyed dispatcher takes its name away, a shutdown that returns
  -- takes away all, and nothing else changes it.
  pub run-fresh :
      (max_connections : ℕ) (es : List (Event R V))
      → let s = fresh max_connections in
        let s' = run l rc blocks es s in
        IsGood l sent lr lw lh blocks s'
        × IsHeld l s'.service.server.broadcast_pool
        × History
            (acts l rc blocks es s)
            (empty_room (l.sent (channel channel_capacity)))
            (room_of l s'.service.server.broadcast_pool)
  run-fresh max_connections es =
      let s = fresh max_connections in
      let (held, history) = run-acts l rc blocks es s (fresh-IsHeld max_connections) in
      (
        run-IsGood l sent lr lw lh blocks es s (fresh-IsGood max_connections),
        held,
        subst
            (λ room.
              History (acts l rc blocks es s) room
                (room_of l (run l rc blocks es s).service.server.broadcast_pool))
            (fresh_room max_connections) history,
      )
