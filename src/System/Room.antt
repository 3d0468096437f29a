-- ===== src/System/Room.antt =====
-- A whole server and one of its clients: from the handlers' turns (chat-server/src/server.rs,
-- chat-server/src/client_handler.rs) to what the client prints (chat-client/src/client.rs).
use simple_chat_ddn.Common.{
  ℕ, Bool, ◌≡◌, ap, ◌∙◌, ok, some, List, ◌∷◌, ◌++◌, get_elem?, map, All, false,
}
use simple_chat_ddn.Common.Text.{Text, Bytes}
use simple_chat_ddn.Core.Bincode.{Codec, IsLawful}
use simple_chat_ddn.Core.Stream.{Reader, Writer, IsWriter}
use simple_chat_ddn.Core.Message.Client.{ClientMessage}
use simple_chat_ddn.Core.Message.Server.{ServerMessage, SharedServerMessage}
use simple_chat_ddn.Core.MessageCache.{StdHash, IsStdHash}
use simple_chat_ddn.Core.Protocol.{frame}
use simple_chat_ddn.Core.Transport.{write_message_to_stream}
use simple_chat_ddn.Server.Dispatcher.{Event, waiting, run_dispatcher, welcome}
use simple_chat_ddn.Server.Dispatcher.Delivery.{IsSound, AllSound, others}
use simple_chat_ddn.Server.Runtime.{Runtime, IsRuntime}
use simple_chat_ddn.Server.Pool.{BroadcastPool, create_dispatcher}
use simple_chat_ddn.Server.Pool.Ownership.{job}
use simple_chat_ddn.Server.Pool.Registry.{Call, call, calls}
use simple_chat_ddn.Server.Pool.Channel.{carried, backlog}
use simple_chat_ddn.Server.Session.{registering}
use simple_chat_ddn.Server.Service
use simple_chat_ddn.Server.Service.{Service, turn, step}
use simple_chat_ddn.Server.Service.Stages.{IsNoSignal}
use simple_chat_ddn.Server.Service.Trace.{event-register_calls, trace, run-trace}
use simple_chat_ddn.Client.Commands.{ChatClient}
use simple_chat_ddn.Client.Messages.{render}
use simple_chat_ddn.Client.Run.{Piece, run}
use simple_chat_ddn.Client.Run.Frames.{piece}
use simple_chat_ddn.System.Delivery.{
  read_by, IsOpen, flatten, AllShort, IsAlone, run_dispatcher-run,
}

module _ {R V : Type 0} {rt : Runtime V} ⦃r : Reader R⦄ ⦃v : Writer V⦄ ⦃enc : Codec ClientMessage⦄
    ⦃codec : Codec ServerMessage⦄ (blocks : Text → Bool) (s : Service R rt) (n : ℕ)
    (es : List (Service.Event R V)) (writer : V) (u : Text) where
  abbrev pub pool_joined : BroadcastPool rt
  pool_joined = create_dispatcher u writer s.server.cache s.server.broadcast_pool

  -- What the handlers do to the pool once the dispatcher of the name is there.
  abbrev pub later : List (Call V)
  later = trace blocks es (step blocks (turn n) s)

  -- What of it is for the client of that name.
  abbrev pub heard : List SharedServerMessage
  heard = others u (carried later pool_joined)

  -- The pool after that turn and the events that follow it.
  pub pool-later :
      (reader : R) (buffer : Bytes)
      → get_elem? s.handlers n ≡ some (registering reader writer buffer u)
      → All IsNoSignal es
      → (Service.run blocks (turn n ∷ es) s).server.broadcast_pool ≡ calls later pool_joined
  unfolding trace calls call
  pool-later reader buffer e h =
      run-trace blocks (turn n ∷ es) s (tt, h)
      ∙ ap (λ cs. calls (cs ++ trace blocks es (step blocks (turn n) s)) s.server.broadcast_pool)
          (event-register_calls n s reader writer buffer u e)

module _ {R V X W : Type 0} {rt : Runtime V} ⦃r : Reader R⦄ ⦃v : Writer V⦄ ⦃w : Writer W⦄
    ⦃enc : Codec ClientMessage⦄ ⦃codec : Codec ServerMessage⦄ ⦃h : StdHash⦄ {sent : V → Bytes}
    (lv : IsWriter v sent) (lh : IsStdHash h) (l : IsRuntime rt) (law : IsLawful codec)
    (trim : Text → Text) (blocks : Text → Bool) where
  -- The chat works, from the server's handlers to a screen. Let a handler of the server be about to
  -- register a name, take its turn, and let the loop and the handlers then do whatever they do,
  -- short of the shutdown. Once the dispatcher of that name has received all that the channel has
  -- carried since it was made, and has not failed, it has sent the frame of the welcome, which
  -- joining takes from the stream, and then frames; and if the loop of the client then reads these
  -- one at a time, it prints one line for each message that the handlers put on the channel in the
  -- meantime and that is not its own, in order, and nothing else. The codec is lawful, the cache is
  -- sound whenever the dispatcher looks at it, the channel is not closed, the first write succeeds,
  -- every frame that is forwarded fits in the 4096 bytes of the client's buffer, and no other bytes
  -- have the hash of a message that is forwarded.
  pub trace-run :
      (s : Service R rt) (n : ℕ) (es : List (Service.Event R V)) (reader : R) (writer : V)
      (buffer : Bytes) (u : Text) (events : List Event) (client : ChatClient X W)
      → let d = job u writer s.server.cache s.server.broadcast_pool in
        let ms = heard blocks s n es writer u in
        get_elem? s.handlers n ≡ some (registering reader writer buffer u)
        → All IsNoSignal es
        → IsSound s.server.cache
        → AllSound events
        → IsOpen events
        → read_by events
          ≡ backlog l d.rec (Service.run blocks (turn n ∷ es) s).server.broadcast_pool.broadcaster
        → All IsAlone ms
        → AllShort ms
        → (write_message_to_stream writer (welcome u)).0 ≡ ok tt
        → (run_dispatcher d events).0 ≡ waiting
        → (p : Bytes) × (fs : List Piece) × (codec.encode_to_vec (welcome u) ≡ ok p)
          × (sent (run_dispatcher d events).1 ≡ sent writer ++ (frame p ++ flatten fs))
          × (run trim (map piece fs) client ≡ (map (λ m. render m.shared) ms, false, client))
  trace-run s n es reader writer buffer u events client at calm sound all unclosed read alone shorts
        e waits =
      let d = job u writer s.server.cache s.server.broadcast_pool in
      run_dispatcher-run lv lh l law trim u writer s.server.cache s.server.broadcast_pool
        (later blocks s n es writer u) events client sound all unclosed
        (read
          ∙ ap (λ p. backlog l d.rec p.broadcaster)
              (pool-later blocks s n es writer u reader buffer at calm))
        alone shorts e waits
