-- ===== src/Tests/LiveExamples.antt =====
-- The theorems on a living server and the screens of its clients at concrete inputs.
use simple_chat_ddn.Common.{
  ℕ, ◌≤◌, ◌≡◌, refl, none, some, false, List, [], ◌∷◌, ◌++◌, get_elem?, arith,
}
use simple_chat_ddn.Common.Text.{Bytes, text_eq}
use simple_chat_ddn.Common.Map.{lookup}
use simple_chat_ddn.Core.Message.Server.{SharedServerMessage, user_joined}
use simple_chat_ddn.Core.Message.Server
use simple_chat_ddn.Core.MessageCache.{hash_message, get, put}
use simple_chat_ddn.Core.MessageCache
use simple_chat_ddn.Core.MessageCache.Laws.{new-IsValid}
use simple_chat_ddn.Core.Protocol.{frame, encode_message, decode_message, prefix_of}
use simple_chat_ddn.Core.Protocol.Cached.{new-IsCoherent}
use simple_chat_ddn.Core.Transport.{read_message_from_stream, write_message_to_stream}
use simple_chat_ddn.Server.Dispatcher.{is_own, shared_codec, welcome}
use simple_chat_ddn.Server.Dispatcher.Delivery.{others}
use simple_chat_ddn.Server.Pool.{create_dispatcher, broadcast_message}
use simple_chat_ddn.Server.Pool
use simple_chat_ddn.Server.Pool.Ownership.{job}
use simple_chat_ddn.Server.Pool.Registry.{call}
use simple_chat_ddn.Server.Forwarder.Alone.{
  polls, holding, forwarded_at_once, polls-write_message_to_stream_with_cache,
}
use simple_chat_ddn.Server.Forwarder.CatchingUp.{polls-CaughtUp}
use simple_chat_ddn.Server.Forwarder.{Forwarder, receiving, begin, poll}
use simple_chat_ddn.Server.Service.Channel.{channel_of}
use simple_chat_ddn.Server.Service
use simple_chat_ddn.Server.Service.{turn, connection}
use simple_chat_ddn.Server.Service.Trace.{event_calls, session_calls, chat_calls, nth_calls}
use simple_chat_ddn.Server.Session.{register, session_step, chat_with, announce}
use simple_chat_ddn.Server.Live.{Live, Task, Event, served, polled, step, run, spawned_by, poll_nth}
use simple_chat_ddn.Server.Run
use simple_chat_ddn.Server.ChatRoom.{History}
use simple_chat_ddn.Server.Pool.Rooms.{IsHeld, room_of}
use simple_chat_ddn.Server.Live.Rooms.{acts}
use simple_chat_ddn.Server.Live.Start.{start, empty_room, run-fresh}
use simple_chat_ddn.Server.Live.Faithful.{IsGood, run-IsGood}
use simple_chat_ddn.System.Screens.{Shows, run-Shows}
use simple_chat_ddn.Tests.Actors.{
  alice, cache, no_clients, hi, client, marking_hash, marking_hash-IsStdHash, hi-IsAlone,
}
use simple_chat_ddn.Tests.Fixture.{
  client_codec, server_codec, server_codec-IsLawful, bytes_reader, bytes_writer,
  bytes_writer-IsWriter, encode_server, list_runtime, list_runtime-IsRuntime, list_receiving,
  list_receiving-IsReceiving, list_receiving-IsReady, bytes_writer-IsReliable, Channel, ok_eq,
}
use simple_chat_ddn.Tests.RoomExamples.{never, room}

abbrev pub quiet : Live Bytes list_runtime
quiet = record { service = room; tasks = [] }

-- alice registers, and her task sends the welcome; bob says "hi"; her task receives that she has
-- joined and what bob says, looks into the cache, stores the frame and writes it.
abbrev day : List (Event Bytes Bytes)
day =
    served (turn 0)
    ∷ polled 0
    ∷ served (turn 0)
    ∷ served (turn 1)
    ∷ polled 0
    ∷ polled 0
    ∷ polled 0
    ∷ polled 0
    ∷ polled 0
    ∷ []

abbrev evening : Live Bytes list_runtime
evening = run list_runtime-IsRuntime list_receiving never day quiet

pub quiet-IsGood :
    IsGood list_runtime-IsRuntime
      (λ (b : Bytes). b)
      list_receiving-IsReceiving
      bytes_writer-IsWriter
      marking_hash-IsStdHash
      never
      quiet
quiet-IsGood = ((new-IsValid 2, new-IsCoherent 2), tt)

-- Her task waits for the channel, with two frames sent.
abbrev pub alice_task : Task list_runtime
alice_task = record {
  id = 0;
  given = job {rt = list_runtime} alice [] cache no_clients;
  forwarder = record {
    rec = 2;
    channel_owner = alice;
    writer = frame (encode_server (welcome alice)) ++ frame (encode_server hi.shared);
    wait = receiving;
  };
  cancelled = false;
}

abbrev log : List SharedServerMessage
log = list_runtime-IsRuntime.sent (channel_of evening.service)

waits : get_elem? evening.tasks 0 ≡ some alice_task
unfolding run step spawned_by poll_nth event_calls session_calls chat_calls announce nth_calls
    Service.step session_step register broadcast_message create_dispatcher read_message_from_stream
    prefix_of decode_message call begin poll write_message_to_stream encode_message is_own text_eq
    Server.username hash_message shared_codec get put lookup MessageCache.new welcome Server.new
    Server.new_user_joined Server.new_message Pool.new list_runtime-IsRuntime chat_with frame
waits = refl

hears : others alice log ≡ hi ∷ []
unfolding others run step spawned_by poll_nth event_calls session_calls chat_calls announce
    nth_calls Service.step session_step register broadcast_message create_dispatcher
    read_message_from_stream prefix_of decode_message call begin poll write_message_to_stream
    encode_message is_own text_eq Server.username hash_message shared_codec get put lookup
    MessageCache.new welcome Server.new Server.new_user_joined Server.new_message Pool.new
    list_runtime-IsRuntime chat_with frame
hears = refl

run-IsGood_example :
    IsGood list_runtime-IsRuntime
      (λ (b : Bytes). b)
      list_receiving-IsReceiving
      bytes_writer-IsWriter
      marking_hash-IsStdHash
      never
      evening
run-IsGood_example =
    run-IsGood list_runtime-IsRuntime (λ (b : Bytes). b) list_receiving-IsReceiving
      bytes_writer-IsWriter marking_hash-IsStdHash never day quiet quiet-IsGood

run-Shows_example : Shows list_runtime-IsRuntime (λ (b : Bytes). b) (λ l. l) log alice_task client
unfolding welcome
run-Shows_example =
    run-Shows bytes_writer-IsWriter marking_hash-IsStdHash list_runtime-IsRuntime
      list_receiving-IsReceiving server_codec-IsLawful (λ l. l) never day quiet 0 alice_task client
      quiet-IsGood waits refl (rw hears (hi-IsAlone, tt))
      (rw hears (λ p e. rw (← ok_eq e) (omega arith), tt))

-- alice's task, which has sent the welcome, and two messages on the channel.
abbrev behind : Forwarder ℕ Bytes
behind = record { rec = 0; channel_owner = alice; writer = []; wait = receiving }

abbrev two_messages : Channel
two_messages = (1, hi ∷ hi ∷ [])

polls-write_message_to_stream_with_cache_example :
    (n : ℕ) × (n ≤ 3)
    × (polls list_receiving two_messages n
          (holding list_receiving two_messages behind hi cache)
          cache
        ≡ forwarded_at_once list_receiving two_messages behind hi cache)
polls-write_message_to_stream_with_cache_example =
    polls-write_message_to_stream_with_cache list_receiving two_messages behind hi cache

polls-CaughtUp_example :
    (n : ℕ) × ((n ≤ 8)
      × ((polls list_receiving two_messages n behind cache).0.wait ≡ receiving)
      × ((polls list_receiving two_messages n behind cache).0.rec ≡ 2))
unfolding list_runtime-IsRuntime
polls-CaughtUp_example =
    polls-CaughtUp list_runtime-IsRuntime list_receiving-IsReceiving list_receiving-IsReady
      bytes_writer-IsReliable two_messages behind cache refl (omega arith)
      ((encode_server hi.shared, refl), ((encode_server hi.shared, refl), tt))

-- A client that asks for alice's name connects, joins and is registered, and her task starts.
abbrev opening : List (Event Bytes Bytes)
opening =
    served (connection (0 ∷ 0 ∷ 0 ∷ 6 ∷ 0 ∷ alice) [])
    ∷ served (turn 0)
    ∷ served (turn 0)
    ∷ polled 0
    ∷ []

abbrev opened : Live Bytes list_runtime
opened = start (Run.new {W = Bytes} {rt = list_runtime} (λ n. (0, [])) (0, λ t. none) 2)

run-fresh_example :
    IsGood list_runtime-IsRuntime
      (λ (b : Bytes). b)
      list_receiving-IsReceiving
      bytes_writer-IsWriter
      marking_hash-IsStdHash
      never
      (run list_runtime-IsRuntime list_receiving never opening opened)
    × IsHeld list_runtime-IsRuntime
        (run list_runtime-IsRuntime list_receiving never opening
          opened).service.server.broadcast_pool
    × History (acts list_runtime-IsRuntime list_receiving never opening opened) (empty_room []) (
        room_of list_runtime-IsRuntime
          (run list_runtime-IsRuntime list_receiving never opening
            opened).service.server.broadcast_pool)
unfolding list_runtime-IsRuntime
run-fresh_example =
    run-fresh Bytes list_runtime-IsRuntime list_receiving-IsReceiving bytes_writer-IsWriter
      marking_hash-IsStdHash never (λ n. (0, [])) (0, λ t. none) 2 opening
