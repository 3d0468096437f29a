-- ===== src/Tests/RoomExamples.antt =====
-- The theorems on a whole server and one of its clients at concrete inputs.
use simple_chat_ddn.Common.{
  ◌≡◌, refl, sym, ap, ◌∙◌, ok, List, [], ◌∷◌, ◌++◌, map, Bool, false, arith,
}
use simple_chat_ddn.Common.Text.{Text, Bytes, ascii, text_eq}
use simple_chat_ddn.Common.Map.{lookup, insert}
use simple_chat_ddn.Core.Message.Server.{SharedServerMessage, user_joined}
use simple_chat_ddn.Core.Message.Server
use simple_chat_ddn.Core.MessageCache.{hash_message, get}
use simple_chat_ddn.Core.MessageCache
use simple_chat_ddn.Core.MessageCache.Laws.{new-IsValid}
use simple_chat_ddn.Core.Protocol.{
  encode_message, encode_message_with_cache, decode_message, frame, prefix_of,
}
use simple_chat_ddn.Core.Protocol.Cached.{new-IsCoherent}
use simple_chat_ddn.Core.Transport.{
  read_message_from_stream, write_message_to_stream, write_message_to_stream_with_cache,
}
use simple_chat_ddn.Server.Dispatcher.{
  Event, received, waiting, is_own, shared_codec, run_dispatcher, welcome,
}
use simple_chat_ddn.Server.Pool.{create_dispatcher, broadcast_message}
use simple_chat_ddn.Server.Pool
use simple_chat_ddn.Server.Pool.Ownership.{job}
use simple_chat_ddn.Server.Pool.Registry.{call, calls}
use simple_chat_ddn.Server.Pool.Channel.{carried, backlog, backlog-carried}
use simple_chat_ddn.Server.Session.{
  registering, chatting, register, session_step, chat_with, announce,
}
use simple_chat_ddn.Server.Service.{Service, listening, turn, shutdown_signal, step, run}
use simple_chat_ddn.Server.ChatRoom.{joins, says, closes}
use simple_chat_ddn.Server.Service
use simple_chat_ddn.Server.Service.Rooms.{acts, event_acts}
use simple_chat_ddn.Server.Service.Trace.{trace, run-trace, chat_calls, session_calls}
use simple_chat_ddn.Client.Messages.{render}
use simple_chat_ddn.Client.Run.{Piece}
use simple_chat_ddn.Client.Run
use simple_chat_ddn.Client.Run.Frames.{piece}
use simple_chat_ddn.Server.Dispatcher.Delivery.{others}
use simple_chat_ddn.System.Delivery.{read_by, flatten}
use simple_chat_ddn.System.Room.{pool_joined, later, heard, pool-later, trace-run}
use simple_chat_ddn.Tests.Actors.{
  alice, bob, cache, no_clients, hi, client, marking_hash, marking_hash-IsStdHash, hi-IsAlone,
}
use simple_chat_ddn.Tests.Fixture.{
  client_codec, server_codec, server_codec-IsLawful, bytes_reader, bytes_writer,
  bytes_writer-IsWriter, list_runtime, list_runtime-IsRuntime, ok_eq,
}

abbrev pub never : Text → Bool
never u = false

-- alice is about to register, and bob's handler has "hi" on its stream.
abbrev pub room : Service Bytes list_runtime
room = record {
  server = record { max_connections = 2; broadcast_pool = no_clients; cache = cache };
  stage = listening;
  permits = 0;
  handlers =
      registering [] [] [] alice
      ∷ chatting (0 ∷ 0 ∷ 0 ∷ 7 ∷ 2 ∷ 3 ∷ bob ++ ascii "hi") (0 ∷ 0 ∷ 0 ∷ 0 ∷ []) bob
      ∷ [];
}

run-trace_example :
    (run never (turn 0 ∷ turn 0 ∷ turn 1 ∷ []) room).server.broadcast_pool
    ≡ calls (trace never (turn 0 ∷ turn 0 ∷ turn 1 ∷ []) room) no_clients
run-trace_example = run-trace never (turn 0 ∷ turn 0 ∷ turn 1 ∷ []) room (tt, (tt, (tt, tt)))

-- What alice's dispatcher receives: that she has joined, and bob's message.
abbrev events : List Event
events = received (record { shared = user_joined alice }) ∷ received hi ∷ []

abbrev for_alice : List SharedServerMessage
for_alice = heard never room 0 (turn 0 ∷ turn 1 ∷ []) [] alice

carries_both :
    carried
      (later never room 0 (turn 0 ∷ turn 1 ∷ []) [] alice)
      (pool_joined never room 0 (turn 0 ∷ turn 1 ∷ []) [] alice)
    ≡ record { shared = user_joined alice } ∷ hi ∷ []
unfolding carried create_dispatcher Server.new trace Server.new_user_joined step session_step
    register announce chat_with broadcast_message session_calls chat_calls read_message_from_stream
    prefix_of decode_message call Server.new_message Pool.new
carries_both = refl

own_and_other : others alice (record { shared = user_joined alice } ∷ hi ∷ []) ≡ hi ∷ []
unfolding others is_own text_eq Server.username
own_and_other = refl

hears_hi : for_alice ≡ hi ∷ []
hears_hi = ap (others alice) carries_both ∙ own_and_other

reads_all :
    read_by events
    ≡ backlog list_runtime-IsRuntime
        (job {rt = list_runtime} alice [] cache no_clients).rec
        (run never (turn 0 ∷ turn 0 ∷ turn 1 ∷ []) room).server.broadcast_pool.broadcaster
unfolding read_by
reads_all =
    sym carries_both
    ∙ sym (
        backlog-carried list_runtime-IsRuntime alice [] cache no_clients
          (later never room 0 (turn 0 ∷ turn 1 ∷ []) [] alice))
    ∙ ap
        (λ p.
          backlog list_runtime-IsRuntime (job {rt = list_runtime} alice [] cache no_clients).rec
            p.broadcaster)
        (sym (pool-later never room 0 (turn 0 ∷ turn 1 ∷ []) [] alice [] [] refl (tt, (tt, tt))))

welcomes : (write_message_to_stream {W = Bytes} [] (welcome alice)).0 ≡ ok tt
unfolding write_message_to_stream encode_message
welcomes = refl

goes_on : (run_dispatcher (job {rt = list_runtime} alice [] cache no_clients) events).0 ≡ waiting
unfolding run_dispatcher write_message_to_stream write_message_to_stream_with_cache encode_message
    is_own text_eq Server.username encode_message_with_cache hash_message shared_codec get lookup
    MessageCache.new
goes_on = refl

trace-run_example :
    (p : Bytes) × (fs : List Piece) × (server_codec.encode_to_vec (welcome alice) ≡ ok p)
    × ((run_dispatcher (job {rt = list_runtime} alice [] cache no_clients) events).1
        ≡ [] ++ (frame p ++ flatten fs))
    × (Run.run (λ l. l) (map piece fs) client
        ≡ (map (λ m. render m.shared) for_alice, false, client))
unfolding welcome
trace-run_example =
    trace-run bytes_writer-IsWriter marking_hash-IsStdHash list_runtime-IsRuntime
      server_codec-IsLawful (λ l. l) never room 0 (turn 0 ∷ turn 1 ∷ []) [] [] [] alice events
      client refl (tt, (tt, tt)) (new-IsValid 2, new-IsCoherent 2) tt tt reads_all
      (rw hears_hi (hi-IsAlone, tt)) (rw hears_hi (λ p e. rw (← ok_eq e) (omega arith), tt))
      welcomes goes_on

abbrev joined_alice : SharedServerMessage
joined_alice = record { shared = user_joined alice }

-- alice joins, bob says "hi", and the server shuts down.
abbrev to_the_end : List (Service.Event Bytes Bytes)
to_the_end = turn 0 ∷ turn 0 ∷ turn 1 ∷ shutdown_signal ∷ []

told_in_order : acts never to_the_end room ≡ joins alice ∷ says joined_alice ∷ says hi ∷ closes ∷ []
unfolding acts trace event_acts step session_step register broadcast_message session_calls
    chat_calls read_message_from_stream prefix_of decode_message call Server.new
    Server.new_user_joined Server.new_message Pool.new create_dispatcher announce chat_with
    Pool.shutdown insert
told_in_order = refl
