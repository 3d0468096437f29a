-- ===== src/Tests/SettlingExamples.antt =====
-- The theorem on what reaches every screen at a concrete input.
use simple_chat_ddn.Common.{
  ℕ, ◌≤◌, ◌≡◌, refl, some, List, [], ◌∷◌, get_elem?, arith, ◌*◌, ◌-◌, length, replicate,
}
use simple_chat_ddn.Common.Text.{Bytes, text_eq}
use simple_chat_ddn.Common.Map.{lookup}
use simple_chat_ddn.Core.Message.Server.{SharedServerMessage, user_joined}
use simple_chat_ddn.Core.Message.Server
use simple_chat_ddn.Core.MessageCache.{hash_message, get, put}
use simple_chat_ddn.Core.MessageCache
use simple_chat_ddn.Core.Protocol.{frame, encode_message, decode_message, prefix_of}
use simple_chat_ddn.Core.Transport.{read_message_from_stream, write_message_to_stream}
use simple_chat_ddn.Server.Dispatcher.{is_own, shared_codec, welcome}
use simple_chat_ddn.Server.Dispatcher.Delivery.{others}
use simple_chat_ddn.Server.Pool.{create_dispatcher, broadcast_message}
use simple_chat_ddn.Server.Pool
use simple_chat_ddn.Server.Pool.Registry.{call}
use simple_chat_ddn.Server.Forwarder.{receiving, begin, poll}
use simple_chat_ddn.Server.Service.Channel.{channel_of}
use simple_chat_ddn.Server.Service
use simple_chat_ddn.Server.Service.{turn}
use simple_chat_ddn.Server.Service.Trace.{event_calls, session_calls, chat_calls, nth_calls}
use simple_chat_ddn.Server.Session.{register, session_step, chat_with, announce}
use simple_chat_ddn.Server.Live.{Live, Task, served, polled, step, run, spawned_by, poll_nth}
use simple_chat_ddn.Server.Live.Faithful.{IsGood, run-IsGood}
use simple_chat_ddn.System.Settling.{ShowsAll, run-ShowsAll}
use simple_chat_ddn.Tests.Actors.{
  alice, hi, client, marking_hash, marking_hash-IsStdHash, hi-IsAlone,
}
use simple_chat_ddn.Tests.Fixture.{
  client_codec, server_codec, server_codec-IsLawful, bytes_reader, bytes_writer,
  bytes_writer-IsWriter, encode_server, list_runtime, list_runtime-IsRuntime, list_receiving,
  list_receiving-IsReceiving, list_receiving-IsReady, bytes_writer-IsReliable, ok_eq,
}
use simple_chat_ddn.Tests.RoomExamples.{never}
use simple_chat_ddn.Tests.LiveExamples.{quiet, quiet-IsGood, alice_task}

-- The day up to the message, which is still on the channel.
abbrev morning : Live Bytes list_runtime
morning =
    run list_runtime-IsRuntime list_receiving never
      (served (turn 0) ∷ polled 0 ∷ served (turn 0) ∷ served (turn 1) ∷ []) quiet

morning-IsGood :
    IsGood list_runtime-IsRuntime
      (λ (b : Bytes). b)
      list_receiving-IsReceiving
      bytes_writer-IsWriter
      marking_hash-IsStdHash
      never
      morning
morning-IsGood =
    run-IsGood list_runtime-IsRuntime (λ (b : Bytes). b) list_receiving-IsReceiving
      bytes_writer-IsWriter marking_hash-IsStdHash never _ quiet quiet-IsGood

abbrev early_task : Task list_runtime
early_task = record alice_task {
  forwarder = record {
    rec = 0;
    channel_owner = alice;
    writer = frame (encode_server (welcome alice));
    wait = receiving;
  };
}

abbrev morning_log : List SharedServerMessage
morning_log = list_runtime-IsRuntime.sent (channel_of morning.service)

early_waits : get_elem? morning.tasks 0 ≡ some early_task
unfolding run step spawned_by poll_nth event_calls session_calls chat_calls announce nth_calls
    Service.step session_step register broadcast_message create_dispatcher read_message_from_stream
    prefix_of decode_message call begin poll write_message_to_stream encode_message is_own text_eq
    Server.username hash_message shared_codec get put lookup MessageCache.new welcome Server.new
    Server.new_user_joined Server.new_message Pool.new list_runtime-IsRuntime chat_with frame
early_waits = refl

carried_so_far : morning_log ≡ record { shared = user_joined alice } ∷ hi ∷ []
unfolding run step spawned_by poll_nth event_calls session_calls chat_calls announce nth_calls
    Service.step session_step register broadcast_message create_dispatcher read_message_from_stream
    prefix_of decode_message call begin poll write_message_to_stream encode_message is_own text_eq
    Server.username hash_message shared_codec get put lookup MessageCache.new welcome Server.new
    Server.new_user_joined Server.new_message Pool.new list_runtime-IsRuntime chat_with frame
carried_so_far = refl

still_hears : others alice morning_log ≡ hi ∷ []
unfolding others is_own text_eq Server.username
still_hears = rw carried_so_far refl

run-ShowsAll_example :
    (k : ℕ) × (t' : Task list_runtime) × (k
      ≤ 4 * (length morning_log - list_runtime-IsRuntime.start early_task.forwarder.rec))
    × (get_elem?
          (run list_runtime-IsRuntime list_receiving never (replicate k (polled 0)) morning).tasks
          0
        ≡ some t')
    × (t'.given ≡ early_task.given)
    × ShowsAll list_runtime-IsRuntime (λ (b : Bytes). b) (λ l. l) morning_log t' client
unfolding welcome list_runtime-IsRuntime
run-ShowsAll_example =
    run-ShowsAll bytes_writer-IsWriter marking_hash-IsStdHash list_runtime-IsRuntime
      list_receiving-IsReceiving list_receiving-IsReady bytes_writer-IsReliable
      server_codec-IsLawful (λ l. l) never morning 0 early_task client morning-IsGood early_waits
      refl refl
      (rw carried_so_far
        ((encode_server (user_joined alice), refl), ((encode_server hi.shared, refl), tt)))
      (rw still_hears (hi-IsAlone, tt)) (rw still_hears (λ p e. rw (← ok_eq e) (omega arith), tt))
      (rw carried_so_far (omega arith))
