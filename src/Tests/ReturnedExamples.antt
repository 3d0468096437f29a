-- ===== src/Tests/ReturnedExamples.antt =====
-- The theorem on a dispatcher whose write fails at a concrete input.
use simple_chat_ddn.Common.{◌≡◌, ◌≢◌, refl, ok, err, [], ◌∷◌, Bool, true, false}
use simple_chat_ddn.Common.Text.{Text, Bytes, ascii, text_eq}
use simple_chat_ddn.Common.Map.{lookup, insert}
use simple_chat_ddn.Core.Error.{ApplicationError, stream_io_error}
use simple_chat_ddn.Core.Message.Client.{join}
use simple_chat_ddn.Core.Protocol.{frame}
use simple_chat_ddn.Core.Stream.{Writer}
use simple_chat_ddn.Core.Transport.{write_frame}
use simple_chat_ddn.Server.Pool.{has, create_dispatcher}
use simple_chat_ddn.Server.Pool
use simple_chat_ddn.Server.Pool.Ownership.{job}
use simple_chat_ddn.Server.Session.{registering, chatting, join_with}
use simple_chat_ddn.Server.Service.{listening}
use simple_chat_ddn.Server.Forwarder.{writing}
use simple_chat_ddn.Server.Live.{Live, Task, polled, run}
use simple_chat_ddn.Server.Live.Returned.{HasReturned, failed-HasReturned}
use simple_chat_ddn.Tests.Actors.{alice, cache, no_clients, with_alice, hi, marking_hash}
use simple_chat_ddn.Tests.Fixture.{
  client_codec, server_codec, bytes_reader, encode_server, list_runtime, list_runtime-IsRuntime,
  list_receiving,
}

-- A socket whose other end is gone.
abbrev broken : Writer Bytes
broken = record {
  write_all = λ b s. (err (ascii "Broken pipe"), s);
  flush = λ s. (ok tt, s);
  shutdown = λ s. (ok tt, s);
}

abbrev broken_pipe : ApplicationError
broken_pipe = stream_io_error (ascii "Broken pipe")

abbrev never : Text → Bool
never u = false

-- alice's task is about to write a frame.
abbrev about_to_write : Task list_runtime
about_to_write = record {
  id = 0;
  given = job {rt = list_runtime} alice [] cache no_clients;
  forwarder = record {
    rec = 1;
    channel_owner = alice;
    writer = [];
    wait = writing (frame (encode_server hi.shared));
  };
  cancelled = false;
}

abbrev before : Live Bytes list_runtime
before = record {
  service = record {
    server = record { max_connections = 2; broadcast_pool = with_alice; cache = cache };
    stage = listening;
    permits = 1;
    handlers = chatting [] [] alice ∷ [];
  };
  tasks = about_to_write ∷ [];
}

abbrev after : Live Bytes list_runtime
after =
    run list_runtime-IsRuntime list_receiving ⦃w = broken⦄ never (polled 0 ∷ polled 0 ∷ []) before

alice_held : has alice with_alice ≡ true
unfolding has lookup text_eq create_dispatcher insert Pool.new
alice_held = refl

write_fails :
    (write_frame {W = Bytes} ⦃w = broken⦄ (ok (frame (encode_server hi.shared))) []).0
    ≡ err broken_pipe
unfolding write_frame
write_fails = refl

failed-HasReturned_example :
    HasReturned 0 broken_pipe after.tasks
    × (join_with {R = Bytes} ⦃w = broken⦄
          (ok (join alice))
          []
          []
          []
          after.service.server.broadcast_pool
        ≢ registering [] [] [] alice)
failed-HasReturned_example =
    failed-HasReturned list_runtime-IsRuntime list_receiving ⦃w = broken⦄ broken_pipe never before 0
      about_to_write (frame (encode_server hi.shared)) (polled 0 ∷ []) alice [] [] [] [] [] [] refl
      refl refl write_fails (tt, tt) alice_held
