-- ===== src/Client/Run.antt =====
-- `run` of chat-client/src/client.rs. What comes is a list of the branches that `select!` takes;
-- `trim` is the standard library's.
pub mod Leaving
pub mod Frames
use simple_chat_ddn.Common.{
  ℕ, Result, ok, err, Option, none, some, List, [], ◌∷◌, ◌++◌, Bool, true, false, ◌&&◌, ◌||◌, ◌==◌,
  ◌≤◌, length, if◌then◌else◌,
}
use simple_chat_ddn.Common.Text.{Text, Bytes}
use simple_chat_ddn.Core.Error.{display}
use simple_chat_ddn.Core.Bincode.{Codec}
use simple_chat_ddn.Core.Stream.{Reader, Writer}
use simple_chat_ddn.Core.Message.Client.{ClientMessage}
use simple_chat_ddn.Core.Message.Server.{ServerMessage}
use simple_chat_ddn.Core.Utils.{validate_username}
use simple_chat_ddn.Client.Messages.{handle_server_message}
use simple_chat_ddn.Client.Commands.{ChatClient, handle_user_input, graceful_leave, requested_leave}

-- `vec![0u8; 4096]`
abbrev pub read_size : ℕ
read_size = 4096

-- What one `read` from the server gives: no more than the buffer holds, none at the end.
pub record Piece : Type 0 where
  pub bytes : Bytes
  pub fits : length bytes ≤ read_size

-- Ctrl+C; the result of a read from the server; a line from the terminal, none at
-- its end.
pub data Event : Type 0 where
  ctrl_c : Event
  from_server : Result Text Piece → Event
  from_stdin : Result Text Text → Event

-- The loop goes on, or has ended with this value of `should_shutdown`.
pub data Status : Type 0 where
  running : Status
  stopped : (should_shutdown : Bool) → Status

starts_with : Text → Text → Bool
starts_with [] s = true
starts_with (c ∷ p) [] = false
starts_with (c ∷ p) (d ∷ s) = c == d && starts_with p s

-- `str::contains`, the pattern first.
unfoldable pub contains : Text → Text → Bool
unfolding starts_with
contains p [] = starts_with p []
contains p (c ∷ s) = starts_with p (c ∷ s) || contains p s

-- An error of the handler is only logged.
shown : Result Text Text → List Text
shown (ok line) = line ∷ []
shown (err e) = []

module _ {R W : Type 0} ⦃w : Writer W⦄ ⦃cc : Codec ClientMessage⦄ ⦃cs : Codec ServerMessage⦄ where
  -- An error that says that the client asked to leave ends the loop, any other is logged.
  input_handled : Result Text (Unit {0}) × ChatClient R W → Status × ChatClient R W
  unfolding contains
  input_handled (ok _, client) = (running, client)
  input_handled (err e, client) =
      (if contains requested_leave e then stopped true else running, client)

  -- `&buffer[..n]`, and the end of the stream where `n` is 0.
  on_read : Bytes → ChatClient R W → List Text × Status × ChatClient R W
  unfolding shown
  on_read [] client = ([], stopped false, client)
  on_read (b ∷ bs) client = (shown (handle_server_message (b ∷ bs)), running, client)

  -- One turn of the loop, with the line that it prints for a server message. The tests of
  -- `should_shutdown` inside the branches are left out: the loop ends where it is set.
  unfoldable pub turn : (Text → Text) → Event → ChatClient R W → List Text × Status × ChatClient R W
  unfolding input_handled on_read
  turn trim ctrl_c client = ([], stopped true, client)
  turn trim (from_server (err e)) client = ([], stopped false, client)
  turn trim (from_server (ok piece)) client = on_read piece.bytes client
  turn trim (from_stdin (err e)) client = ([], stopped false, client)
  turn trim (from_stdin (ok [])) client = ([], stopped false, client)
  turn trim (from_stdin (ok (c ∷ line))) client =
      let (status, client') = input_handled (handle_user_input (trim (c ∷ line)) client) in
      ([], status, client')

  -- What follows the loop; a failure is logged, and the result is `Ok(())`.
  finish : Bool → ChatClient R W → ChatClient R W
  finish true client = let (_, client') = graceful_leave client in client'
  finish false client = client

  after_turn :
      (ChatClient R W → List Text × Bool × ChatClient R W)
      → List Text × Status × ChatClient R W
      → List Text × Bool × ChatClient R W
  after_turn next (lines, running, client) =
      let (more, over, client') = next client in (lines ++ more, over, client')
  after_turn next (lines, stopped should_shutdown, client) =
      (lines, true, finish should_shutdown client)

  -- The printed lines, whether the run has returned, and the client.
  unfoldable pub run :
      (Text → Text) → List Event → ChatClient R W → List Text × Bool × ChatClient R W
  unfolding turn finish after_turn
  run trim [] client = ([], false, client)
  run trim (e ∷ es) client = after_turn (λ (c : ChatClient R W). run trim es c) (turn trim e client)
