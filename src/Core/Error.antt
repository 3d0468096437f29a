-- ===== src/Core/Error.antt =====
-- chat-core/src/error.rs. An error of bincode or of the operating system is the text that it prints.
use simple_chat_ddn.Common.{ℕ, ◌++◌}
use simple_chat_ddn.Common.Text.{Text, ascii}
use simple_chat_ddn.Common.Decimal.{decimal}

pub data ApplicationError : Type 0 where
  encoding : Text → ApplicationError
  decoding : Text → ApplicationError
  stream_io_error : Text → ApplicationError
  client_read_stream_closed : ApplicationError
  incomplete_length_prefix : ApplicationError
  incomplete_pyaload : ApplicationError
  username_not_found : ApplicationError
  message_too_large : (size max_size : ℕ) → ApplicationError
  invalid_username : Text → ApplicationError
  connection_error : Text → ApplicationError
  broadcast_error : Text → ApplicationError

-- The associated functions of the same names.
unfoldable pub make_message_too_large : ℕ → ℕ → ApplicationError
make_message_too_large size max_size = message_too_large size max_size

unfoldable pub make_invalid_username : Text → ApplicationError
make_invalid_username reason = invalid_username reason

unfoldable pub make_connection_error : Text → ApplicationError
make_connection_error reason = connection_error reason

unfoldable pub make_broadcast_error : Text → ApplicationError
make_broadcast_error reason = broadcast_error reason

-- The `#[error("…")]` attributes.
unfoldable pub display : ApplicationError → Text
unfolding decimal
display (encoding e) = ascii "Encoding error: " ++ e
display (decoding e) = ascii "Decoding error: " ++ e
display (stream_io_error e) = ascii "Stream I/O error: " ++ e
display client_read_stream_closed = ascii "Client stream closed"
display incomplete_length_prefix = ascii "Incomplete length prefix"
display incomplete_pyaload = ascii "Incomplete payload"
display username_not_found = ascii "username not found"
display (message_too_large size max_size) =
    ascii "Message too large: "
    ++ (decimal size
        ++ (ascii " bytes exceeds maximum of " ++ (decimal max_size ++ ascii " bytes")))
display (invalid_username e) = ascii "Invalid ussername: " ++ e
display (connection_error e) = ascii "Connection error: " ++ e
display (broadcast_error e) = ascii "Broadcast error: " ++ e
