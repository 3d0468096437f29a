-- ===== src/Tests/CoreUnits.antt =====
-- Unit tests of chat-core/src/error.rs and message_cahce.rs. A library's error is its text.
use simple_chat_ddn.Common.{
  ℕ, ◌≡◌, refl, Result, ok, err, Option, none, some, [], ◌∷◌, replicate, Bool, true, false, ◌&&◌,
  not, ◌==◌, length,
}
use simple_chat_ddn.Common.Text.{Text, Bytes, ascii, text_eq}
use simple_chat_ddn.Common.Map.{lookup, insert}
use simple_chat_ddn.Core.Bincode.{Codec}
use simple_chat_ddn.Core.Error.{
  ApplicationError, display, client_read_stream_closed, incomplete_length_prefix,
  incomplete_pyaload, username_not_found, stream_io_error,
}
use simple_chat_ddn.Core.MessageCache.{new, get, put, hash_message}
use simple_chat_ddn.Client.Run.{contains}
use simple_chat_ddn.Tests.Checks.{is_ok, same, digits_hash}

-- `matches!` with the pattern first.
abbrev is_io_error : Text → ApplicationError → Bool
is_io_error text (stream_io_error e) = same text e
is_io_error text _ = false

abbrev is_closed : ApplicationError → Bool
is_closed client_read_stream_closed = true
is_closed _ = false

abbrev is_prefix : ApplicationError → Bool
is_prefix incomplete_length_prefix = true
is_prefix _ = false

abbrev is_payload : ApplicationError → Bool
is_payload incomplete_pyaload = true
is_payload _ = false

abbrev is_unknown : ApplicationError → Bool
is_unknown username_not_found = true
is_unknown _ = false

abbrev test_error_kind_discrimination : Bool
test_error_kind_discrimination =
    is_closed client_read_stream_closed
    && is_prefix incomplete_length_prefix
    && is_payload incomplete_pyaload
    && is_unknown username_not_found
    && not (is_prefix client_read_stream_closed)
    && not (is_unknown incomplete_length_prefix)
    && not (is_closed incomplete_pyaload)
    && not (is_payload username_not_found)

abbrev test_error_derivation_for_io_error : Bool
test_error_derivation_for_io_error =
    is_io_error (ascii "Connection lost") (stream_io_error (ascii "Connection lost"))
    && contains (ascii "Stream I/O error") (display (stream_io_error (ascii "Connection lost")))

abbrev test_error_display_formatting : Bool
test_error_display_formatting =
    contains (ascii "Stream I/O error") (display (stream_io_error (ascii "Access denied")))

abbrev test_complex_error_hierarchy : Bool
test_complex_error_hierarchy =
    is_io_error (ascii "Deep nested error") (stream_io_error (ascii "Deep nested error"))

abbrev test_error_edge_cases : Bool
test_error_edge_cases =
    contains (ascii "Stream I/O error") (display (stream_io_error []))
    && contains (ascii "Stream I/O error") (display (stream_io_error (replicate 1000 b'A')))

test_errors_pass :
    test_error_kind_discrimination && test_error_derivation_for_io_error
      && test_error_display_formatting && test_complex_error_hierarchy && test_error_edge_cases
    ≡ true
unfolding contains display text_eq
test_errors_pass = refl

-- A string's encoding: its length and its bytes.
instance abbrev string_codec : Codec Text
string_codec = record {
  encode_to_vec = λ s. ok (length s ∷ s);
  decode_from_slice = λ b. err (ascii "not read back");
}

abbrev test_message_cache_new : Bool
test_message_cache_new = (new 10).capacity == 10

abbrev same_frame : Option Bytes → Bytes → Bool
same_frame none b = false
same_frame (some a) b = same a b

abbrev stored : Text → Result Text ℕ → Bool
stored text (ok hash) = same_frame (get hash (put hash text (new 2))) text
stored text (err e) = false

abbrev test_message_cache_get_put : Bool
test_message_cache_get_put = stored (ascii "test message") (hash_message (ascii "test message"))

abbrev same_hash : Result Text ℕ → Result Text ℕ → Bool
same_hash (ok a) (ok b) = a == b
same_hash _ _ = false

abbrev test_hash_message : Bool
test_hash_message =
    is_ok (hash_message (ascii "test message"))
    && is_ok (hash_message (ascii "different message"))
    && not
        (same_hash (hash_message (ascii "test message")) (hash_message (ascii "different message")))

abbrev test_hash_message_same_content : Bool
test_hash_message_same_content =
    same_hash (hash_message (ascii "test message")) (hash_message (ascii "test message"))

test_cache_passes :
    test_message_cache_new && test_message_cache_get_put && test_hash_message
      && test_hash_message_same_content
    ≡ true
unfolding new get put hash_message lookup insert text_eq
test_cache_passes = refl
