-- ===== src/Tests/CoreExamples.antt =====
-- The theorems on chat-core at concrete inputs.
use simple_chat_ddn.Common.{◌<◌, ◌≤◌, ◌≡◌, ◌⊎◌, refl, ap, ok, err, [], ◌∷◌, ◌++◌, length, arith}
use simple_chat_ddn.Common.Text.{Text, Bytes, ascii}
use simple_chat_ddn.Core.Error.{incomplete_length_prefix, message_too_large, username_not_found}
use simple_chat_ddn.Core.Message.Client.{ClientMessage, join, leave}
use simple_chat_ddn.Core.MessageCache.{new, put}
use simple_chat_ddn.Core.MessageCache.Laws.{IsValid, new-IsValid, put-IsValid}
use simple_chat_ddn.Core.Protocol.{
  frame, max_message_size, max_username_length, encode_message, encode_message_with_cache,
}
use simple_chat_ddn.Core.Protocol.Cached.{new-IsCoherent, Agrees, encode_message_with_cache-Agrees}
use simple_chat_ddn.Core.Transport.{fill, read_message_from_stream, write_message_to_stream}
use simple_chat_ddn.Core.Transport.Reading.{
  Grown, read_message_from_stream-Grown, read_message_split_prefix,
}
use simple_chat_ddn.Core.Transport.Sequences.{Reads, Fits, done, write, Writes-Reads}
use simple_chat_ddn.Core.Utils.{validate_username}
use simple_chat_ddn.Core.Utils.Laws.{validate_username_cases}
use simple_chat_ddn.Tests.Fixture.{
  client_codec, client_codec-IsLawful, bytes_reader, bytes_reader-IsReader, bytes_reader-IsPrompt,
  bytes_writer, bytes_writer-IsWriter, length_hash, length_hash-IsStdHash, encode_client, ok_eq,
}

abbrev buffer : Bytes
buffer = 7 ∷ 7 ∷ 7 ∷ 7 ∷ []

abbrev hello : ClientMessage
hello = join (ascii "ab")

abbrev bye : ClientMessage
bye = leave (ascii "ab")

-- A message goes out, and comes in.
abbrev hello_bytes : Bytes
hello_bytes = 0 ∷ 0 ∷ 0 ∷ 3 ∷ 0 ∷ ascii "ab"

abbrev bye_bytes : Bytes
bye_bytes = 0 ∷ 0 ∷ 0 ∷ 3 ∷ 1 ∷ ascii "ab"

hello_goes : write_message_to_stream {W = Bytes} [] hello ≡ (ok tt, hello_bytes)
unfolding write_message_to_stream frame encode_message
hello_goes = refl

bye_goes : write_message_to_stream {W = Bytes} hello_bytes bye ≡ (ok tt, hello_bytes ++ bye_bytes)
unfolding write_message_to_stream frame encode_message
bye_goes = refl

short-Fits : (m : ClientMessage) → length (encode_client m) ≤ max_message_size → Fits m
short-Fits m h = λ p e. omega (arith, h, ap length (ok_eq e))

Writes-Reads_example :
    (x' : Bytes) × Reads {T = ClientMessage} {R = Bytes}
      (hello_bytes ++ bye_bytes)
      buffer
      (hello ∷ bye ∷ [])
      x'
    × (x' ≡ [])
Writes-Reads_example =
    Writes-Reads client_codec-IsLawful bytes_writer-IsWriter bytes_reader-IsReader
      bytes_reader-IsPrompt (hello_bytes ++ bye_bytes) buffer
      (write hello_goes (write bye_goes done))
      (short-Fits hello (omega arith), (short-Fits bye (omega arith), tt)) refl refl

-- A prefix of which two bytes are there.
abbrev half_prefix : Bytes
half_prefix = 0 ∷ 0 ∷ []

read_message_from_stream-Grown_example :
    Grown buffer
      (read_message_from_stream {T = ClientMessage} {R = Bytes} (hello_bytes ++ bye_bytes) buffer).2
read_message_from_stream-Grown_example =
    read_message_from_stream-Grown ClientMessage bytes_reader-IsReader (hello_bytes ++ bye_bytes)
      buffer (omega arith)

read_message_split_prefix_example :
    (read_message_from_stream {T = ClientMessage} {R = Bytes} half_prefix buffer
      ≡ (err incomplete_length_prefix, [], fill half_prefix buffer))
    × (half_prefix ≡ half_prefix ++ [])
read_message_split_prefix_example =
    read_message_split_prefix bytes_reader-IsReader half_prefix [] buffer half_prefix refl
      (omega arith) (omega arith)

encode_message_with_cache-Agrees_example :
    Agrees hello (encode_client hello) (encode_message_with_cache hello (new 1)).0
encode_message_with_cache-Agrees_example =
    encode_message_with_cache-Agrees hello (encode_client hello) (new 1) refl (new-IsCoherent 1)

put-IsValid_example : IsValid (put 3 hello_bytes (new 1))
put-IsValid_example = put-IsValid length_hash-IsStdHash 3 hello_bytes (new 1) (new-IsValid 1)

one_held : IsValid (put 3 hello_bytes (new 1))
one_held = put-IsValid length_hash-IsStdHash 3 hello_bytes (new 1) (new-IsValid 1)

abbrev long_name : Text
long_name = ascii "a_name_of_25_bytes_is_it."

validate_username_cases_example :
    ((0 < length long_name) × (length long_name ≤ 20) × (validate_username long_name ≡ ok tt))
    ⊎ (((length long_name ≡ 0) ⊎ (max_username_length < length long_name))
        × (validate_username long_name ≡ err username_not_found))
    ⊎ ((20 < length long_name)
        × (length long_name ≤ max_username_length)
        × (validate_username long_name
            ≡ err (message_too_large (length long_name) max_message_size)))
validate_username_cases_example = validate_username_cases long_name
