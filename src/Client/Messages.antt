-- ===== src/Client/Messages.antt =====
-- chat-client/src/message_handler.rs. The line that is printed is the result, in UTF-8; an `anyhow`
-- error is its text.
pub mod Frames
use simple_chat_ddn.Common.{
  ℕ, ◌+◌, Result, ok, err, map_err, ◌>>=◌, List, [], ◌∷◌, ◌++◌, length, take, drop, ltb,
  if◌then◌else◌,
}
use simple_chat_ddn.Common.Text.{Text, Bytes, ascii}
use simple_chat_ddn.Core.Error.{ApplicationError, display}
use simple_chat_ddn.Core.Bincode.{Codec}
use simple_chat_ddn.Core.Message.Server.{
  ServerMessage, success, error, user_name_already_taken, message, user_joined, user_left,
}
use simple_chat_ddn.Core.Protocol.{length_prefix, prefix_of, decode_message}

-- The bytes of the signs that begin a line.
abbrev bubble : Bytes
bubble = 0xf0 ∷ 0x9f ∷ 0x97 ∷ 0xa8 ∷ 0xef ∷ 0xb8 ∷ 0x8f ∷ []

abbrev cross : Bytes
cross = 0xe2 ∷ 0x9d ∷ 0x8c ∷ []

abbrev flowers : Bytes
flowers = 0xf0 ∷ 0x9f ∷ 0x92 ∷ 0x90 ∷ []

abbrev loudspeaker : Bytes
loudspeaker = 0xf0 ∷ 0x9f ∷ 0x93 ∷ 0xa2 ∷ []

-- The `println!` of each arm.
unfoldable pub render : ServerMessage → Text
render (message username content) = bubble ++ (ascii ": " ++ (username ++ (ascii ": " ++ content)))
render (error reason) = cross ++ (ascii ": " ++ reason)
render (user_name_already_taken username) =
    cross ++ (ascii ": username `" ++ (username ++ ascii "` not available"))
render (success m) = flowers ++ (ascii ": " ++ m)
render (user_joined username) =
    loudspeaker ++ (ascii ": `" ++ (username ++ ascii "` joined the chat"))
render (user_left username) = loudspeaker ++ (ascii ": `" ++ (username ++ ascii "` left the chat"))

decode_failed : ApplicationError → Text
decode_failed e = ascii "Failed to decode server message: " ++ display e

module _ ⦃c : Codec ServerMessage⦄ where
  rendered : Result ApplicationError ServerMessage → Result Text Text
  rendered r = map_err decode_failed r >>= λ m. ok (render m)

  unfoldable pub handle_server_message : Bytes → Result Text Text
  unfolding rendered decode_failed
  handle_server_message input =
      if ltb (length input) length_prefix
      then err (ascii "Message too short")
      else let n = prefix_of input in
        if ltb (length input) (length_prefix + n)
        then err (ascii "Incomplete message")
        else rendered (decode_message (take n (drop length_prefix input)))
