-- ===== src/Core/Bincode.antt =====
-- The crate bincode, which is not part of the repository: a type's `Encode` and `Decode` are an
-- interface, and what the code relies on is its law.
use simple_chat_ddn.Common.{ℕ, ◌≡◌, Result, ok, length}
use simple_chat_ddn.Common.Text.{Text, Bytes}

-- `encode_to_vec` and `decode_from_slice` at the standard configuration. An error is its text.
pub record Codec (T : Type 0) : Type 0 where
  pub encode_to_vec : T → Result Text Bytes
  pub decode_from_slice : Bytes → Result Text (T × ℕ)

-- What was encoded decodes to itself, and the whole slice is read.
pub record IsLawful {T : Type 0} (c : Codec T) : Type 0 where
  pub decode-encode :
      (m : T) (b : Bytes) → c.encode_to_vec m ≡ ok b → c.decode_from_slice b ≡ ok (m, length b)
