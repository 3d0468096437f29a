-- ===== src/Core/Protocol/Framing.antt =====
-- Frames: the length prefix, and what decodes to what.
use simple_chat_ddn.Common.{
  ℕ, ◌+◌, ◌/◌, ◌%◌, ◌^◌, ◌<◌, ◌≡◌, ◌∙◌, refl, ok, ◌++◌, length, drop, arith,
}
use simple_chat_ddn.Common.Text.{Bytes}
use simple_chat_ddn.Core.Bincode.{Codec, IsLawful}
use simple_chat_ddn.Core.Protocol.{
  from_be_bytes, prefix_of, frame, length_prefix, encode_message, decode_message,
}

pub from_be_bytes-to_be_bytes :
    (n : ℕ)
    → n < 2 ^ 32
    → from_be_bytes (n / 2 ^ 24 % 256) (n / 2 ^ 16 % 256) (n / 2 ^ 8 % 256) (n % 256) ≡ n
unfolding from_be_bytes
from_be_bytes-to_be_bytes n h = omega arith

pub prefix-frame : (p rest : Bytes) → length p < 2 ^ 32 → prefix_of (frame p ++ rest) ≡ length p
unfolding frame prefix_of
prefix-frame p rest h = from_be_bytes-to_be_bytes (length p % 2 ^ 32) (omega arith) ∙ omega arith

pub length-frame : (p : Bytes) → length (frame p) ≡ length_prefix + length p
unfolding frame
length-frame p = omega arith

drop-frame : (p : Bytes) → drop length_prefix (frame p) ≡ p
unfolding frame
drop-frame p = refl

module _ {T : Type 0} ⦃codec : Codec T⦄ where
  -- What a successful encoding is.
  pub encode_message_ok :
      (m : T) (f : Bytes)
      → encode_message m ≡ ok f
      → (p : Bytes) × (codec.encode_to_vec m ≡ ok p) × (f ≡ frame p)
  unfolding encode_message
  encode_message_ok m f e = ground arith

  pub decode_message_payload :
      IsLawful codec → (m : T) (p : Bytes) → codec.encode_to_vec m ≡ ok p → decode_message p ≡ ok m
  unfolding decode_message
  decode_message_payload l m p e = rw (l.decode-encode m p e)
