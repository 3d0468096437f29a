-- ===== src/Core/Transport/Reading.antt =====
-- What `read_message_from_stream` makes of the bytes that arrive.
use simple_chat_ddn.Common.{
  ℕ, ◌-◌, ◌%◌, ◌^◌, ◌≤◌, ◌<◌, max, ◌≡◌, refl, sym, ap, ◌∙◌, Result, ok, err, [], ◌∷◌, ◌++◌, length,
  drop, replicate, arith, append-cut, take-append, length-append, length-drop, length-replicate,
}
use simple_chat_ddn.Common.Text.{Text, Bytes}
use simple_chat_ddn.Core.Error.{
  client_read_stream_closed, incomplete_length_prefix, make_message_too_large,
}
use simple_chat_ddn.Core.Bincode.{Codec, IsLawful}
use simple_chat_ddn.Core.Stream.{Reader, IsReader, IsPrompt}
use simple_chat_ddn.Core.Protocol.{
  to_be_bytes, from_be_bytes, prefix_of, frame, length_prefix, max_message_size,
}
use simple_chat_ddn.Core.Protocol.Framing.{from_be_bytes-to_be_bytes, decode_message_payload}
use simple_chat_ddn.Core.Transport.{
  fill, grow, on_payload, read_payload, on_prefix, read_message_from_stream,
}

length-fill : (b buffer : Bytes) → length b ≤ length buffer → length (fill b buffer) ≡ length buffer
length-fill b buffer h =
    omega (arith, length-append b (drop (length b) buffer), length-drop (length b) buffer)

length-grow : (n : ℕ) (buffer : Bytes) → length (grow n buffer) ≡ max n (length buffer)
length-grow n buffer = ground (
  arith,
  length-append buffer (replicate (n - length buffer) 0),
  length-replicate {A = ℕ} (n - length buffer) 0,
)

-- A buffer after a call that began with `old`.
abbrev pub Grown : Bytes → Bytes → Type 0
Grown old new = (length old ≤ length new) × (length new ≤ max (length old) max_message_size)

module _ (T : Type 0) {R : Type 0} ⦃codec : Codec T⦄ ⦃r : Reader R⦄ where
  on_payload-length :
      (n : ℕ) (buffer : Bytes) (x : Result Text Bytes × R)
      → n ≤ length buffer
      → ((b : Bytes) → x.0 ≡ ok b → length b ≡ n)
      → length (on_payload {T = T} n buffer x).2 ≡ length buffer
  unfolding on_payload
  on_payload-length n buffer (err e, s) h exact = refl
  on_payload-length n buffer (ok b, s) h exact = length-fill b buffer (omega (arith, exact b refl))

  module _ {pending : R → Bytes} (l : IsReader r pending) where
    read_payload-Grown :
        (n : ℕ) (s : R) (buffer : Bytes) → Grown buffer (read_payload {T = T} n s buffer).2
    unfolding read_payload
    read_payload-Grown n s buffer = ground (
      arith,
      length-grow n buffer,
      on_payload-length n (grow n buffer) (r.read_exact n s) (omega (arith, length-grow n buffer))
          (λ b e.
            (l.read_exact_ok n s (r.read_exact n s).1 b (ap (λ x. (x, (r.read_exact n s).1)) e)).0),
    )

    on_prefix-Grown :
        (buffer : Bytes) (x : Result Text Bytes × R)
        → length_prefix ≤ length buffer
        → ((b : Bytes) → x.0 ≡ ok b → length b ≤ length_prefix)
        → Grown buffer (on_prefix {T = T} buffer x).2
    unfolding on_prefix
    on_prefix-Grown buffer (err e, s) h few = omega arith
    on_prefix-Grown buffer (ok b, s) h few = ground (
      arith,
      length-fill b buffer (omega (arith, few b refl)),
      read_payload-Grown (prefix_of (fill b buffer)) s (fill b buffer),
    )

    -- Whatever arrives, a read buffer that has room for the length prefix never shrinks, and a call
    -- leaves it no longer than one mebibyte or than it was.
    pub read_message_from_stream-Grown :
        (s : R) (buffer : Bytes)
        → length_prefix ≤ length buffer
        → Grown buffer (read_message_from_stream {T = T} s buffer).2
    unfolding read_message_from_stream
    read_message_from_stream-Grown s buffer h =
        on_prefix-Grown buffer (r.read length_prefix s) h (λ b e.
          (l.read_ok length_prefix s (r.read length_prefix s).1 b
            (ap (λ x. (x, (r.read length_prefix s).1)) e)).0)

module _ {R : Type 0} ⦃r : Reader R⦄ {pending : R → Bytes} (l : IsReader r pending) where
  prefix_arrives :
      IsPrompt r pending
      → (p rest : Bytes) (s : R) → pending s ≡ frame p ++ rest
      → (s' : R) × (r.read length_prefix s ≡ (ok (to_be_bytes (length p % 2 ^ 32)), s'))
        × (pending s' ≡ p ++ rest)
  unfolding frame to_be_bytes
  prefix_arrives prompt p rest s at =
      let (b, s', e, four) = prompt.read_enough length_prefix s (omega (arith, ap length at)) in
      let (same, left) =
        append-cut b (to_be_bytes (length p % 2 ^ 32)) (pending s') (p ++ rest) four
          (sym (l.read_ok length_prefix s s' b e).1 ∙ at) in
      (s', e ∙ ap (λ x. (ok x, s')) same, left)

  payload_arrives :
      IsPrompt r pending
      → (p rest : Bytes) (s : R) → pending s ≡ p ++ rest
      → (s' : R) × (r.read_exact (length p) s ≡ (ok p, s')) × (pending s' ≡ rest)
  payload_arrives prompt p rest s at =
      let (b, s', e) =
        prompt.read_exact_enough (length p) s (omega (arith, ap length at, length-append p rest)) in
      let (long, front) = l.read_exact_ok (length p) s s' b e in
      let (same, left) = append-cut b p (pending s') rest long (sym front ∙ at) in
      (s', e ∙ ap (λ x. (ok x, s')) same, left)

module _ {T R : Type 0} ⦃codec : Codec T⦄ ⦃r : Reader R⦄ where
  on_prefix_frame :
      (p : Bytes) (s : R) (buffer : Bytes)
      → length p < 2 ^ 32
      → on_prefix {T = T} buffer (ok (to_be_bytes (length p % 2 ^ 32)), s)
        ≡ read_payload (length p) s (fill (to_be_bytes (length p % 2 ^ 32)) buffer)
  unfolding on_prefix to_be_bytes prefix_of
  on_prefix_frame p s buffer h =
      ap (λ n. read_payload n s (fill (to_be_bytes (length p % 2 ^ 32)) buffer))
        (from_be_bytes-to_be_bytes (length p % 2 ^ 32) (omega arith) ∙ omega arith)

  read_payload_ok :
      (m : T) (p : Bytes) (s s' : R) (buffer : Bytes)
      → IsLawful codec
      → codec.encode_to_vec m ≡ ok p
      → length p ≤ max_message_size
      → r.read_exact (length p) s ≡ (ok p, s')
      → read_payload (length p) s buffer ≡ (ok m, s', fill p (grow (length p) buffer))
  unfolding read_payload on_payload
  read_payload_ok m p s s' buffer law e h got = ground (
    arith,
    take-append p (drop (length p) (grow (length p) buffer)),
    decode_message_payload law m p e,
  )

  -- A length prefix above the limit, read in one piece, is refused as too large: four bytes are
  -- taken off the stream and put in the buffer, which is not enlarged.
  read_message_too_large :
      (a b c d : ℕ) (s s' : R) (buffer : Bytes)
      → r.read length_prefix s ≡ (ok (a ∷ b ∷ c ∷ d ∷ []), s')
      → max_message_size < from_be_bytes a b c d
      → read_message_from_stream {T = T} s buffer ≡ (
        err (make_message_too_large (from_be_bytes a b c d) max_message_size),
        s',
        fill (a ∷ b ∷ c ∷ d ∷ []) buffer,
      )
  unfolding read_message_from_stream on_prefix read_payload prefix_of
  read_message_too_large a b c d s s' buffer e h = ground arith

  module _ {pending : R → Bytes} (l : IsReader r pending) where
    -- If the first read gives one to three bytes, `read_message_from_stream` is an
    -- `IncompleteLengthPrefix`, and those bytes are off the stream.
    pub read_message_split_prefix :
        (s s' : R) (buffer b : Bytes)
        → r.read length_prefix s ≡ (ok b, s')
        → 0 < length b
        → length b < length_prefix
        → (read_message_from_stream {T = T} s buffer
            ≡ (err incomplete_length_prefix, s', fill b buffer))
          × (pending s ≡ b ++ pending s')
    unfolding read_message_from_stream on_prefix
    read_message_split_prefix s s' buffer b e some few =
        (ground arith, (l.read_ok length_prefix s s' b e).1)

    pub read_message_closed :
        (s s' : R) (buffer b : Bytes)
        → r.read length_prefix s ≡ (ok b, s')
        → pending s ≡ []
        → read_message_from_stream {T = T} s buffer ≡ (err client_read_stream_closed, s', buffer)
    unfolding read_message_from_stream on_prefix
    read_message_closed s s' buffer [] e end = ground arith
    read_message_closed s s' buffer (x ∷ b) e end =
        absurd (cc ((l.read_ok length_prefix s s' (x ∷ b) e).1))

    -- If a frame of a message within the limit arrives whole, it is read back as that message, and
    -- what follows it stays on the stream. The codec is lawful, and the stream delivers what is
    -- asked for when it has as much.
    pub read_message_frame :
        IsPrompt r pending
        → IsLawful codec
        → (m : T) (p rest : Bytes) (s : R) (buffer : Bytes) → codec.encode_to_vec m ≡ ok p
        → length p ≤ max_message_size
        → pending s ≡ frame p ++ rest
        → (s' : R) × (buffer' : Bytes) × (read_message_from_stream s buffer ≡ (ok m, s', buffer'))
          × (pending s' ≡ rest)
    unfolding read_message_from_stream
    read_message_frame prompt law m p rest s buffer e h at =
        let (s₁, e₁, at₁) = prefix_arrives l prompt p rest s at in
        let (s₂, e₂, at₂) = payload_arrives l prompt p rest s₁ at₁ in
        let head = fill (to_be_bytes (length p % 2 ^ 32)) buffer in
        (
          s₂,
          fill p (grow (length p) head),
          ap (on_prefix buffer) e₁
              ∙ on_prefix_frame p s₁ buffer (omega arith)
              ∙ read_payload_ok m p s₁ s₂ head law e h e₂,
          at₂,
        )
