-- ===== src/Core/Transport/Sequences.antt =====
-- Messages one after the other over one stream.
use simple_chat_ddn.Common.{◌≤◌, ◌≡◌, sym, ap, ◌∙◌, ok, List, [], ◌∷◌, ◌++◌, length, All}
use mathlib.Core.List.{append_assoc, append-nil}
use simple_chat_ddn.Common.Text.{Bytes}
use simple_chat_ddn.Core.Bincode.{Codec, IsLawful}
use simple_chat_ddn.Core.Stream.{Writer, IsWriter, Reader, IsReader, IsPrompt}
use simple_chat_ddn.Core.Protocol.{frame, max_message_size}
use simple_chat_ddn.Core.Transport.{write_message_to_stream, read_message_from_stream}
use simple_chat_ddn.Core.Transport.Reading.{read_message_frame}
use simple_chat_ddn.Core.Transport.Writing.{write_message_to_stream_ok}

-- A run of writes, every one of them a success.
pub data Writes {T W : Type 0} ⦃codec : Codec T⦄ ⦃w : Writer W⦄ : W → List T → W → Type 0 where
  done : {s : W} → Writes s [] s
  write :
      {s s' s'' : W} {m : T} {ms : List T}
      → write_message_to_stream s m ≡ (ok tt, s')
      → Writes s' ms s''
      → Writes s (m ∷ ms) s''

-- A run of reads into one buffer, with the messages that they give.
pub data Reads {T R : Type 0} ⦃codec : Codec T⦄ ⦃r : Reader R⦄
    : R → Bytes → List T → R → Type 0 where
  done : {s : R} {buffer : Bytes} → Reads s buffer [] s
  read :
      {s s' s'' : R} {buffer buffer' : Bytes} {m : T} {ms : List T}
      → read_message_from_stream s buffer ≡ (ok m, s', buffer')
      → Reads s' buffer' ms s''
      → Reads s buffer (m ∷ ms) s''

module _ {T : Type 0} ⦃codec : Codec T⦄ where
  -- The message's payload is within the limit, if it has one.
  abbrev pub Fits : T → Type 0
  Fits m = (p : Bytes) → codec.encode_to_vec m ≡ ok p → length p ≤ max_message_size

module _ {T W R : Type 0} ⦃codec : Codec T⦄ ⦃w : Writer W⦄ ⦃r : Reader R⦄ {sent : W → Bytes}
    {pending : R → Bytes} (law : IsLawful codec) (lw : IsWriter w sent) (lr : IsReader r pending)
    (prompt : IsPrompt r pending) where
  carried :
      {s s' : W} {ms : List T}
      → Writes s ms s'
      → All Fits ms
      → (t : Bytes) × (sent s' ≡ sent s ++ t)
        × ((x : R) (buffer rest : Bytes)
            → pending x ≡ t ++ rest
            → (x' : R) × Reads x buffer ms x' × (pending x' ≡ rest))
  carried {s} done fits = ([], sym (append-nil (sent s)), λ x buffer rest at. (x, done, at))
  carried (write {s = s} {m = m} e more) (fit, fits) =
      let (p, pay, out) = write_message_to_stream_ok lw m s _ e in
      let (t, outs, reads) = carried more fits in
      (
        frame p ++ t,
        outs ∙ ap (λ b. b ++ t) out ∙ append_assoc (sent s) (frame p) t,
        λ x buffer rest at.
            let (x₁, b₁, e₁, at₁) =
              read_message_frame lr prompt law m p (t ++ rest) x buffer pay (fit p pay)
                (at ∙ append_assoc (frame p) t rest) in
            let (x₂, more₂, at₂) = reads x₁ b₁ rest at₁ in (x₂, read e₁ more₂, at₂),
      )

  -- Messages that were all written with success on a fresh stream, each with a payload within the
  -- limit, are read back from a stream on which those bytes arrive: the same messages, in order,
  -- and nothing is left. The codec is lawful, and the stream delivers what is asked for when it has
  -- as much.
  pub Writes-Reads :
      {s s' : W} {ms : List T} (x : R) (buffer : Bytes)
      → Writes s ms s'
      → All Fits ms
      → sent s ≡ []
      → pending x ≡ sent s'
      → (x' : R) × Reads x buffer ms x' × (pending x' ≡ [])
  Writes-Reads x buffer writes fits fresh at =
      let (t, out, reads) = carried writes fits in
      reads x buffer [] (at ∙ out ∙ ap (λ b. b ++ t) fresh ∙ sym (append-nil t))
