-- ===== src/Core/Stream.antt =====
-- The halves of a TCP stream, which are tokio's: their operations are an interface, and what the
-- code relies on is stated by views of what a half has still to deliver or has taken.
use simple_chat_ddn.Common.{ℕ, ◌≤◌, ◌≡◌, ◌≢◌, ◌++◌, [], Result, ok, length, ◌<◌}
use simple_chat_ddn.Common.Text.{Text, Bytes}

-- `OwnedReadHalf`: the bytes that a call puts at the front of a slice of the given length.
pub record Reader (R : Type 0) : Type 0 where
  pub read : ℕ → R → Result Text Bytes × R
  pub read_exact : ℕ → R → Result Text Bytes × R

-- `OwnedWriteHalf`
pub record Writer (W : Type 0) : Type 0 where
  pub write_all : Bytes → W → Result Text (Unit {0}) × W
  pub flush : W → Result Text (Unit {0}) × W
  pub shutdown : W → Result Text (Unit {0}) × W

-- `pending` is what arrives before the end of the stream. A successful read takes it from the
-- front: `read` up to the length of the slice, nothing only at the end, `read_exact` that many.
pub record IsReader {R : Type 0} (r : Reader R) (pending : R → Bytes) : Type 0 where
  pub read_ok :
      (n : ℕ) (s s' : R) (b : Bytes)
      → r.read n s ≡ (ok b, s')
      → (length b ≤ n) × (pending s ≡ b ++ pending s')
  pub read_some :
      (n : ℕ) (s s' : R) (b : Bytes) → 0 < n → pending s ≢ [] → r.read n s ≡ (ok b, s') → b ≢ []
  pub read_exact_ok :
      (n : ℕ) (s s' : R) (b : Bytes)
      → r.read_exact n s ≡ (ok b, s')
      → (length b ≡ n) × (pending s ≡ b ++ pending s')

-- A stream that delivers at once what is asked for, if it has as much, and that
-- goes on to report its end. The operating system does not promise the first of `read`.
pub record IsPrompt {R : Type 0} (r : Reader R) (pending : R → Bytes) : Type 0 where
  pub read_enough :
      (n : ℕ) (s : R)
      → n ≤ length (pending s)
      → (b : Bytes) × (s' : R) × (r.read n s ≡ (ok b, s')) × (length b ≡ n)
  pub read_end :
      (n : ℕ) (s : R)
      → pending s ≡ []
      → (b : Bytes) × (s' : R) × (r.read n s ≡ (ok b, s')) × (pending s' ≡ [])
  pub read_exact_enough :
      (n : ℕ) (s : R)
      → n ≤ length (pending s)
      → (b : Bytes) × (s' : R) × (r.read_exact n s ≡ (ok b, s'))

-- `sent` is what the half has taken. A successful write appends to it, and the rest leave it.
pub record IsWriter {W : Type 0} (w : Writer W) (sent : W → Bytes) : Type 0 where
  pub write_all_ok : (b : Bytes) (s s' : W) → w.write_all b s ≡ (ok tt, s') → sent s' ≡ sent s ++ b
  pub flush_keeps : (s : W) → sent (w.flush s).1 ≡ sent s
  pub shutdown_keeps : (s : W) → sent (w.shutdown s).1 ≡ sent s

-- A half whose writes succeed.
pub record IsReliable {W : Type 0} (w : Writer W) : Type 0 where
  pub write_all_succeeds : (b : Bytes) (s : W) → (w.write_all b s).0 ≡ ok tt
  pub flush_succeeds : (s : W) → (w.flush s).0 ≡ ok tt
