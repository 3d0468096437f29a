-- ===== src/Tests/Fixture.antt =====
-- Concrete stand-ins for the crates and the runtime, with the laws that the theorems ask of them.
mod Channels
unfoldable pub use Channels.*
use simple_chat_ddn.Common.{
  ℕ, zero, suc, ◌%◌, ◌^◌, ◌≤◌, ◌<◌, ◌≡◌, ◌≢◌, refl, sym, ap, Result, ok, err, Option, none, some,
  List, [], ◌∷◌, ◌++◌, length, take, drop, ltb, ◌==◌, if◌then◌else◌, arith, take-append,
  drop-append, length-take, take-append-drop, Bool-cases, inl, inr, Bool, true, false, ℕ_discrete,
}
use simple_chat_ddn.Common.Text.{Text, Bytes, ascii}
use simple_chat_ddn.Common.Map.{Map, lookup}
use simple_chat_ddn.Core.Bincode.{Codec, IsLawful}
use simple_chat_ddn.Core.Stream.{Reader, Writer, IsReader, IsPrompt, IsWriter, IsReliable}
use simple_chat_ddn.Core.MessageCache.{StdHash, IsStdHash}
use simple_chat_ddn.Core.Message.Client.{ClientMessage, join, leave}
use simple_chat_ddn.Core.Message.Client
use simple_chat_ddn.Core.Message.Server.{
  ServerMessage, SharedServerMessage, success, error, user_name_already_taken, user_joined,
  user_left,
}
use simple_chat_ddn.Core.Message.Server
use simple_chat_ddn.Server.Dispatcher.{Dispatcher}
use simple_chat_ddn.Server.Runtime.{Runtime, IsRuntime}

-- A tag, and the texts; the first of two behind its length.
abbrev pub encode_client : ClientMessage → Bytes
encode_client (join u) = 0 ∷ u
encode_client (leave u) = 1 ∷ u
encode_client (Client.message u c) = 2 ∷ length u ∷ u ++ c

abbrev pub decode_client : Bytes → Result Text (ClientMessage × ℕ)
decode_client (zero ∷ u) = ok (join u, suc (length u))
decode_client (suc zero ∷ u) = ok (leave u, suc (length u))
decode_client (suc (suc zero) ∷ n ∷ b) =
    ok (Client.message (take n b) (drop n b), suc (suc (length b)))
decode_client _ = err (ascii "unexpected")

abbrev pub encode_server : ServerMessage → Bytes
encode_server (success m) = 0 ∷ m
encode_server (error r) = 1 ∷ r
encode_server (user_name_already_taken u) = 2 ∷ u
encode_server (Server.message u c) = 3 ∷ length u ∷ u ++ c
encode_server (user_joined u) = 4 ∷ u
encode_server (user_left u) = 5 ∷ u

abbrev pub decode_server : Bytes → Result Text (ServerMessage × ℕ)
decode_server (zero ∷ u) = ok (success u, suc (length u))
decode_server (suc zero ∷ u) = ok (error u, suc (length u))
decode_server (suc (suc zero) ∷ u) = ok (user_name_already_taken u, suc (length u))
decode_server (suc (suc (suc zero)) ∷ n ∷ b) =
    ok (Server.message (take n b) (drop n b), suc (suc (length b)))
decode_server (suc (suc (suc (suc zero))) ∷ u) = ok (user_joined u, suc (length u))
decode_server (suc (suc (suc (suc (suc zero)))) ∷ u) = ok (user_left u, suc (length u))
decode_server _ = err (ascii "unexpected")

instance abbrev pub client_codec : Codec ClientMessage
client_codec = record {
  encode_to_vec = λ m. ok (encode_client m);
  decode_from_slice = decode_client;
}

instance abbrev pub server_codec : Codec ServerMessage
server_codec = record {
  encode_to_vec = λ m. ok (encode_server m);
  decode_from_slice = decode_server;
}

decode-encode_client :
    (m : ClientMessage) → decode_client (encode_client m) ≡ ok (m, length (encode_client m))
decode-encode_client (join u) = refl
decode-encode_client (leave u) = refl
decode-encode_client (Client.message u c) = rw (take-append u c, drop-append u c)

decode-encode_server :
    (m : ServerMessage) → decode_server (encode_server m) ≡ ok (m, length (encode_server m))
decode-encode_server (success m) = refl
decode-encode_server (error r) = refl
decode-encode_server (user_name_already_taken u) = refl
decode-encode_server (Server.message u c) = rw (take-append u c, drop-append u c)
decode-encode_server (user_joined u) = refl
decode-encode_server (user_left u) = refl

pub ok_eq {ℓ} : {A : Type ℓ} {a b : A} → ◌≡◌ {A = Result Text A} (ok a) (ok b) → a ≡ b
ok_eq h = cc

pub client_codec-IsLawful : IsLawful client_codec
client_codec-IsLawful = record { decode-encode = λ m b e. rw (← ok_eq e) (decode-encode_client m) }

pub server_codec-IsLawful : IsLawful server_codec
server_codec-IsLawful = record { decode-encode = λ m b e. rw (← ok_eq e) (decode-encode_server m) }

-- Streams: what has still to arrive, and what has been sent.
abbrev pub read_exactly : ℕ → Bytes → Result Text Bytes × Bytes
read_exactly n s =
    if ltb (length s) n
    then (err (ascii "unexpected end of file"), s)
    else (ok (take n s), drop n s)

instance abbrev pub bytes_reader : Reader Bytes
bytes_reader = record { read = λ n s. (ok (take n s), drop n s); read_exact = read_exactly }

instance abbrev pub bytes_writer : Writer Bytes
bytes_writer = record {
  write_all = λ b s. (ok tt, s ++ b);
  flush = λ s. (ok tt, s);
  shutdown = λ s. (ok tt, s);
}

abbrev pub all_of : Bytes → Bytes
all_of s = s

-- A cut at `n`, of which both parts are named.
cut_named :
    (n : ℕ) (s s' : Bytes) (b : Bytes)
    → ◌≡◌ {A = Result Text Bytes × Bytes} (ok (take n s), drop n s) (ok b, s')
    → (take n s ≡ b) × (s ≡ b ++ s')
cut_named n s s' b e =
    let front : take n s ≡ b = ok_eq (ap (λ x. x.0) e) in
    (front, rw (← front, ← ap (λ x. x.1) e) (sym (take-append-drop n s)))

take_some : (n : ℕ) (s : Bytes) → 0 < n → s ≢ [] → take n s ≢ []
take_some zero s h k = absurd (omega arith)
take_some (suc n) [] h k = absurd (k refl)
take_some (suc n) (c ∷ s) h k = λ e. cc (e)

few_not : (n : ℕ) (s : Bytes) → ltb (length s) n ≡ false → n ≤ length s
few_not n s h = ground arith

drop_nil : (n : ℕ) (s : Bytes) → s ≡ [] → drop n s ≡ []
drop_nil zero [] h = refl
drop_nil (suc n) [] h = refl
drop_nil n (c ∷ s) h = absurd (cc (h))

read_exactly_ok :
    (n : ℕ) (s s' b : Bytes) → read_exactly n s ≡ (ok b, s') → (length b ≡ n) × (s ≡ b ++ s')
read_exactly_ok n s s' b e = elim (Bool-cases (ltb (length s) n)) [
  | inl few ↦ absurd (cc (ap (λ x. x.0) (rw few at e)))
  | inr enough ↦
      let (front, whole) = cut_named n s s' b (rw enough at e) in
      (omega (arith, ap length front, length-take n s, few_not n s enough), whole)
]

pub bytes_reader-IsReader : IsReader bytes_reader all_of
bytes_reader-IsReader = record {
  read_ok = λ n s s' b e.
      let (front, whole) = cut_named n s s' b e in
      (omega (arith, ap length front, length-take n s), whole);
  read_some = λ n s s' b h k e. rw (← (cut_named n s s' b e).0) (take_some n s h k);
  read_exact_ok = read_exactly_ok;
}

pub bytes_reader-IsPrompt : IsPrompt bytes_reader all_of
bytes_reader-IsPrompt = record {
  read_enough = λ n s h. (take n s, drop n s, refl, omega (arith, length-take n s));
  read_end = λ n s e. (take n s, drop n s, refl, drop_nil n s e);
  read_exact_enough = λ n s h. (take n s, drop n s, ground arith);
}

pub bytes_writer-IsWriter : IsWriter bytes_writer all_of
bytes_writer-IsWriter = record {
  write_all_ok = λ b s s' e. sym (ap (λ x. x.1) e);
  flush_keeps = λ s. refl;
  shutdown_keeps = λ s. refl;
}

pub bytes_writer-IsReliable : IsReliable bytes_writer
bytes_writer-IsReliable = record { write_all_succeeds = λ b s. refl; flush_succeeds = λ s. refl }

-- A hash with collisions, and the first key of a map.
abbrev pub first_key : Map ℕ Bytes → Option ℕ
first_key [] = none
first_key ((k, v) ∷ m) = some k

instance abbrev pub length_hash : StdHash
length_hash = record { hash_bytes = λ b. length b % 2 ^ 64; next_key = first_key }

pub first_key-cons :
    (m : Map ℕ Bytes)
    → m ≢ []
    → (k : ℕ) × (v : Bytes) × (first_key m ≡ some k) × (lookup ℕ_discrete k m ≡ some v)
unfolding lookup
first_key-cons [] h = absurd (h refl)
first_key-cons ((k, v) ∷ m) h = (k, v, refl, ground arith)

pub length_hash-IsStdHash : IsStdHash length_hash
length_hash-IsStdHash = record {
  hash_u64 = λ b. omega arith;
  next_key-nil = refl;
  next_key-cons = first_key-cons;
}
