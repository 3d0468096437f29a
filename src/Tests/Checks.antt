-- ===== src/Tests/Checks.antt =====
-- What the assertions of the unit tests ask, as tests into `Bool`, and a hash for them.
use simple_chat_ddn.Common.{
  ℕ, ◌+◌, ◌*◌, ◌%◌, ◌^◌, Result, ok, err, Option, none, some, [], ◌∷◌, Bool, true, false, ◌&&◌, ite,
}
use simple_chat_ddn.Common.Text.{Text, Bytes, text_eq}
use simple_chat_ddn.Core.Message.Client.{ClientMessage, join, leave}
use simple_chat_ddn.Core.Message.Client
use simple_chat_ddn.Core.Message.Server.{
  ServerMessage, success, error, user_name_already_taken, user_joined, user_left,
}
use simple_chat_ddn.Core.Message.Server
use simple_chat_ddn.Core.MessageCache.{StdHash}
use simple_chat_ddn.Tests.Fixture.{first_key}

abbrev pub is_ok {ℓ κ} : {E : Type ℓ} {A : Type κ} → Result E A → Bool
is_ok (ok a) = true
is_ok (err e) = false

abbrev pub is_none {ℓ} : {A : Type ℓ} → Option A → Bool
is_none none = true
is_none (some a) = false

abbrev pub same : Text → Text → Bool
same a b = ite (text_eq a b) true false

abbrev pub same_name : Option Text → Option Text → Bool
same_name none none = true
same_name (some a) (some b) = same a b
same_name none (some b) = false
same_name (some a) none = false

-- `matches!`, and the fields.
abbrev pub same_client : ClientMessage → ClientMessage → Bool
same_client (join u) (join v) = same u v
same_client (leave u) (leave v) = same u v
same_client (Client.message u c) (Client.message v d) = same u v && same c d
same_client m n = false

abbrev pub same_server : ServerMessage → ServerMessage → Bool
same_server (success m) (success n) = same m n
same_server (error r) (error s) = same r s
same_server (user_name_already_taken u) (user_name_already_taken v) = same u v
same_server (Server.message u c) (Server.message v d) = same u v && same c d
same_server (user_joined u) (user_joined v) = same u v
same_server (user_left u) (user_left v) = same u v
same_server m n = false

-- The bytes as the digits of a number.
abbrev digits : Bytes → ℕ
digits [] = 1
digits (b ∷ bs) = b + 256 * digits bs

instance abbrev pub digits_hash : StdHash
digits_hash = record { hash_bytes = λ b. digits b % 2 ^ 64; next_key = first_key }
