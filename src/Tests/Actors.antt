-- ===== src/Tests/Actors.antt =====
-- The names, the pools and the messages of the examples.
use simple_chat_ddn.Common.{◌≡◌, refl, sym, ◌∙◌, none, [], ite, if_pos, if_neg, arith}
use simple_chat_ddn.Common.Text.{Text, Bytes, ascii, text_eq}
use simple_chat_ddn.Common.Map.{lookup}
use simple_chat_ddn.Core.Message.Server.{SharedServerMessage}
use simple_chat_ddn.Core.Message.Server
use simple_chat_ddn.Core.MessageCache.{MessageCache, StdHash, IsStdHash}
use simple_chat_ddn.System.Delivery.{IsAlone}
use simple_chat_ddn.Core.MessageCache
use simple_chat_ddn.Core.Utils.{validate_username}
use simple_chat_ddn.Server.Pool.{BroadcastPool, new, has, create_dispatcher}
use simple_chat_ddn.Server.Pool.Ownership.{IsValid, create_dispatcher-IsValid}
use simple_chat_ddn.Client.Commands.{ChatClient}
use simple_chat_ddn.Tests.Fixture.{
  server_codec, encode_server, first_key, first_key-cons, ok_eq, list_runtime,
  list_runtime-IsRuntime, idle,
}

abbrev pub alice : Text
alice = ascii "alice"

abbrev pub bob : Text
bob = ascii "bob"

abbrev pub cache : MessageCache
cache = MessageCache.new 2

abbrev pub no_clients : BroadcastPool list_runtime
no_clients = new {W = Bytes} {rt = list_runtime} (0, []) (0, λ t. none)

pub no_clients-IsValid : IsValid list_runtime-IsRuntime no_clients
unfolding new lookup
no_clients-IsValid = record {
  owned = λ t j e. absurd (idle t j e);
  distinct = tt;
  named = λ u t e. absurd (cc (e));
}

abbrev pub with_alice : BroadcastPool list_runtime
with_alice = create_dispatcher alice [] cache no_clients

pub with_alice-IsValid : IsValid list_runtime-IsRuntime with_alice
unfolding new has lookup validate_username
with_alice-IsValid =
    create_dispatcher-IsValid list_runtime-IsRuntime alice [] cache no_clients no_clients-IsValid
      refl refl

abbrev pub hi : SharedServerMessage
hi = record { shared = Server.message bob (ascii "hi") }

abbrev pub client : ChatClient Bytes Bytes
client = record {
  username = bob;
  original_username = bob;
  reader = [];
  writer = [];
  join_attempts = 1;
}

-- A hash that tells the payload of one message from all else.
abbrev pub hi_payload : Bytes
hi_payload = encode_server hi.shared

instance abbrev pub marking_hash : StdHash
marking_hash = record { hash_bytes = λ b. ite (text_eq b hi_payload) 1 0; next_key = first_key }

pub marking_hash-IsStdHash : IsStdHash marking_hash
marking_hash-IsStdHash = record {
  hash_u64 = λ b. ground arith;
  next_key-nil = refl;
  next_key-cons = first_key-cons;
}

pub hi-IsAlone : IsAlone hi
hi-IsAlone p q e h = elim (text_eq q hi_payload) [
  | yes same ↦ same ∙ ok_eq e
  | no other ↦
      let zero_one : 0 ≡ 1 =
        sym (if_neg (text_eq q hi_payload) other 1 0)
        ∙ h
        ∙ if_pos (text_eq p hi_payload) (sym (ok_eq e)) 1 0 in
      absurd (omega (arith, zero_one))
]
