-- ===== src/Core/Utils/Laws.antt =====
-- Which user names pass, and what the others are refused with.
use simple_chat_ddn.Common.{
  ◌≤◌, ◌<◌, ◌≡◌, refl, ◌↔◌, ◌⊎◌, inl, inr, ok, err, [], ◌∷◌, length, arith,
}
use simple_chat_ddn.Common.Text.{Text}
use simple_chat_ddn.Core.Error.{message_too_large, username_not_found}
use simple_chat_ddn.Core.Protocol.{max_message_size, max_username_length}
use simple_chat_ddn.Core.Utils.{validate_username}

-- A name passes `validate_username` exactly if it has between 1 and 20 bytes.
pub validate_username_ok :
    (u : Text) → (validate_username u ≡ ok tt) ↔ ((0 < length u) × (length u ≤ 20))
unfolding validate_username
validate_username_ok [] = ground arith
validate_username_ok (c ∷ u) = ground arith

-- Every name has between 1 and 20 bytes and passes, or is empty or above `MAX_USERNAME_LENGTH` and
-- is not found, or is between the two limits and is refused as a message that is too large, with
-- the limit of a message.
pub validate_username_cases :
    (u : Text)
    → ((0 < length u) × (length u ≤ 20) × (validate_username u ≡ ok tt))
      ⊎ (((length u ≡ 0) ⊎ (max_username_length < length u))
          × (validate_username u ≡ err username_not_found))
      ⊎ ((20 < length u)
          × (length u ≤ max_username_length)
          × (validate_username u ≡ err (message_too_large (length u) max_message_size)))
unfolding validate_username
validate_username_cases [] = inr (inl (inl refl, ground arith))
validate_username_cases (c ∷ u) = ground arith
