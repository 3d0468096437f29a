-- ===== src/Core/Utils.antt =====
-- chat-core/src/utils.rs.
pub mod Laws
use simple_chat_ddn.Common.{
  ℕ, ◌≤◌, ◌<◌, ◌≡◌, refl, ◌↔◌, Result, ok, err, ◌++◌, length, ltb, not, Bool, true, false, ◌||◌,
  arith, if◌then◌else◌,
}
use simple_chat_ddn.Common.Text.{Text, ascii, is_empty}
use simple_chat_ddn.Common.Decimal.{decimal}
use simple_chat_ddn.Core.Error.{ApplicationError, username_not_found, make_message_too_large}
use simple_chat_ddn.Core.Protocol.{max_message_size, max_username_length}

-- `ts` is the clock's reading in nanoseconds.
unfoldable pub generate_unique_id : ℕ → Text
generate_unique_id ts = ascii "id_" ++ decimal ts

unfoldable pub validate_username : Text → Result ApplicationError (Unit {0})
unfolding is_empty make_message_too_large
validate_username username =
    if is_empty username || ltb max_username_length (length username)
    then err username_not_found
    else if ltb 20 (length username)
    then err (make_message_too_large (length username) max_message_size)
    else ok tt

unfoldable pub is_valid_message : Text → Bool
unfolding is_empty
is_valid_message message = not (is_empty message)
