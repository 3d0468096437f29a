-- ===== src/Core/Message/Server.antt =====
-- `ServerMessage` and `SharedServerMessage` of chat-core/src/protocol.rs.
use simple_chat_ddn.Common.{Option, none, some}
use simple_chat_ddn.Common.Text.{Text}

pub data ServerMessage : Type 0 where
  success : (message : Text) → ServerMessage
  error : (reason : Text) → ServerMessage
  user_name_already_taken : (username : Text) → ServerMessage
  message : (username content : Text) → ServerMessage
  user_joined : (username : Text) → ServerMessage
  user_left : (username : Text) → ServerMessage

unfoldable pub username : ServerMessage → Option Text
username (message u c) = some u
username (user_name_already_taken u) = some u
username (user_joined u) = some u
username (user_left u) = some u
username (success m) = none
username (error r) = none

-- The associated functions of the same names.
unfoldable pub new_success : Text → ServerMessage
new_success m = success m

unfoldable pub new_error : Text → ServerMessage
new_error r = error r

unfoldable pub new_message : Text → Text → ServerMessage
new_message u c = message u c

unfoldable pub new_user_name_already_taken : Text → ServerMessage
new_user_name_already_taken u = user_name_already_taken u

unfoldable pub new_user_joined : Text → ServerMessage
new_user_joined u = user_joined u

unfoldable pub new_user_left : Text → ServerMessage
new_user_left u = user_left u

-- `Arc<ServerMessage>`: the message never changes, so sharing it is not observed.
pub record SharedServerMessage : Type 0 where
  pub shared : ServerMessage

unfoldable pub new : ServerMessage → SharedServerMessage
new m = record { shared = m }

unfoldable pub deref : SharedServerMessage → ServerMessage
deref s = s.shared

unfoldable pub clone : SharedServerMessage → SharedServerMessage
clone s = record { shared = s.shared }
