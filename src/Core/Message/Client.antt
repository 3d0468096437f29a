-- ===== src/Core/Message/Client.antt =====
-- `ClientMessage` of chat-core/src/protocol.rs.
use simple_chat_ddn.Common.{Option, some}
use simple_chat_ddn.Common.Text.{Text}

pub data ClientMessage : Type 0 where
  join : (username : Text) → ClientMessage
  leave : (username : Text) → ClientMessage
  message : (username content : Text) → ClientMessage

unfoldable pub username : ClientMessage → Option Text
username (join u) = some u
username (leave u) = some u
username (message u c) = some u

-- The associated functions `join`, `leave` and `message`.
unfoldable pub new_join : Text → ClientMessage
new_join u = join u

unfoldable pub new_leave : Text → ClientMessage
new_leave u = leave u

unfoldable pub new_message : Text → Text → ClientMessage
new_message u c = message u c
