-- ===== src/Client/Commands.antt =====
-- `ChatClient`, what it sends, and its commands: chat-client/src/client.rs. An `anyhow` error is its
-- text, and what is printed is not modelled.
pub mod Sending
use simple_chat_ddn.Common.{
  ℕ, Result, ok, err, map_err, Option, none, some, List, [], ◌∷◌, ◌++◌, ite, ◌==◌, if◌then◌else◌,
}
use simple_chat_ddn.Common.Text.{Text, Bytes, ascii, text_eq}
use simple_chat_ddn.Core.Error.{ApplicationError, display}
use simple_chat_ddn.Core.Bincode.{Codec}
use simple_chat_ddn.Core.Stream.{Writer}
use simple_chat_ddn.Core.Message.Client.{ClientMessage, leave, message}
use simple_chat_ddn.Core.Protocol.{encode_message}

pub record ChatClient (R W : Type 0) : Type 0 where
  pub username : Text
  pub original_username : Text
  pub reader : R
  pub writer : W
  pub join_attempts : ℕ

-- `splitn(2, ' ')`: the text before the first space, and what follows it, if there is one.
unfoldable pub split_space : Text → Text × Option Text
split_space [] = ([], none)
split_space (c ∷ s) =
    let (front, back) = split_space s in if c == b' ' then ([], some s) else (c ∷ front, back)

abbrev pub requested_leave : Text
requested_leave = ascii "Client requested leave"

module _ {R W : Type 0} ⦃w : Writer W⦄ ⦃codec : Codec ClientMessage⦄ where
  write_to : ChatClient R W → Result Text Bytes → Result Text (Unit {0}) × ChatClient R W
  write_to client (err e) = (err e, client)
  write_to client (ok frame) =
      let (result, writer') = w.write_all frame client.writer in
      (result, record client { writer = writer' })

  unfoldable pub send_client_message :
      ClientMessage → ChatClient R W → Result Text (Unit {0}) × ChatClient R W
  unfolding write_to
  send_client_message m client = write_to client (map_err display (encode_message m))

  -- The farewell of a closed writer is only logged.
  closed : Result Text (Unit {0}) × W → ChatClient R W → Result Text (Unit {0}) × ChatClient R W
  closed (err e, writer) client = (err e, record client { writer = writer })
  closed (ok _, writer) client =
      let (_, writer') = w.shutdown writer in (ok tt, record client { writer = writer' })

  flushed : Result Text (Unit {0}) × ChatClient R W → Result Text (Unit {0}) × ChatClient R W
  unfolding closed
  flushed (err e, client) = (err e, client)
  flushed (ok _, client) = closed (w.flush client.writer) client

  unfoldable pub graceful_leave : ChatClient R W → Result Text (Unit {0}) × ChatClient R W
  unfolding flushed
  graceful_leave client = flushed (send_client_message (leave client.username) client)

  -- `send_client_message(message).await?` and then the request to end the loop.
  then_leave : Result Text (Unit {0}) × ChatClient R W → Result Text (Unit {0}) × ChatClient R W
  then_leave (err e, client) = (err e, client)
  then_leave (ok _, client) = (err requested_leave, client)

  send_part : Option Text → ChatClient R W → Result Text (Unit {0}) × ChatClient R W
  send_part none client = (ok tt, client)
  send_part (some content) client = send_client_message (message client.username content) client

  unfoldable pub handle_user_input : Text → ChatClient R W → Result Text (Unit {0}) × ChatClient R W
  unfolding send_part then_leave
  handle_user_input input client =
      let (command, content) = split_space input in
      ite (text_eq command (ascii "send")) (send_part content client) (
        ite (text_eq command (ascii "leave"))
          (then_leave (send_client_message (leave client.username) client)) (ok tt, client))
