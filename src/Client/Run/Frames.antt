-- ===== src/Client/Run/Frames.antt =====
-- The client's loop, reading one frame at a time.
use simple_chat_ddn.Common.{
  ◌≡◌, refl, ◌+◌, ◌^◌, ◌<◌, ◌≤◌, arith, sym, ap, ◌∙◌, ok, List, [], ◌∷◌, length, map, false,
}
use mathlib.Core.List.{append-nil}
use simple_chat_ddn.Common.Text.{Text, Bytes}
use simple_chat_ddn.Core.Bincode.{Codec, IsLawful}
use simple_chat_ddn.Core.Stream.{Writer}
use simple_chat_ddn.Core.Message.Client.{ClientMessage}
use simple_chat_ddn.Core.Message.Server.{ServerMessage}
use simple_chat_ddn.Core.Protocol.{frame, to_be_bytes}
use simple_chat_ddn.Core.Protocol.Framing.{length-frame}
use simple_chat_ddn.Client.Messages.{handle_server_message, render}
use simple_chat_ddn.Client.Messages.Frames.{handle_server_message-frame}
use simple_chat_ddn.Client.Commands.{ChatClient}
use simple_chat_ddn.Client.Run.{
  Event, Piece, from_server, read_size, turn, on_read, after_turn, run, shown,
}

-- A read that gives this.
abbrev pub piece : Piece → Event
piece f = from_server (ok f)

-- A frame that one read can give.
abbrev pub framed : (p : Bytes) → 4 + length p ≤ read_size → Piece
framed p h = record { bytes = frame p; fits = omega (arith, length-frame p, h) }

module _ ⦃dec : Codec ServerMessage⦄ where
  whole-frame :
      IsLawful dec
      → (m : ServerMessage) (p : Bytes) → dec.encode_to_vec m ≡ ok p
      → length p < 2 ^ 32
      → handle_server_message (frame p) ≡ ok (render m)
  whole-frame law m p e h =
      ap handle_server_message (sym (append-nil (frame p)))
      ∙ handle_server_message-frame law m p [] e h

module _ {R W : Type 0} ⦃w : Writer W⦄ ⦃enc : Codec ClientMessage⦄ ⦃dec : Codec ServerMessage⦄
    (trim : Text → Text) where
  -- Reading these, the client prints these lines, and goes on as it was.
  abbrev pub Prints : List Piece → List Text → ChatClient R W → Type 0
  Prints fs lines client = run trim (map piece fs) client ≡ (lines, false, client)

  pub run-frame :
      IsLawful dec
      → (m : ServerMessage) (p : Bytes) (fs : List Piece) (lines : List Text)
        (client : ChatClient R W)
      → dec.encode_to_vec m ≡ ok p
      → (h : 4 + length p ≤ read_size) → Prints fs lines client
      → Prints (framed p h ∷ fs) (render m ∷ lines) client
  unfolding run turn after_turn on_read frame to_be_bytes shown
  run-frame law m p fs lines client e h rest = rw (whole-frame law m p e (omega (arith, h)), rest)

  pub run-nil : (client : ChatClient R W) → Prints [] [] client
  unfolding run
  run-nil client = refl
