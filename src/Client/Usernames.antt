-- ===== src/Client/Usernames.antt =====
-- chat-client/src/username_handler.rs. What is printed is not modelled; the lines that the user
-- types are a list, and `trim` is the standard library's.
pub mod Choices
use simple_chat_ddn.Common.{
  ℕ, ◌+◌, ◌%◌, Result, ok, err, Option, none, some, List, [], ◌∷◌, ◌++◌, ite, if◌then◌else◌, Bool,
  true, false,
}
use simple_chat_ddn.Common.Text.{Text, ascii, text_eq, is_empty}
use simple_chat_ddn.Common.Decimal.{decimal_02}

-- `attempts` is a u8.
unfoldable pub generate_alternative_username : Text → ℕ → Text
generate_alternative_username username attempts =
    username ++ (ascii "_" ++ decimal_02 ((attempts + 1) % 256))

-- What the prompt returns: a name, or none for a cancelled join; an error; or it still waits for a
-- line. The lines that are left stand beside it.
pub data Answer : Type 0 where
  chosen : Option Text → Answer
  failed : Text → Answer
  unanswered : Answer

abbrev pub Input : Type 0
Input = List (Result Text Text)

-- The arms of `match choice.as_str()`.
pub data Choice : Type 0 where
  suggestion custom cancel again : Choice
  direct : Text → Choice

choice_of : Text → Choice
choice_of choice = ite (text_eq choice (ascii "1")) suggestion (
    ite (text_eq choice (ascii "2")) custom
      (ite (text_eq choice (ascii "3")) cancel (if is_empty choice then again else direct choice)))

read_failed : Text → Text
read_failed e = ascii "Failed to read input: " ++ e

module _ (trim : Text → Text) where
  answer : Choice → Text → Input → Answer × Input → Answer × Input → Answer × Input
  answer suggestion suggested rest asked retry = (chosen (some suggested), rest)
  answer custom suggested rest asked retry = asked
  answer cancel suggested rest asked retry = (chosen none, rest)
  answer again suggested rest asked retry = retry
  answer (direct name) suggested rest asked retry = (chosen (some name), rest)

  -- The loop. A choice of "2" takes a second line.
  unfoldable pub prompt_username_selection_loop : Text → Input → Answer × Input
  unfolding choice_of answer read_failed text_eq is_empty
  prompt_username_selection_loop suggested [] = (unanswered, [])
  prompt_username_selection_loop suggested (err e ∷ rest) = (failed (read_failed e), rest)
  prompt_username_selection_loop suggested (ok line ∷ []) =
      answer (choice_of (trim line)) suggested [] (unanswered, []) (unanswered, [])
  prompt_username_selection_loop suggested (ok line ∷ err e ∷ rest) =
      let retry = prompt_username_selection_loop suggested (err e ∷ rest) in
      answer (choice_of (trim line)) suggested (err e ∷ rest) (failed (read_failed e), rest) retry
  prompt_username_selection_loop suggested (ok line ∷ ok typed ∷ rest) =
      let retry = prompt_username_selection_loop suggested (ok typed ∷ rest) in
      let retry_after = prompt_username_selection_loop suggested rest in
      answer (choice_of (trim line)) suggested (ok typed ∷ rest)
        (if is_empty (trim typed) then retry_after else (chosen (some (trim typed)), rest)) retry
