-- ===== src/Server/ChatRoom.antt =====
-- What the server promises: a chat room, with what has been said in it and who is in it, each since
-- when. No tasks, streams or maps.
use simple_chat_ddn.Common.{ℕ, ◌≡◌, Option, none, some, List, [], ◌∷◌, ◌++◌, ite, length}
use simple_chat_ddn.Common.Text.{Text, text_eq}
use simple_chat_ddn.Core.Message.Server.{SharedServerMessage}

-- A member hears what is said from its position in the log on.
pub record Room : Type 0 where
  pub log : List SharedServerMessage
  pub members : Text → Option ℕ

pub data Act : Type 0 where
  joins leaves : (user : Text) → Act
  says : (message : SharedServerMessage) → Act
  closes : Act

-- The room before and after an act. What is said is added to the log, or nobody hears it.
pub data Does : Act → Room → Room → Type 0 where
  joined :
      {r r' : Room} (u : Text)
      → r'.log ≡ r.log
      → ((v : Text) → r'.members v ≡ ite (text_eq v u) (some (length r.log)) (r.members v))
      → Does (joins u) r r'
  left :
      {r r' : Room} (u : Text)
      → r'.log ≡ r.log
      → ((v : Text) → r'.members v ≡ ite (text_eq v u) none (r.members v))
      → Does (leaves u) r r'
  said :
      {r r' : Room} (m : SharedServerMessage)
      → r'.log ≡ r.log ++ m ∷ []
      → ((v : Text) → r'.members v ≡ r.members v)
      → Does (says m) r r'
  unheard :
      {r r' : Room} (m : SharedServerMessage)
      → r'.log ≡ r.log
      → ((v : Text) → r'.members v ≡ r.members v)
      → Does (says m) r r'
  closed : {r r' : Room} → r'.log ≡ r.log → ((v : Text) → r'.members v ≡ none) → Does closes r r'

-- Acts one after the other.
pub data History : List Act → Room → Room → Type 0 where
  start : {r : Room} → History [] r r
  next :
      {a : Act} {acts : List Act} {r r' r'' : Room}
      → Does a r r'
      → History acts r' r''
      → History (a ∷ acts) r r''

pub History-append :
    (acts more : List Act) (r r' r'' : Room)
    → History acts r r'
    → History more r' r''
    → History (acts ++ more) r r''
History-append acts more r r' r'' start k = k
History-append acts more r r' r'' (next d h) k = next d (History-append _ more _ r' r'' h k)
