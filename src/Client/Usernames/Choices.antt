-- ===== src/Client/Usernames/Choices.antt =====
-- What the prompt for another username can answer, and what it suggests.
use simple_chat_ddn.Common.{
  ℕ, ◌+◌, ◌%◌, ◌≤◌, ◌<◌, ◌≡◌, ◌≢◌, ◌↔◌, ◌⊎◌, inl, inr, ok, err, some, [], ◌∷◌, ◌++◌, length,
  if◌then◌else◌, arith, lt→ltb, length-append,
}
use simple_chat_ddn.Common.Text.{Text, ascii, is_empty}
use simple_chat_ddn.Common.Decimal.{decimal, decimal_02}
use simple_chat_ddn.Core.Utils.{validate_username}
use simple_chat_ddn.Core.Utils.Laws.{validate_username_ok}
use simple_chat_ddn.Client.Usernames.{
  generate_alternative_username, Answer, chosen, Input, Choice, suggestion, custom, cancel, again,
  direct, choice_of, answer, prompt_username_selection_loop,
}

-- A number below ten is printed with two digits.
length-decimal_02 : (n : ℕ) → n < 10 → length (decimal_02 n) ≡ 2
unfolding decimal_02 decimal
length-decimal_02 n h = rw (lt→ltb n 10 h)

length-generate :
    (u : Text) (a : ℕ) → a < 9 → length (generate_alternative_username u a) ≡ length u + 3
unfolding generate_alternative_username
length-generate u a h = omega (
  arith,
  length-append u (ascii "_" ++ decimal_02 ((a + 1) % 256)),
  length-decimal_02 ((a + 1) % 256) (omega arith),
)

-- Below nine attempts, `validate_username` accepts the suggestion for a name exactly if the name
-- has 17 bytes at most.
pub suggestion_refused :
    (u : Text) (a : ℕ)
    → a < 9
    → (validate_username (generate_alternative_username u a) ≡ ok tt) ↔ (length u ≤ 17)
suggestion_refused u a h =
    let (to, from) = validate_username_ok (generate_alternative_username u a) in
    (
      λ e. let (_, few) = to e in omega (arith, few, length-generate u a h),
      λ few. from (omega (arith, length-generate u a h), omega (arith, length-generate u a h)),
    )

pub Typed : (Text → Text) → Text → Input → Type 0
Typed trim n [] = ⊥
Typed trim n (ok line ∷ i) = ((n ≡ trim line) × (n ≢ [])) ⊎ Typed trim n i
Typed trim n (err e ∷ i) = ⊥

choice-direct : (t n : Text) → choice_of t ≡ direct n → (n ≡ t) × (n ≢ [])
unfolding choice_of is_empty
choice-direct [] n h = ground arith
choice-direct (c ∷ t) n h = ground arith

-- Where an arm's result comes from.
answer_chosen :
    (trim : Text → Text) (c : Choice) (suggested n : Text) (rest : Input)
    (asked retry : Answer × Input)
    → (answer trim c suggested rest asked retry).0 ≡ chosen (some n)
    → (n ≡ suggested)
      ⊎ ((c ≡ direct n) ⊎ ((asked.0 ≡ chosen (some n)) ⊎ (retry.0 ≡ chosen (some n))))
unfolding answer
answer_chosen trim suggestion s n i a r h = inl (cc)
answer_chosen trim custom s n i a r h = inr (inr (inl h))
answer_chosen trim cancel s n i a r h = absurd (cc (h))
answer_chosen trim again s n i a r h = inr (inr (inr h))
answer_chosen trim (direct m) s n i a r h = inr (inl (cc))

module _ (trim : Text → Text) (suggested n : Text) where
  typed :
      (t : Text) (retry : Answer × Input) (rest : Input)
      → (if is_empty t then retry else (chosen (some t), rest)).0 ≡ chosen (some n)
      → ((n ≡ t) × (n ≢ [])) ⊎ (retry.0 ≡ chosen (some n))
  unfolding is_empty
  typed [] retry rest h = inr h
  typed (c ∷ t) retry rest h = inl (ground arith)

  -- If the prompt gives a name, it is the suggestion, or a line that the user typed before any
  -- error, trimmed and not empty.
  pub prompt_chosen :
      (i : Input)
      → (prompt_username_selection_loop trim suggested i).0 ≡ chosen (some n)
      → (n ≡ suggested) ⊎ Typed trim n i
  unfolding prompt_username_selection_loop Typed
  prompt_chosen [] h = absurd (cc (h))
  prompt_chosen (err e ∷ i) h = absurd (cc (h))
  prompt_chosen (ok line ∷ []) h =
      elim (answer_chosen trim (choice_of (trim line)) suggested n [] _ _ h) [
        | inl e ↦ inl e
        | inr (inl e) ↦ inr (inl (choice-direct (trim line) n e))
        | inr (inr (inl e)) ↦ absurd (cc (e))
        | inr (inr (inr e)) ↦ absurd (cc (e))
      ]
  prompt_chosen (ok line ∷ err e ∷ i) h =
      elim (answer_chosen trim (choice_of (trim line)) suggested n _ _ _ h) [
        | inl e ↦ inl e
        | inr (inl e) ↦ inr (inl (choice-direct (trim line) n e))
        | inr (inr (inl e)) ↦ absurd (cc (e))
        | inr (inr (inr e)) ↦ absurd (cc (e))
      ]
  prompt_chosen (ok line ∷ ok line' ∷ i) h =
      elim (answer_chosen trim (choice_of (trim line)) suggested n _ _ _ h) [
        | inl e ↦ inl e
        | inr (inl e) ↦ inr (inl (choice-direct (trim line) n e))
        | inr (inr (inl e)) ↦ elim (typed (trim line') _ i e) [
          | inl f ↦ inr (inr (inl f))
          | inr f ↦ elim (prompt_chosen i f) [ inl g ↦ inl g | inr g ↦ inr (inr (inr g)) ]
        ]
        | inr (inr (inr e)) ↦ elim (prompt_chosen (ok line' ∷ i) e) [
          | inl g ↦ inl g
          | inr g ↦ inr (inr g)
        ]
      ]
