-- ===== src/Common/Text.antt =====
-- A Rust `String` or `&str` is the list of its UTF-8 bytes, so `len` is `length`.
use Prim.Native.Char.{code}
use Prim.Native.String.{String}
use Prim.Native.Nat.{ℕ}
use mathlib.Core.Path.{◌≡◌, refl}
use mathlib.Core.Bool.{Bool, true, false}
use mathlib.Core.List.{List, [], ◌∷◌}
unfoldable use native.Mathlib.Decide.{ℕ_discrete}

abbrev pub Bytes : Type 0
Bytes = List ℕ

abbrev pub Text : Type 0
Text = List ℕ

-- The bytes of an ASCII literal.
abbrev pub ascii : String → Text
ascii String.[] = []
ascii (String.◌∷◌ c s) = code c ∷ ascii s

unfoldable pub is_empty : Text → Bool
is_empty [] = true
is_empty (c ∷ s) = false

cons_eq : {a b : ℕ} {s t : Text} → Dec (a ≡ b) → Dec (s ≡ t) → Dec (◌≡◌ {A = Text} (a ∷ s) (b ∷ t))
cons_eq (yes p) (yes q) = yes (cc)
cons_eq (no p) _ = no (λ e. p (cc))
cons_eq (yes p) (no q) = no (λ e. q (cc))

unfoldable pub text_eq : Discrete Text
unfolding cons_eq ℕ_discrete
text_eq [] [] = yes refl
text_eq [] (b ∷ t) = no (λ e. cc)
text_eq (a ∷ s) [] = no (λ e. cc)
text_eq (a ∷ s) (b ∷ t) = cons_eq (ℕ_discrete a b) (text_eq s t)
