-- ===== src/Common/Texts.antt =====
-- Texts as lists of code points: equality, the search for a separator, and decimal numbers as the
-- standard library prints and parses them (`format!("{}", n)`, `str::parse::<u16>`).
use Prim.Native.Nat.{ℕ, zero, suc, ◌+◌, ◌-◌, ◌*◌, ◌/◌, ◌%◌, ◌≤◌, ◌<◌}
use Prim.Native.Char.{code}
use Prim.Native.String.{String}
use mathlib.Core.Path.{◌≡◌, refl, ap, ◌∙◌}
use mathlib.Core.Logic.{◌↔◌, ◌≢◌, inl, inr}
use mathlib.Core.Bool.{Bool, true, false, ◌&&◌}
use mathlib.Core.Option.{Option, none, some}
use mathlib.Core.List.{List, [], ◌∷◌, ◌++◌}
use native.Mathlib.Omega.{arith}
use stream_gateway.Common.Tests.{ltb, leb, ◌==◌, if◌then◌else◌, Bool-cases, ltb→lt}

abbrev pub Text : Type 0
Text = List ℕ

-- The code points of a literal.
abbrev pub codes : String → Text
codes String.[] = []
codes (String.◌∷◌ letter text) = code letter ∷ codes text

unfoldable pub text_eq : Text → Text → Bool
text_eq [] [] = true
text_eq (x ∷ xs) (y ∷ ys) = x == y && text_eq xs ys
text_eq _ _ = false

pub text_eq_iff : (a b : Text) → (text_eq a b ≡ true) ↔ (a ≡ b)
unfolding text_eq
text_eq_iff (x ∷ a) (y ∷ b) = ground (arith, text_eq_iff a b)
text_eq_iff _ _ = ground arith

pub text_eq_refl : (a : Text) → text_eq a a ≡ true
text_eq_refl a = (text_eq_iff a a).1 refl

-- `str::is_empty`
abbrev pub is_empty : Text → Bool
is_empty [] = true
is_empty (c ∷ s) = false

-- `str::split` at a character: the first piece, and the list of the others.
unfoldable pub split : ℕ → Text → Text × List Text
split sep [] = ([], [])
split sep (c ∷ s) = let (p, ps) = split sep s in if c == sep then ([], p ∷ ps) else (c ∷ p, ps)

-- A character occurs nowhere in a text.
abbrev pub Avoids : ℕ → Text → Type 0
Avoids sep [] = Unit {0}
Avoids sep (c ∷ s) = (c ≢ sep) × Avoids sep s

pub split-Avoids : (sep : ℕ) (s : Text) → Avoids sep s → split sep s ≡ (s, [])
unfolding split
split-Avoids sep [] h = refl
split-Avoids sep (c ∷ s) h = ground (arith, split-Avoids sep s h.1)

-- A text up to the first separator is the first piece, and what follows is split on its own.
pub split-append :
    (sep : ℕ) (s t : Text)
    → Avoids sep s
    → split sep (s ++ sep ∷ t) ≡ (s, (split sep t).0 ∷ (split sep t).1)
unfolding split
split-append sep [] t h = ground arith
split-append sep (c ∷ s) t h = ground (arith, split-append sep s t h.1)

-- The digits of `n` before `rest`; the fuel is above `n`.
unfoldable pub digits_onto : ℕ → ℕ → Text → Text
digits_onto zero n rest = rest
digits_onto (suc f) n rest =
    let more = digits_onto f (n / 10) ((48 + n % 10) ∷ rest) in
    if ltb n 10 then (48 + n) ∷ rest else more

-- `format!("{}", n)` of an unsigned number.
unfoldable pub print_nat : ℕ → Text
unfolding digits_onto
print_nat n = digits_onto (suc n) n []

-- Decimal digits read from the left, with the check of a 16-bit overflow at each.
unfoldable pub digits_u16 : ℕ → Text → Option ℕ
digits_u16 n [] = some n
digits_u16 n (c ∷ s) =
    if leb 48 c && leb c 57 && leb (n * 10 + (c - 48)) 65535
    then digits_u16 (n * 10 + (c - 48)) s
    else none

-- `str::parse::<u16>().ok()`: digits, after at most one `+`.
unfoldable pub parse_u16 : Text → Option ℕ
unfolding digits_u16
parse_u16 [] = none
parse_u16 (c ∷ []) = digits_u16 0 (c ∷ [])
parse_u16 (c ∷ d ∷ s) = if c == 43 then digits_u16 0 (d ∷ s) else digits_u16 0 (c ∷ d ∷ s)

digits_u16-cons :
    (n d : ℕ) (s : Text)
    → d < 10
    → n * 10 + d ≤ 65535
    → digits_u16 n ((48 + d) ∷ s) ≡ digits_u16 (n * 10 + d) s
unfolding digits_u16
digits_u16-cons n d s hd h = ground arith

-- Reading the printed digits of `n` comes to the state `n`.
digits_u16-digits_onto :
    (f n : ℕ) (rest : Text)
    → n < f
    → n ≤ 65535
    → digits_u16 0 (digits_onto f n rest) ≡ digits_u16 n rest
unfolding digits_onto
digits_u16-digits_onto zero n rest h b = absurd (omega arith)
digits_u16-digits_onto (suc f) n rest h b = elim (Bool-cases (ltb n 10)) [
  | inl small ↦ rw small (
      digits_u16-cons 0 n rest (ltb→lt n 10 small) (omega arith)
      ∙ ap (λ (k : ℕ). digits_u16 k rest) (omega arith))
  | inr big ↦ rw big (
      digits_u16-digits_onto f (n / 10) ((48 + n % 10) ∷ rest) (ground arith) (omega arith)
      ∙ digits_u16-cons (n / 10) (n % 10) rest (omega arith) (omega arith)
      ∙ ap (λ (k : ℕ). digits_u16 k rest) (omega arith))
]

-- The first digit is no sign.
abbrev StartsWithDigit : Text → Type 0
StartsWithDigit [] = ⊥
StartsWithDigit (c ∷ s) = (48 ≤ c) × (c ≤ 57)

digits_onto-StartsWithDigit :
    (f n : ℕ) (rest : Text) → n < f → StartsWithDigit (digits_onto f n rest)
unfolding digits_onto
digits_onto-StartsWithDigit zero n rest h = absurd (omega arith)
digits_onto-StartsWithDigit (suc f) n rest h = elim (Bool-cases (ltb n 10)) [
  | inl small ↦ rw small (ground arith)
  | inr big ↦ rw big (digits_onto-StartsWithDigit f (n / 10) ((48 + n % 10) ∷ rest) (ground arith))
]

parse_u16-digits_u16 : (s : Text) → StartsWithDigit s → parse_u16 s ≡ digits_u16 0 s
unfolding parse_u16
parse_u16-digits_u16 [] h = absurd h
parse_u16-digits_u16 (c ∷ []) h = refl
parse_u16-digits_u16 (c ∷ d ∷ s) h = ground arith

-- What is printed of a 16-bit number is parsed back.
pub parse_u16-print_nat : (n : ℕ) → n ≤ 65535 → parse_u16 (print_nat n) ≡ some n
unfolding print_nat digits_u16
parse_u16-print_nat n h =
    parse_u16-digits_u16 _ (digits_onto-StartsWithDigit (suc n) n [] (omega arith))
    ∙ digits_u16-digits_onto (suc n) n [] (omega arith) h

digits_onto-Avoids : (f n : ℕ) (rest : Text) → Avoids 58 rest → Avoids 58 (digits_onto f n rest)
unfolding digits_onto
digits_onto-Avoids zero n rest h = h
digits_onto-Avoids (suc f) n rest h = elim (Bool-cases (ltb n 10)) [
  | inl small ↦ rw small (ground arith)
  | inr big ↦ rw big (digits_onto-Avoids f (n / 10) ((48 + n % 10) ∷ rest) (ground arith))
]

pub print_nat-Avoids : (n : ℕ) → Avoids 58 (print_nat n)
unfolding print_nat
print_nat-Avoids n = digits_onto-Avoids (suc n) n [] tt

print_nat_test : print_nat 10500 ≡ codes "10500"
unfolding print_nat
print_nat_test = refl

split_test : split 58 (codes "1.2.3.4:80") ≡ (codes "1.2.3.4", codes "80" ∷ [])
unfolding split
split_test = refl
