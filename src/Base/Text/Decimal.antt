-- ===== src/Base/Text/Decimal.antt =====
-- Decimal numerals (Go's `%d` at numbers that are not negative), and texts changed by characters.
use Prim.Native.Nat.{ℕ, zero, suc, ◌+◌, ◌-◌, ◌*◌, ◌/◌, ◌%◌, ◌≤◌}
use Prim.Native.Char.{Char, char, code}
use Prim.Native.String.{String, [], ◌∷◌}
use mathlib.Core.Path.{◌≡◌, refl, ap, ◌∙◌}
use mathlib.Core.Logic.{inl, inr}
use mathlib.Core.Bool.{Bool, true, ◌&&◌}
use mathlib.Core.Option.{Option, none, some}
use native.Mathlib.Omega.{arith}
use nano_cloud.Base.Tests.{ltb, nat_eq, if◌then◌else◌, Bool-cases}
use nano_cloud.Base.Text.{IsScalar-small}

unfoldable pub digit : ℕ → Char
digit n = char (48 + n % 10) (IsScalar-small (48 + n % 10) (omega arith))

-- the digits in front of `acc`; each round takes one off, so that the number itself is fuel enough
digits : ℕ → ℕ → String → String
digits zero n acc = digit n ∷ acc
digits (suc fuel) n acc =
    let more = digits fuel (n / 10) (digit n ∷ acc) in if ltb n 10 then digit n ∷ acc else more

unfoldable pub decimal : ℕ → String
unfolding digits digit
decimal n = digits n n ""

-- the number that a numeral stands for, read after the number `a`
value : String → ℕ → ℕ
value [] a = a
value (c ∷ s) a = value s (a * 10 + (code c - 48))

value-digit : (n a : ℕ) (s : String) → value (digit n ∷ s) a ≡ value s (a * 10 + n % 10)
unfolding value digit
value-digit n a s = ap (value s) (omega arith)

value-digits : (fuel n : ℕ) (acc : String) → n ≤ fuel → value (digits fuel n acc) 0 ≡ value acc n
unfolding digits
value-digits zero n acc enough = value-digit n 0 acc ∙ ap (value acc) (omega arith)
value-digits (suc fuel) n acc enough = elim (Bool-cases (ltb n 10)) [
  | inl small ↦ rw small (value-digit n 0 acc ∙ ap (value acc) (ground (arith, small)))
  | inr large ↦ rw large (
      value-digits fuel (n / 10) (digit n ∷ acc) (ground (arith, large))
      ∙ value-digit n (n / 10) acc
      ∙ ap (value acc) (omega arith))
]

-- The numeral of a number stands for that number, so that the rounds suffice.
value-decimal : (n : ℕ) → value (decimal n) 0 ≡ n
unfolding decimal value
value-decimal n = value-digits n n "" (omega arith)

unfoldable pub map_chars : (Char → Char) → String → String
map_chars f [] = []
map_chars f (c ∷ s) = f c ∷ map_chars f s

unfoldable pub keep_chars : (Char → Bool) → String → String
keep_chars p [] = []
keep_chars p (c ∷ s) = let rest = keep_chars p s in if p c then c ∷ rest else rest

-- the texts before and after the first such character, `none` where there is none
unfoldable pub cut_char : ℕ → String → Option (String × String)
cut_char n [] = none
cut_char n (c ∷ s) =
    let rest = cut_char n s in
    if nat_eq (code c) n
    then some ("", s)
    else elim rest [ none ↦ none | some (key, val) ↦ some (c ∷ key, val) ]

-- every character passes the test
unfoldable pub all_chars : (Char → Bool) → String → Bool
all_chars p [] = true
all_chars p (c ∷ s) = p c && all_chars p s

-- strings.TrimLeft with one character, by its code
unfoldable pub trim_left_char : ℕ → String → String
trim_left_char n [] = []
trim_left_char n (c ∷ s) =
    let rest = trim_left_char n s in if nat_eq (code c) n then rest else c ∷ s

-- strings.TrimRight with one character, by its code
unfoldable pub trim_right_char : ℕ → String → String
trim_right_char n [] = []
trim_right_char n (c ∷ s) = go (nat_eq (code c) n) c (trim_right_char n s)
  where
    go : Bool → Char → String → String
    go true c [] = []
    go b c rest = c ∷ rest

decimal_small : decimal 1234567 ≡ "1234567"
unfolding decimal
decimal_small = refl
