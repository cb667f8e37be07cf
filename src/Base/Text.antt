-- ===== src/Base/Text.antt =====
-- The parts of Go's package strings that the program uses, over the native `String`.
pub mod Affix
pub mod Decimal
use Prim.Native.Nat.{ℕ, ◌+◌, ◌≤◌, compare, Ordering}
use Prim.Native.Char.{Char, char, code, IsScalar}
use Prim.Native.String.{String, [], ◌∷◌}
use mathlib.Core.Path.{◌≡◌, refl, sym, ◌∙◌}
use mathlib.Core.Logic.{◌≢◌, dite}
use mathlib.Core.Bool.{Bool, true, false, ◌&&◌, ◌||◌}
use native.Mathlib.Omega.{arith}
use native.Mathlib.Decide.{dec_le}
use text.Mathlib.Text.{◌==◌}
use text.Mathlib.TextEquality.{eq_iff}
use text.Mathlib.TextLemmas.{cons≢nil}
use mathlib.Core.Logic.{inl, inr}
use nano_cloud.Base.Tests.{Bool-cases}
use nano_cloud.Base.Tests.{leb, nat_eq, if◌then◌else◌}

-- unicode.IsSpace
abbrev pub is_space : Char → Bool
is_space c =
    let n = code c in
    leb 9 n && leb n 13
    || nat_eq n 32
    || nat_eq n 0x85
    || nat_eq n 0xa0
    || nat_eq n 0x1680
    || leb 0x2000 n && leb n 0x200a
    || nat_eq n 0x2028
    || nat_eq n 0x2029
    || nat_eq n 0x202f
    || nat_eq n 0x205f
    || nat_eq n 0x3000

pub IsScalar-small : (n : ℕ) → n ≤ 200 → IsScalar n
IsScalar-small n h = let e : compare n 55296 ≡ Ordering.lt = ground arith in rw e tt

-- unicode.ToLower at the letters A to Z; the other characters are kept
unfoldable pub lower_char : Char → Char
lower_char c =
    if leb 65 (code c)
    then dite (dec_le (code c) 90)
        (λ h. char (code c + 32) (IsScalar-small (code c + 32) (omega arith))) (λ _. c)
    else c

-- strings.ToLower
unfoldable pub to_lower : String → String
unfolding dec_le lower_char
to_lower [] = []
to_lower (c ∷ s) = lower_char c ∷ to_lower s

unfoldable pub trim_left : String → String
trim_left [] = []
trim_left (c ∷ s) = if is_space c then trim_left s else c ∷ s

unfoldable pub trim_right : String → String
trim_right [] = []
trim_right (c ∷ s) = let r = trim_right s in if r == "" && is_space c then "" else c ∷ r

-- strings.TrimSpace
unfoldable pub trim_space : String → String
unfolding trim_left trim_right
trim_space s = trim_right (trim_left s)

-- strings.HasPrefix, with the prefix first
unfoldable pub has_prefix : String → String → Bool
has_prefix [] s = true
has_prefix (p ∷ ps) [] = false
has_prefix (p ∷ ps) (c ∷ s) = nat_eq (code p) (code c) && has_prefix ps s

-- strings.TrimPrefix
unfoldable pub trim_prefix : String → String → String
unfolding has_prefix
trim_prefix [] s = s
trim_prefix (p ∷ ps) [] = ""
trim_prefix (p ∷ ps) (c ∷ s) =
    let rest = trim_prefix ps s in if has_prefix (p ∷ ps) (c ∷ s) then rest else c ∷ s

-- strings.HasSuffix, with the suffix first
unfoldable pub has_suffix : String → String → Bool
has_suffix t [] = t == ""
has_suffix t (c ∷ s) = t == c ∷ s || has_suffix t s

-- Go's `<` on strings: by bytes, which for UTF-8 is by code points
unfoldable pub text_lt : String → String → Bool
text_lt [] [] = false
text_lt [] (c ∷ t) = true
text_lt (c ∷ s) [] = false
text_lt (c ∷ s) (d ∷ t) =
    let rest = text_lt s t in if nat_eq (code c) (code d) then rest else leb (code c) (code d)

pub text_lt-asym : (s t : String) → text_lt s t ≡ true → text_lt t s ≡ false
unfolding text_lt
text_lt-asym [] [] h = refl
text_lt-asym [] (c ∷ t) h = refl
text_lt-asym (c ∷ s) [] h = cc
text_lt-asym (c ∷ s) (d ∷ t) h = ground (arith, text_lt-asym s t)

pub cons-eq-empty : (c : Char) (s : String) → (c ∷ s == "") ≡ false
cons-eq-empty c s = elim (Bool-cases (c ∷ s == "")) [
  | inl same ↦ absurd (cons≢nil ((eq_iff (c ∷ s) "").0 same))
  | inr other ↦ other
]

pub to_lower-empty : (s : String) → (to_lower s == "") ≡ (s == "")
unfolding to_lower
to_lower-empty [] = refl
to_lower-empty (c ∷ s) = cons-eq-empty _ (to_lower s) ∙ sym (cons-eq-empty c s)

-- texts that compare as different
pub apart : (s t : String) → (s == t) ≡ false → s ≢ t
apart s t other = ground (arith, eq_iff s t)
