-- ===== src/Base/Text/Affix.antt =====
-- HasPrefix, TrimPrefix and HasSuffix against concatenation.
use Prim.Native.Char.{Char, code}
use Prim.Native.String.{String, [], ◌∷◌, ◌++◌}
use mathlib.Core.Path.{◌≡◌, refl, ap}
use mathlib.Core.Logic.{inl, inr}
use mathlib.Core.Bool.{true}
use native.Mathlib.Omega.{arith}
use text.Mathlib.Text.{◌==◌}
use text.Mathlib.TextEquality.{eq_iff, Char-path}
use text.Mathlib.TextPositions.{eq_refl}
use text.Mathlib.TextLemmas.{nil-append, cons-append}
use nano_cloud.Base.Tests.{Bool-cases}
use nano_cloud.Base.Text.{has_prefix, trim_prefix, has_suffix}

pub has_prefix-append : (p s : String) → has_prefix p (p ++ s) ≡ true
unfolding has_prefix
has_prefix-append [] s = refl
has_prefix-append (c ∷ p) s = rw cons-append (ground (arith, has_prefix-append p s))

pub trim_prefix-append : (p s : String) → trim_prefix p (p ++ s) ≡ s
unfolding trim_prefix
trim_prefix-append [] s = nil-append s
trim_prefix-append (c ∷ p) s =
    rw cons-append (ground (arith, has_prefix-append p s, trim_prefix-append p s))

trim_prefix_step :
    (c d : Char) (p s : String)
    → has_prefix (c ∷ p) (d ∷ s) ≡ true
    → (code c ≡ code d) × (has_prefix p s ≡ true) × (trim_prefix (c ∷ p) (d ∷ s) ≡ trim_prefix p s)
unfolding trim_prefix
trim_prefix_step c d p s h = ground arith

pub append-trim_prefix : (p s : String) → has_prefix p s ≡ true → p ++ trim_prefix p s ≡ s
append-trim_prefix [] s h = unfold trim_prefix in nil-append s
append-trim_prefix (c ∷ p) [] h = unfold has_prefix in cc
append-trim_prefix (c ∷ p) (d ∷ s) h =
    let (same, later, trimmed) = trim_prefix_step c d p s h in
    cc
      (trimmed, cons-append c p (trim_prefix p s), Char-path c d same, append-trim_prefix p s later)

has_suffix_refl : (t : String) → has_suffix t t ≡ true
unfolding has_suffix
has_suffix_refl [] = refl
has_suffix_refl (c ∷ t) = rw eq_refl refl

has_suffix-cons :
    (t : String) (c : Char) (s : String) → has_suffix t s ≡ true → has_suffix t (c ∷ s) ≡ true
unfolding has_suffix
has_suffix-cons t c s h = ground arith

pub has_suffix-append : (s t : String) → has_suffix t (s ++ t) ≡ true
has_suffix-append [] t = rw nil-append (has_suffix_refl t)
has_suffix-append (c ∷ s) t = rw cons-append (has_suffix-cons t c (s ++ t) (has_suffix-append s t))

pub has_suffix-eq-true : (t s : String) → has_suffix t s ≡ true → (pre : String) × (s ≡ pre ++ t)
unfolding has_suffix
has_suffix-eq-true t [] h = ("", rw (nil-append, (eq_iff t "").0 h) refl)
has_suffix-eq-true t (c ∷ s) h = elim (Bool-cases (t == c ∷ s)) [
  | inl same ↦ ("", rw (nil-append, (eq_iff t (c ∷ s)).0 same) refl)
  | inr other ↦
      let (pre, e) = has_suffix-eq-true t s (ground arith) in
      (c ∷ pre, rw cons-append (ap (λ r. c ∷ r) e))
]
