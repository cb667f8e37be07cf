-- ===== src/Worker/Adapter/Naming.antt =====
-- The names of containers and workspaces (pkg/worker/runtime/base.go, Sanitize).
use Prim.Native.Char.{Char, code}
use Prim.Native.String.{[], ◌∷◌}
use native.Mathlib.Decide.{dec_le}
use mathlib.Core.Logic.{dif_neg}
use nano_cloud.Base.{
  ℕ, ◌<◌, String, Bool, true, false, ◌≡◌, ◌≢◌, refl, ap, arith, ◌==◌, eq_iff, leb, Bool-cases, inl,
  inr, ◌⊎◌,
}
use nano_cloud.Base.Text.{to_lower, lower_char, apart}
use nano_cloud.Base.Text.Decimal.{all_chars, map_chars, keep_chars}
use nano_cloud.Worker.Adapter.{dash_for, is_name_char, sanitize}

keep_chars-all : (p : Char → Bool) (s : String) → all_chars p (keep_chars p s) ≡ true
unfolding all_chars keep_chars
keep_chars-all p [] = refl
keep_chars-all p (c ∷ s) = ground (arith, keep_chars-all p s)

keep_chars_fixed : (p : Char → Bool) (s : String) → all_chars p s ≡ true → keep_chars p s ≡ s
unfolding all_chars keep_chars
keep_chars_fixed p [] all = refl
keep_chars_fixed p (c ∷ s) all =
    let here : p c ≡ true = ground arith in
    rw here (ap (λ rest. c ∷ rest) (keep_chars_fixed p s (ground arith)))

map_chars_fixed :
    (p : Char → Bool) (f : Char → Char) (s : String)
    → ((c : Char) → p c ≡ true → f c ≡ c)
    → all_chars p s ≡ true
    → map_chars f s ≡ s
unfolding all_chars map_chars
map_chars_fixed p f [] fixes all = refl
map_chars_fixed p f (c ∷ s) fixes all =
    rw (fixes c (ground arith)) (ap (λ rest. c ∷ rest) (map_chars_fixed p f s fixes (ground arith)))

lower_char_fixed : (c : Char) → is_name_char c ≡ true → lower_char c ≡ c
unfolding lower_char is_name_char
lower_char_fixed c named = elim (Bool-cases (leb 65 (code c))) [
  | inl high ↦ rw high (dif_neg (dec_le (code c) 90) (λ low. ground (arith, low)) _ _)
  | inr low ↦ rw low refl
]

to_lower_fixed : (s : String) → all_chars is_name_char s ≡ true → to_lower s ≡ s
unfolding to_lower all_chars
to_lower_fixed [] all = refl
to_lower_fixed (c ∷ s) all =
    rw (lower_char_fixed c (ground arith)) (ap (λ rest. c ∷ rest) (to_lower_fixed s (ground arith)))

dash_for_fixed :
    (n : ℕ)
    → (n < 45) ⊎ ((45 < n) × (n < 48)) ⊎ ((57 < n) × (n < 95))
    → (c : Char) → is_name_char c ≡ true
    → dash_for n c ≡ c
unfolding dash_for is_name_char
dash_for_fixed n gap c named = ground (arith, gap)

-- the dashes and the filter of `sanitize`, in their order
dashed : String → String
dashed s =
    map_chars (dash_for 46)
      (map_chars (dash_for 58) (map_chars (dash_for 47) (map_chars (dash_for 32) (to_lower s))))

dashed_fixed : (s : String) → all_chars is_name_char s ≡ true → dashed s ≡ s
unfolding dashed
dashed_fixed s all = rw (to_lower_fixed s all) (
    rw (map_chars_fixed is_name_char (dash_for 32) s (dash_for_fixed 32 (inl (omega arith))) all) (
      rw
        (map_chars_fixed is_name_char (dash_for 47) s
          (dash_for_fixed 47 (inr (inl (omega arith, omega arith)))) all)
        (rw
          (map_chars_fixed is_name_char (dash_for 58) s
            (dash_for_fixed 58 (inr (inr (omega arith, omega arith)))) all)
          (map_chars_fixed is_name_char (dash_for 46) s
            (dash_for_fixed 46 (inr (inl (omega arith, omega arith)))) all))))

x_is_name : all_chars is_name_char "x" ≡ true
unfolding all_chars is_name_char
x_is_name = refl

sanitize_safe : (s : String) → (all_chars is_name_char (sanitize s) ≡ true) × (sanitize s ≢ "")
unfolding sanitize dashed
sanitize_safe s =
    let out = keep_chars is_name_char (dashed s) in
    elim (Bool-cases (out == "")) [
      | inl none_left ↦ rw none_left (x_is_name, apart "x" "" refl)
      | inr left ↦ rw left (keep_chars-all is_name_char (dashed s), apart out "" left)
    ]

sanitize_fixed : (s : String) → all_chars is_name_char s ≡ true → s ≢ "" → sanitize s ≡ s
unfolding sanitize dashed
sanitize_fixed s all there =
    let same : keep_chars is_name_char (dashed s) ≡ s =
      rw (dashed_fixed s all) (keep_chars_fixed is_name_char s all) in
    let left : (s == "") ≡ false = ground (arith, eq_iff s "") in rw same (rw left refl)

-- Whatever the text, its sanitized form is not empty and has only a to z, 0 to 9, dashes and
-- underscores, so that it is one component of a path, and sanitizing it again changes nothing.
pub sanitize_lem :
    (s : String)
    → (all_chars is_name_char (sanitize s) ≡ true)
      × (sanitize s ≢ "")
      × (sanitize (sanitize s) ≡ sanitize s)
sanitize_lem s =
    let (all, there) = sanitize_safe s in (all, there, sanitize_fixed (sanitize s) all there)
