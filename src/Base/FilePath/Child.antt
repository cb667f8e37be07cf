-- ===== src/Base/FilePath/Child.antt =====
-- A path joined with one more component.
use Prim.Native.String
use Prim.Native.Nat.{ℕ}
use Prim.Native.Char.{Char, code}
use Prim.Native.String.{String}
use mathlib.Core.Path.{◌≡◌, refl, ap, ◌∙◌}
use mathlib.Core.Logic.{◌≢◌, inl, inr}
use mathlib.Core.Bool.{Bool, true, false, not}
use mathlib.Core.List.{List, [], ◌∷◌, ◌++◌, reverse-append}
use native.Mathlib.Omega.{arith}
use text.Mathlib.Text.{◌==◌}
use text.Mathlib.TextEquality.{eq_iff}
use text.Mathlib.TextLemmas.{nil-append, cons-append}
use nano_cloud.Base.Tests.{nat_eq, Bool-cases}
use nano_cloud.Base.Text.{apart}
use nano_cloud.Base.Text.Decimal.{all_chars}
use nano_cloud.Base.FilePath.{
  add_char, split_char, push_part, push_parts, FilePath, is_rooted, path_of, path_text, clean, join,
}

split_char-cons :
    (n : ℕ) (s : String) → (first : String) × (rest : List String) × (split_char n s ≡ first ∷ rest)
unfolding split_char
split_char-cons n String.[] = ("", [], refl)
split_char-cons n (String.◌∷◌ c s) = elim (Bool-cases (nat_eq (code c) n)) [
  | inl here ↦ ("", split_char n s, rw here refl)
  | inr there ↦
      let (first, rest, cut) = split_char-cons n s in
      (String.◌∷◌ c first, rest, rw (there, cut) refl)
]

add_char-append :
    (b : Bool) (c : Char) (first : String) (rest more : List String)
    → add_char b c (first ∷ rest ++ more) ≡ add_char b c (first ∷ rest) ++ more
unfolding add_char
add_char-append true c first rest more = refl
add_char-append false c first rest more = refl

split_char_step :
    (n : ℕ) (c : Char) (s : String)
    → split_char n (String.◌∷◌ c s) ≡ add_char (nat_eq (code c) n) c (split_char n s)
unfolding split_char
split_char_step n c s = refl

pub split_char-append :
    (n : ℕ) (sep : Char) (a b : String)
    → code sep ≡ n
    → split_char n (String.◌++◌ a (String.◌∷◌ sep b)) ≡ split_char n a ++ split_char n b
split_char-append n sep String.[] b same = rw nil-append (unfold split_char in ground (arith, same))
split_char-append n sep (String.◌∷◌ c a) b same =
    let (first, rest, cut) = split_char-cons n a in
    rw (cons-append, split_char_step, split_char-append n sep a b same, split_char_step, cut)
      (add_char-append (nat_eq (code c) n) c first rest (split_char n b))

pub split_char-single :
    (n : ℕ) (s : String)
    → all_chars (λ c. not (nat_eq (code c) n)) s ≡ true
    → split_char n s ≡ s ∷ []
unfolding split_char all_chars
split_char-single n String.[] free = refl
split_char-single n (String.◌∷◌ c s) free =
    let here : nat_eq (code c) n ≡ false = ground (arith, free) in
    rw (here, split_char-single n s (ground (arith, free))) refl

push_parts-append :
    (rooted : Bool) (done xs ys : List String)
    → push_parts rooted done (xs ++ ys) ≡ push_parts rooted (push_parts rooted done xs) ys
unfolding push_parts
push_parts-append rooted done [] ys = refl
push_parts-append rooted done (x ∷ xs) ys = push_parts-append rooted (push_part rooted done x) xs ys

-- one component that is no special name
abbrev pub IsName : String → Type 0
IsName s = (all_chars (λ c. not (nat_eq (code c) 47)) s ≡ true) × (s ≢ "") × (s ≢ ".") × (s ≢ "..")

push_part-name :
    (rooted : Bool) (done : List String) (s : String)
    → IsName s
    → push_part rooted done s ≡ s ∷ done
unfolding push_part
push_part-name rooted done s (_, filled, no_dot, no_up) =
    ground (arith, eq_iff s "", eq_iff s ".", eq_iff s "..")

abbrev pub child : FilePath → String → FilePath
child p s = record p { parts = p.parts ++ s ∷ [] }

is_rooted-append : (a b : String) → a ≢ "" → is_rooted (String.◌++◌ a b) ≡ is_rooted a
unfolding is_rooted
is_rooted-append String.[] b filled = absurd (filled refl)
is_rooted-append (String.◌∷◌ c a) b filled = rw cons-append refl

abbrev slash : Char
slash = "/"

slash-append : (s : String) → String.◌++◌ "/" s ≡ String.◌∷◌ slash s
slash-append s = cons-append slash "" s ∙ ap (String.◌∷◌ slash) (nil-append s)

split_path-child :
    (a s : String)
    → IsName s
    → split_char 47 (String.◌++◌ a (String.◌++◌ "/" s)) ≡ split_char 47 a ++ s ∷ []
split_path-child a s named =
    rw (slash-append s, split_char-append 47 slash a s refl, split_char-single 47 s named.0) refl

push_path-child :
    (rooted : Bool) (a s : String)
    → IsName s
    → push_parts rooted [] (split_char 47 (String.◌++◌ a (String.◌++◌ "/" s)))
      ≡ s ∷ push_parts rooted [] (split_char 47 a)
push_path-child rooted a s named =
    ap (push_parts rooted []) (split_path-child a s named)
    ∙ push_parts-append rooted [] (split_char 47 a) (s ∷ [])
    ∙ unfold push_parts in push_part-name rooted (push_parts rooted [] (split_char 47 a)) s named

path_of-child :
    (a s : String)
    → a ≢ ""
    → IsName s
    → path_of (String.◌++◌ a (String.◌++◌ "/" s)) ≡ child (path_of a) s
unfolding path_of
path_of-child a s filled named =
    let root : is_rooted (String.◌++◌ a (String.◌++◌ "/" s)) ≡ is_rooted a =
      is_rooted-append a _ filled in
    rw (root, push_path-child (is_rooted a) a s named)
      (ap (λ parts. record { rooted = is_rooted a; parts = parts })
        (reverse-append (s ∷ []) (push_parts (is_rooted a) [] (split_char 47 a))))

is_rooted-name : (s : String) → IsName s → is_rooted s ≡ false
unfolding is_rooted all_chars
is_rooted-name String.[] named = refl
is_rooted-name (String.◌∷◌ c s) named = ground (arith, named.0)

path_of-name : (s : String) → IsName s → path_of s ≡ child (path_of "") s
unfolding path_of split_char push_parts push_part
path_of-name s named =
    rw (is_rooted-name s named, split_char-single 47 s named.0, push_part-name false [] s named)
      refl

-- Joining a path with a name adds the name as its last component.
pub join-name : (a s : String) → IsName s → join a s ≡ path_text (child (path_of a) s)
unfolding join
join-name a s named =
    let some_name : (s == "") ≡ false = ground (arith, eq_iff s "", named.1) in
    elim (Bool-cases (a == "")) [
      | inl empty ↦
          rw (empty, some_name, (eq_iff a "").0 empty)
            (unfold clean in ap path_text (path_of-name s named))
      | inr filled ↦
          rw (filled, some_name)
            (unfold clean in ap path_text (path_of-child a s (apart a "" filled) named))
    ]
