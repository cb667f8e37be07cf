-- ===== src/Base/HostPort/RoundTrip.antt =====
-- An address that net.JoinHostPort has written is read again by net.SplitHostPort.
use Prim.Native.String
use Prim.Native.Char.{Char, code}
use Prim.Native.String.{String}
use Prim.Native.Nat.{ℕ}
use mathlib.Core.Path.{◌≡◌, refl, ◌∙◌}
use mathlib.Core.Logic.{◌⊎◌, inl, inr}
use mathlib.Core.Bool.{true, false}
use mathlib.Core.Option.{none, some}
use native.Mathlib.Omega.{arith}
use text.Mathlib.TextLemmas.{nil-append, cons-append}
use nano_cloud.Base.Tests.{nat_eq, Bool-cases, Option-cases}
use nano_cloud.Base.Text.Decimal.{cut_char}
use nano_cloud.Base.HostPort.{
  lacks, join_host_port, cut_last, is_plain, bracketed, unbracketed, split_host_port,
}

cut_last-lacks : (n : ℕ) (s : String) → lacks n s ≡ true → cut_last n s ≡ none
unfolding cut_last lacks
cut_last-lacks n String.[] free = refl
cut_last-lacks n (String.◌∷◌ c s) free =
    rw (cut_last-lacks n s (ground (arith, free))) (ground (arith, free))

cut_last-cons :
    (n : ℕ) (c : Char) (s a b : String)
    → cut_last n s ≡ some (a, b)
    → cut_last n (String.◌∷◌ c s) ≡ some (String.◌∷◌ c a, b)
unfolding cut_last
cut_last-cons n c s a b cut = rw cut refl

cut_last_here :
    (n : ℕ) (c : Char) (s : String)
    → code c ≡ n
    → lacks n s ≡ true
    → cut_last n (String.◌∷◌ c s) ≡ some ("", s)
unfolding cut_last
cut_last_here n c s same free = rw (cut_last-lacks n s free) (ground (arith, same))

cut_last-append :
    (n : ℕ) (sep : Char) (a b : String)
    → code sep ≡ n
    → lacks n b ≡ true
    → cut_last n (String.◌++◌ a (String.◌∷◌ sep b)) ≡ some (a, b)
cut_last-append n sep String.[] b same free = rw nil-append (cut_last_here n sep b same free)
cut_last-append n sep (String.◌∷◌ c a) b same free =
    rw cons-append (cut_last-cons n c _ a b (cut_last-append n sep a b same free))

lacks_step :
    (n : ℕ) (c : Char) (s : String)
    → nat_eq (code c) n ≡ false
    → lacks n s ≡ true
    → lacks n (String.◌∷◌ c s) ≡ true
unfolding lacks
lacks_step n c s other free = ground (arith, other, free)

cut_last_split :
    (n : ℕ) (c : Char) (s a b : String)
    → cut_last n (String.◌∷◌ c s) ≡ some (a, b)
    → ((first : String) × (cut_last n s ≡ some (first, b))) ⊎ ((cut_last n s ≡ none) × (b ≡ s))
unfolding cut_last
cut_last_split n c s a b cut = elim (Option-cases (cut_last n s)) [
  | inl absent ↦ inr (absent, ground (arith, cut, absent))
  | inr ((first, after), found) ↦ inl (first, found ∙ ground (arith, cut, found))
]

cut_last-none_step :
    (n : ℕ) (c : Char) (s : String)
    → cut_last n (String.◌∷◌ c s) ≡ none
    → (nat_eq (code c) n ≡ false) × (cut_last n s ≡ none)
unfolding cut_last
cut_last-none_step n c s cut = elim (Option-cases (cut_last n s)) [
  | inl absent ↦ (ground (arith, cut, absent), absent)
  | inr ((first, after), found) ↦ absurd (ground (arith, cut, found))
]

cut_last-none : (n : ℕ) (s : String) → cut_last n s ≡ none → lacks n s ≡ true
cut_last-none n String.[] cut = unfold lacks in refl
cut_last-none n (String.◌∷◌ c s) cut =
    let (other, absent) = cut_last-none_step n c s cut in
    lacks_step n c s other (cut_last-none n s absent)

-- the part behind the last such character has none
cut_last_after : (n : ℕ) (s a b : String) → cut_last n s ≡ some (a, b) → lacks n b ≡ true
cut_last_after n String.[] a b cut = unfold cut_last in cc
cut_last_after n (String.◌∷◌ c s) a b cut = elim (cut_last_split n c s a b cut) [
  | inl (first, found) ↦ cut_last_after n s first b found
  | inr (absent, same) ↦ rw same (cut_last-none n s absent)
]

cut_char_here :
    (n : ℕ) (c : Char) (s : String) → code c ≡ n → cut_char n (String.◌∷◌ c s) ≡ some ("", s)
unfolding cut_char
cut_char_here n c s same = ground (arith, same)

cut_char-cons :
    (n : ℕ) (c : Char) (s a b : String)
    → nat_eq (code c) n ≡ false
    → cut_char n s ≡ some (a, b)
    → cut_char n (String.◌∷◌ c s) ≡ some (String.◌∷◌ c a, b)
unfolding cut_char
cut_char-cons n c s a b other cut = rw (other, cut) refl

lacks-cons :
    (n : ℕ) (c : Char) (s : String)
    → lacks n (String.◌∷◌ c s) ≡ true
    → (nat_eq (code c) n ≡ false) × (lacks n s ≡ true)
unfolding lacks
lacks-cons n c s free = (ground (arith, free), ground (arith, free))

cut_char-append :
    (n : ℕ) (sep : Char) (a b : String)
    → code sep ≡ n
    → lacks n a ≡ true
    → cut_char n (String.◌++◌ a (String.◌∷◌ sep b)) ≡ some (a, b)
cut_char-append n sep String.[] b same free = rw nil-append (cut_char_here n sep b same)
cut_char-append n sep (String.◌∷◌ c a) b same free =
    let (other, rest) = lacks-cons n c a free in
    rw cons-append (cut_char-cons n c _ a b other (cut_char-append n sep a b same rest))

cut_char_split :
    (n : ℕ) (c : Char) (s a b : String)
    → cut_char n (String.◌∷◌ c s) ≡ some (a, b)
    → (a ≡ "")
      ⊎ ((first : String) × (nat_eq (code c) n ≡ false)
          × (cut_char n s ≡ some (first, b))
          × (a ≡ String.◌∷◌ c first))
unfolding cut_char
cut_char_split n c s a b cut = elim (Bool-cases (nat_eq (code c) n)) [
  | inl here ↦ inl (ground (arith, cut, here))
  | inr other ↦ elim (Option-cases (cut_char n s)) [
    | inl absent ↦ absurd (ground (arith, cut, other, absent))
    | inr ((first, after), found) ↦
        inr (
          first,
          other,
          found ∙ ground (arith, cut, other, found),
          ground (arith, cut, other, found),
        )
  ]
]

-- the part in front of the first such character has none
cut_char_before : (n : ℕ) (s a b : String) → cut_char n s ≡ some (a, b) → lacks n a ≡ true
cut_char_before n String.[] a b cut = unfold cut_char in cc
cut_char_before n (String.◌∷◌ c s) a b cut = elim (cut_char_split n c s a b cut) [
  | inl empty ↦ rw empty (unfold lacks in refl)
  | inr (first, other, found, same) ↦
      rw same (lacks_step n c first other (cut_char_before n s first b found))
]

split-plain :
    (host port : String)
    → is_plain host ≡ true
    → is_plain port ≡ true
    → lacks 58 host ≡ true
    → lacks 58 port ≡ true
    → split_host_port (String.◌++◌ host (String.◌∷◌ ":" port)) ≡ some (host, port)
split-plain String.[] port h p no_colon free = rw nil-append (
    unfold split_host_port is_plain lacks in
    rw (cut_last_here 58 ":" port refl free) (ground (arith, p)))
split-plain (String.◌∷◌ c host) port h p no_colon free =
    let found = cut_last-cons 58 c _ host port (cut_last-append 58 ":" host port refl free) in
    let (_, _) = lacks-cons 58 c host no_colon in
    rw cons-append
      (unfold split_host_port is_plain lacks in rw found (ground (arith, h, p, no_colon)))

-- no bracket in either part, and no colon in the port
abbrev pub AreParts : String → String → Type 0
AreParts host port = (is_plain host ≡ true) × (is_plain port ≡ true) × (lacks 58 port ≡ true)

bracketed-AreParts :
    (h after host port : String)
    → lacks 93 h ≡ true
    → bracketed h after ≡ some (host, port)
    → AreParts host port
unfolding bracketed is_plain
bracketed-AreParts h String.[] host port free cut = cc
bracketed-AreParts h (String.◌∷◌ c p) host port free cut =
    (ground (arith, cut, free), ground (arith, cut), ground (arith, cut))

unbracketed-AreParts :
    (h p host port : String)
    → unbracketed (some (h, p)) ≡ some (host, port)
    → lacks 58 p ≡ true
    → AreParts host port
unfolding unbracketed is_plain
unbracketed-AreParts h p host port cut free =
    (ground (arith, cut), ground (arith, cut), ground (arith, cut, free))

-- what SplitHostPort gives
pub split-AreParts :
    (s host port : String) → split_host_port s ≡ some (host, port) → AreParts host port
split-AreParts String.[] host port cut = unfold split_host_port in cc
split-AreParts (String.◌∷◌ c s) host port cut = elim (Bool-cases (nat_eq (code c) 91)) [
  | inl opened ↦ elim (Option-cases (cut_char 93 s)) [
    | inl absent ↦ absurd (unfold split_host_port in ground (arith, cut, opened, absent))
    | inr ((h, after), found) ↦
        bracketed-AreParts h after host port (cut_char_before 93 s h after found)
          (unfold split_host_port in ground (arith, cut, opened, found))
  ]
  | inr other ↦ elim (Option-cases (cut_last 58 (String.◌∷◌ c s))) [
    | inl absent ↦ absurd (unfold split_host_port in ground (arith, cut, other, absent))
    | inr ((h, p), found) ↦
        unbracketed-AreParts h p host port
          (unfold split_host_port in ground (arith, cut, other, found))
          (cut_last_after 58 (String.◌∷◌ c s) h p found)
  ]
]

split-brackets :
    (host port : String)
    → AreParts host port
    → split_host_port (String.◌∷◌ "[" (String.◌++◌ host (String.◌∷◌ "]" (String.◌∷◌ ":" port))))
      ≡ some (host, port)
split-brackets host port (h, p, free) =
    let inside : lacks 93 host ≡ true = unfold is_plain in ground (arith, h) in
    let found = cut_char-append 93 "]" host (String.◌∷◌ ":" port) refl inside in
    unfold split_host_port is_plain in rw found (ground (arith, h, p, free))

-- A host and a port without brackets, the port without a colon, are read again as they were joined.
pub split-join :
    (host port : String)
    → AreParts host port
    → split_host_port (join_host_port host port) ≡ some (host, port)
split-join host port (h, p, free) = elim (Bool-cases (lacks 58 host)) [
  | inl name ↦ unfold join_host_port in rw name (split-plain host port h p name free)
  | inr address ↦ unfold join_host_port in rw address (split-brackets host port (h, p, free))
]
