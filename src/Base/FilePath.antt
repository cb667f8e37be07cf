-- ===== src/Base/FilePath.antt =====
-- Go's package path/filepath on Unix, as far as the worker uses it: Clean, Join and Rel, over the
-- components of a path.
pub mod Child
use Prim.Native.String
use Prim.Native.Char.{Char, code}
use Prim.Native.String.{String}
use Prim.Native.Nat.{ℕ}
use mathlib.Core.Path.{◌≡◌, refl}
use mathlib.Core.Bool.{Bool, true, false, not, ◌&&◌, ◌||◌}
use mathlib.Core.Option.{Option, none, some}
use mathlib.Core.List.{List, [], ◌∷◌, ◌++◌, reverse}
use text.Mathlib.Text.{◌==◌}
use nano_cloud.Base.Tests.{nat_eq, if◌then◌else◌}

-- a character in front of a text that is split, by whether it is the separator
unfoldable pub add_char : Bool → Char → List String → List String
add_char true c rest = "" ∷ rest
add_char false c [] = String.◌∷◌ c "" ∷ []
add_char false c (first ∷ rest) = String.◌∷◌ c first ∷ rest

-- strings.Split at one character, by its code
unfoldable pub split_char : ℕ → String → List String
unfolding add_char
split_char n String.[] = "" ∷ []
split_char n (String.◌∷◌ c s) = add_char (nat_eq (code c) n) c (split_char n s)

-- strings.Join
unfoldable pub join_with : String → List String → String
join_with sep [] = ""
join_with sep (s ∷ []) = s
join_with sep (s ∷ t ∷ rest) = String.◌++◌ s (String.◌++◌ sep (join_with sep (t ∷ rest)))

-- `..` on top of cleaned components, the last of which stands first
unfoldable pub go_up : Bool → List String → List String
go_up rooted [] = if rooted then [] else ".." ∷ []
go_up rooted (last ∷ earlier) = if last == ".." then ".." ∷ last ∷ earlier else earlier

unfoldable pub push_part : Bool → List String → String → List String
unfolding go_up
push_part rooted done part =
    if part == "" || part == "."
    then done
    else if part == ".."
    then go_up rooted done
    else part ∷ done

unfoldable pub push_parts : Bool → List String → List String → List String
unfolding push_part
push_parts rooted done [] = done
push_parts rooted done (part ∷ parts) = push_parts rooted (push_part rooted done part) parts

-- a cleaned path
pub record FilePath : Type 0 where
  pub rooted : Bool
  pub parts : List String

unfoldable pub is_rooted : String → Bool
is_rooted String.[] = false
is_rooted (String.◌∷◌ c s) = nat_eq (code c) 47

unfoldable pub path_of : String → FilePath
unfolding is_rooted split_char push_parts
path_of s = record {
  rooted = is_rooted s;
  parts = reverse (push_parts (is_rooted s) [] (split_char 47 s));
}

unfoldable pub relative_text : List String → String
unfolding join_with
relative_text [] = "."
relative_text (part ∷ parts) = join_with "/" (part ∷ parts)

unfoldable pub path_text : FilePath → String
unfolding relative_text
path_text p = if p.rooted then String.◌++◌ "/" (join_with "/" p.parts) else relative_text p.parts

-- filepath.Clean
unfoldable pub clean : String → String
unfolding path_of path_text
clean s = path_text (path_of s)

-- filepath.Join of two elements
unfoldable pub join : String → String → String
join a b =
    if a == ""
    then (if b == "" then "" else clean b)
    else if b == ""
    then clean a
    else clean (String.◌++◌ a (String.◌++◌ "/" b))

-- what is left of two lists behind their common beginning
unfoldable pub strip_common : List String → List String → List String × List String
strip_common [] ts = ([], ts)
strip_common (b ∷ bs) [] = (b ∷ bs, [])
strip_common (b ∷ bs) (t ∷ ts) =
    let rest = strip_common bs ts in if b == t then rest else (b ∷ bs, t ∷ ts)

abbrev pub ups : List String → List String
ups [] = []
ups (b ∷ bs) = ".." ∷ ups bs

unfoldable pub rel_of : List String → List String → Option (List String)
rel_of [] [] = some ("." ∷ [])
rel_of [] (t ∷ ts) = some (t ∷ ts)
rel_of (b ∷ bs) ts = if b == ".." then none else some (ups (b ∷ bs) ++ ts)

-- filepath.Rel by components, `none` for its error
unfoldable pub rel : FilePath → FilePath → Option (List String)
unfolding strip_common rel_of
rel base target =
    let (bs, ts) = strip_common base.parts target.parts in
    if base.rooted && target.rooted || not base.rooted && not target.rooted
    then rel_of bs ts
    else none

cleaned : clean "/a/./b//../../c/../.." ≡ "/"
unfolding clean
cleaned = refl

cleaned_relative : clean "a/../../b/" ≡ "../b"
unfolding clean
cleaned_relative = refl
