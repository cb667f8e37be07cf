-- ===== src/Worker/Paths/Inside.antt =====
-- Where the directories of a run lie (pkg/worker/worker.go).
use Prim.Native.String
use Prim.Native.Char.{Char, code}
use text.Mathlib.TextLemmas.{append_assoc}
use nano_cloud.Base.Text.Decimal.{all_chars}
use nano_cloud.Base.{
  append_nil, ◌⊎◌, String, Bool, true, false, not, ◌&&◌, ◌||◌, none, some, List, [], ◌∷◌, ◌++◌, ◌≡◌,
  ◌≢◌, refl, sym, ap, ◌∙◌, arith, ◌==◌, eq_iff, nat_eq, Bool-cases, inl, inr,
}
use nano_cloud.Base.Result.{ok, err}
use nano_cloud.Base.Text.Affix.{has_prefix-append}
use nano_cloud.Base.FilePath.{
  FilePath, path_of, path_text, join_with, relative_text, strip_common, rel_of, rel, join, ups,
}
use nano_cloud.Base.FilePath.Child.{IsName, child, join-name}
use nano_cloud.Worker.Adapter.{sanitize, is_name_char}
use nano_cloud.Worker.Adapter.Naming.{sanitize_lem}
use nano_cloud.Worker.Paths.{
  workspace_dir, host_path, resolve_host_bind_path, outside, no_relative_path,
}

all_chars_weaken :
    (p q : Char → Bool) (s : String)
    → ((c : Char) → p c ≡ true → q c ≡ true)
    → all_chars p s ≡ true
    → all_chars q s ≡ true
unfolding all_chars
all_chars_weaken p q String.[] weaker all = refl
all_chars_weaken p q (String.◌∷◌ c s) weaker all =
    let first = weaker c (ground arith) in rw first (all_chars_weaken p q s weaker (ground arith))

no_slash : (c : Char) → is_name_char c ≡ true → not (nat_eq (code c) 47) ≡ true
unfolding is_name_char
no_slash c named = ground arith

-- a name has no dot
not_dots :
    (s dots : String)
    → all_chars is_name_char s ≡ true
    → all_chars is_name_char dots ≡ false
    → s ≢ dots
not_dots s dots all other same = cc

dot_is_no_name : (all_chars is_name_char "." ≡ false) × (all_chars is_name_char ".." ≡ false)
unfolding all_chars is_name_char
dot_is_no_name = (refl, refl)

sanitize-IsName : (s : String) → IsName (sanitize s)
sanitize-IsName s =
    let (all, filled, _) = sanitize_lem s in
    let (dot, dots) = dot_is_no_name in
    (
      all_chars_weaken is_name_char _ (sanitize s) no_slash all,
      filled,
      not_dots (sanitize s) "." all dot,
      not_dots (sanitize s) ".." all dots,
    )

-- Whatever workspace a request names, its directory is the workspace root with one component more, the
-- sanitized name.
pub workspace_dir_inside :
    (workspace_root id : String)
    → (workspace_dir workspace_root id ≡ path_text (child (path_of workspace_root) (sanitize id)))
      × IsName (sanitize id)
unfolding workspace_dir
workspace_dir_inside workspace_root id =
    (join-name workspace_root (sanitize id) (sanitize-IsName id), sanitize-IsName id)

strip_common_lem :
    (bs ts : List String)
    → (common : List String) × (bs ≡ common ++ (strip_common bs ts).0)
      × (ts ≡ common ++ (strip_common bs ts).1)
unfolding strip_common
strip_common_lem [] ts = ([], refl, refl)
strip_common_lem (b ∷ bs) [] = ([], refl, refl)
strip_common_lem (b ∷ bs) (t ∷ ts) = elim (Bool-cases (b == t)) [
  | inl same ↦
      let (common, left, right) = strip_common_lem bs ts in
      (
        b ∷ common,
        rw same (ap (λ r. b ∷ r) left),
        rw same (rw (← (eq_iff b t).0 same) (ap (λ r. b ∷ r) right)),
      )
  | inr other ↦ ([], rw other refl, rw other refl)
]

dots_slash : (s : String) → String.◌++◌ ".." (String.◌++◌ "/" s) ≡ String.◌++◌ "../" s
dots_slash s = sym (append_assoc ".." "/" s)

-- a way up is refused
host_path_up :
    (host : String) (parts : List String) → host_path host (some (".." ∷ parts)) ≡ err outside
unfolding host_path join_with
host_path_up host [] = refl
host_path_up host (p ∷ ps) =
    rw (dots_slash (join_with "/" (p ∷ ps)), has_prefix-append "../" (join_with "/" (p ∷ ps))) refl

rel_of_up :
    (b : String) (bs ts : List String)
    → (rel_of (b ∷ bs) ts ≡ none)
      ⊎ ((parts : List String) × (rel_of (b ∷ bs) ts ≡ some (".." ∷ parts)))
unfolding rel_of
rel_of_up b bs ts = elim (Bool-cases (b == "..")) [
  | inl up ↦ inl (rw up refl)
  | inr down ↦ inr (ups bs ++ ts, rw down refl)
]

host_path-none : (host : String) → host_path host none ≡ err no_relative_path
unfolding host_path
host_path-none host = refl

host_path_rel :
    (host out : String) (bs ts : List String)
    → host_path host (rel_of bs ts) ≡ ok out
    → (bs ≡ []) × (out ≡ join host (relative_text ts))
host_path_rel host out [] [] found =
    unfold rel_of host_path join_with relative_text in (refl, ground (arith, found))
host_path_rel host out [] (t ∷ ts) found =
    unfold rel_of host_path relative_text in (refl, ground (arith, found))
host_path_rel host out (b ∷ bs) ts found = elim (rel_of_up b bs ts) [
  | inl nowhere ↦ absurd (ground (arith, found, nowhere, host_path-none host))
  | inr (parts, up) ↦ absurd (ground (arith, found, up, host_path_up host parts))
]

host_path_inside :
    (host out : String) (base target : FilePath)
    → host_path host (rel base target) ≡ ok out
    → (rest : List String) × (target.parts ≡ base.parts ++ rest)
      × (out ≡ join host (relative_text rest))
unfolding rel
host_path_inside host out base target found =
    let bs = (strip_common base.parts target.parts).0 in
    let ts = (strip_common base.parts target.parts).1 in
    let (common, left, right) = strip_common_lem base.parts target.parts in
    let alike = base.rooted && target.rooted || not base.rooted && not target.rooted in
    elim (Bool-cases alike) [
      | inl same ↦
          let (none_left, text) = host_path_rel host out bs ts (rw same at found) in
          let whole : base.parts ≡ common =
            left ∙ ap (λ xs. common ++ xs) none_left ∙ append_nil common in
          (ts, right ∙ ap (λ xs. xs ++ ts) (sym whole), text)
      | inr other ↦ absurd (ground (arith, found, other, host_path-none host))
    ]

-- With both roots and a path given, a path of the container is resolved to a path of the host only
-- if it is below the container's root: its components are those of the root and others behind them,
-- and the result is the host's root joined with these.
pub resolve_host_bind_path_inside :
    (host_root container_root container_path out : String)
    → host_root ≢ ""
    → container_root ≢ ""
    → container_path ≢ ""
    → resolve_host_bind_path host_root container_root container_path ≡ ok out
    → (rest : List String) × ((path_of container_path).parts
        ≡ (path_of container_root).parts ++ rest)
      × (out ≡ join host_root (relative_text rest))
unfolding resolve_host_bind_path
resolve_host_bind_path_inside host_root container_root container_path out h r p found =
    host_path_inside host_root out (path_of container_root) (path_of container_path) (
      ground (
        arith,
        found,
        eq_iff host_root "",
        eq_iff container_root "",
        eq_iff container_path "",
        h,
        r,
        p,
      ))
