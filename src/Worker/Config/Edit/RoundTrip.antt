-- ===== src/Worker/Config/Edit/RoundTrip.antt =====
-- A list in the configuration, written with commas and read again (pkg/worker/config_edit.go: ConfigSet).
use Prim.Native.String
use Prim.Native.Char.{Char, code}
use nano_cloud.Base.{
  String, true, not, some, List, [], ◌∷◌, ◌≡◌, ◌≢◌, refl, ap, ◌∙◌, arith, eq_iff, nat_eq,
}
use text.Mathlib.TextLemmas.{nil-append, cons-append}
use nano_cloud.Base.FilePath.{split_char, join_with}
use nano_cloud.Base.FilePath.Child.{split_char-append, split_char-single}
use nano_cloud.Base.Text.{trim_space}
use nano_cloud.Base.Text.Decimal.{all_chars}
use nano_cloud.Worker.Config.{Config}
use nano_cloud.Worker.Config.Edit.{items_of, parse_items, config_set}

-- an item of a list: not empty, without space around it and without a comma
abbrev pub IsItem : String → Type 0
IsItem s = (s ≢ "") × (trim_space s ≡ s) × (all_chars (λ c. not (nat_eq (code c) 44)) s ≡ true)

pub data Items : List String → Type 0 where
  no_items : Items []
  item : (s : String) (rest : List String) → IsItem s → Items rest → Items (s ∷ rest)

items_of-Items : (xs : List String) → Items xs → items_of xs ≡ xs
unfolding items_of
items_of-Items [] no_items = refl
items_of-Items (s ∷ rest) (item _ _ (some_text, trimmed, free) more) =
    ground (arith, trimmed, eq_iff s "", items_of-Items rest more)

abbrev comma : Char
comma = ","

comma-append : (s : String) → String.◌++◌ "," s ≡ String.◌∷◌ comma s
comma-append s = cons-append comma "" s ∙ ap (String.◌∷◌ comma) (nil-append s)

split-join :
    (s : String) (rest : List String)
    → Items (s ∷ rest)
    → split_char 44 (join_with "," (s ∷ rest)) ≡ s ∷ rest
unfolding join_with
split-join s [] (item _ _ (some_text, trimmed, free) no_items) = split_char-single 44 s free
split-join s (t ∷ rest) (item _ _ (some_text, trimmed, free) more) =
    rw
      (
        comma-append,
        split_char-append 44 comma s (join_with "," (t ∷ rest)) refl,
        split_char-single 44 s free,
        split-join t rest more,
      )
      refl

-- Reading a list of items that are not empty, have no space around them and no comma, written with
-- commas in between, gives it back.
pub parse_items-join : (xs : List String) → Items xs → parse_items (join_with "," xs) ≡ xs
unfolding parse_items
parse_items-join [] no_items = unfold join_with items_of split_char trim_space in refl
parse_items-join (s ∷ rest) all = rw (split-join s rest all) (items_of-Items (s ∷ rest) all)

-- Setting labels or passed variables to a list, written with commas between its items, stores exactly
-- that list and changes nothing else, where no item is empty, has space around it or has a comma.
pub config_set-join :
    (cfg : Config) (xs : List String)
    → Items xs
    → (config_set cfg "labels" (join_with "," xs) ≡ some (record cfg { labels = xs }))
      × (config_set cfg "env_passthrough" (join_with "," xs)
          ≡ some (record cfg { env_passthrough = xs }))
unfolding config_set
config_set-join cfg xs all = rw (parse_items-join xs all) (refl, refl)
