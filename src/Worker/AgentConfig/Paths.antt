-- ===== src/Worker/AgentConfig/Paths.antt =====
-- What a nested field is after it is set, and what the others are (cmd/worker/main.go: setNestedYAML).
use nano_cloud.Base.{
  String, Option, none, some, List, [], ◌∷◌, ◌≡◌, ◌≢◌, ◌⊎◌, sym, subst, refl, ap, ◌∙◌, arith, ◌==◌,
  eq_iff, eq_refl, if◌then◌else◌, inl, inr,
}
use nano_cloud.Worker.AgentConfig.{
  Yaml, text, mapping, MapSlice, no_items, item, put_item, child_of, set_nested_yaml,
}

-- the value of the first item of a key
unfoldable pub find_item : String → MapSlice → Option Yaml
find_item key no_items = none
find_item key (item k v rest) = if k == key then some v else find_item key rest

-- the value at a path of keys
unfoldable pub get_nested : MapSlice → List String → Option Yaml
get_nested items [] = none
get_nested items (key ∷ []) = find_item key items
get_nested items (key ∷ next ∷ keys) = get_nested (child_of (find_item key items)) (next ∷ keys)

find_item-put_item :
    (key at_key : String) (f : Option Yaml → Yaml) (items : MapSlice)
    → find_item at_key (put_item key f items)
      ≡ (if key == at_key then some (f (find_item key items)) else find_item at_key items)
unfolding find_item put_item
find_item-put_item key at_key f no_items = refl
find_item-put_item key at_key f (item k v rest) =
    ground (
      arith,
      eq_iff k key,
      eq_iff k at_key,
      eq_iff key at_key,
      find_item-put_item key at_key f rest,
    )

find_item-put_self :
    (key : String) (f : Option Yaml → Yaml) (items : MapSlice)
    → find_item key (put_item key f items) ≡ some (f (find_item key items))
find_item-put_self key f items = find_item-put_item key key f items ∙ rw eq_refl refl

child_of_mapping : (m : MapSlice) → child_of (some (mapping m)) ≡ m
unfolding child_of
child_of_mapping m = refl

-- Two paths that part: both go on to a key at which they differ.
unfoldable pub Part : List String → List String → Type 0
Part [] ls = ⊥
Part (k ∷ ks) [] = ⊥
Part (k ∷ ks) (l ∷ ls) = (k ≢ l) ⊎ ((k ≡ l) × Part ks ls)

-- a path of two keys and more is set below its first key
set_below :
    (items : MapSlice) (key next at_next : String) (keys at_keys : List String) (value : String)
    → get_nested (set_nested_yaml items (key ∷ next ∷ keys) value) (key ∷ at_next ∷ at_keys)
      ≡ get_nested
          (set_nested_yaml (child_of (find_item key items)) (next ∷ keys) value)
          (at_next ∷ at_keys)
unfolding get_nested set_nested_yaml
set_below items key next at_next keys at_keys value =
    rw
      (
        find_item-put_self key (λ old. mapping (set_nested_yaml (child_of old) (next ∷ keys) value))
            items,
        child_of_mapping,
      )
      refl

set_one :
    (items : MapSlice) (key value : String)
    → get_nested (set_nested_yaml items (key ∷ []) value) (key ∷ []) ≡ some (text value)
unfolding get_nested set_nested_yaml
set_one items key value = find_item-put_self key (λ old. text value) items

get-set :
    (items : MapSlice) (key : String) (keys : List String) (value : String)
    → get_nested (set_nested_yaml items (key ∷ keys) value) (key ∷ keys) ≡ some (text value)
get-set items key [] value = set_one items key value
get-set items key (next ∷ keys) value =
    set_below items key next next keys keys value
    ∙ get-set (child_of (find_item key items)) next keys value

-- another key's item stays
find-set :
    (items : MapSlice) (key at_key : String) (keys : List String) (value : String)
    → key ≢ at_key
    → find_item at_key (set_nested_yaml items (key ∷ keys) value) ≡ find_item at_key items
unfolding set_nested_yaml
find-set items key at_key [] value differ =
    find_item-put_item key at_key _ items ∙ ground (arith, eq_iff key at_key, differ)
find-set items key at_key (next ∷ keys) value differ =
    find_item-put_item key at_key _ items ∙ ground (arith, eq_iff key at_key, differ)

get_nested_congr :
    (items items' : MapSlice) (key : String) (keys : List String)
    → find_item key items ≡ find_item key items'
    → get_nested items (key ∷ keys) ≡ get_nested items' (key ∷ keys)
unfolding get_nested
get_nested_congr items items' key [] same = same
get_nested_congr items items' key (next ∷ keys) same =
    ap (λ o. get_nested (child_of o) (next ∷ keys)) same

get_below :
    (items : MapSlice) (key next : String) (keys : List String)
    → get_nested items (key ∷ next ∷ keys)
      ≡ get_nested (child_of (find_item key items)) (next ∷ keys)
unfolding get_nested
get_below items key next keys = refl

Part-nil : (ls : List String) → Part [] ls → ⊥
unfolding Part
Part-nil ls apart = apart

Part-cons-nil : (k : String) (ks : List String) → Part (k ∷ ks) [] → ⊥
unfolding Part
Part-cons-nil k ks apart = apart

Part-cons :
    (k l : String) (ks ls : List String) → Part (k ∷ ks) (l ∷ ls) → (k ≢ l) ⊎ ((k ≡ l) × Part ks ls)
unfolding Part
Part-cons k l ks ls apart = apart

get-set_differ :
    (items : MapSlice) (k l : String) (ks ls : List String) (value : String)
    → k ≢ l
    → get_nested (set_nested_yaml items (k ∷ ks) value) (l ∷ ls) ≡ get_nested items (l ∷ ls)
get-set_differ items k l ks ls value differ =
    get_nested_congr (set_nested_yaml items (k ∷ ks) value) items l ls
      (find-set items k l ks value differ)

-- what lies on a path that parts from the one that is set
get-set_apart :
    (items : MapSlice) (keys at_keys : List String) (value : String)
    → Part keys at_keys
    → get_nested (set_nested_yaml items keys value) at_keys ≡ get_nested items at_keys
get-set_apart items [] at_keys value apart = absurd (Part-nil at_keys apart)
get-set_apart items (k ∷ ks) [] value apart = absurd (Part-cons-nil k ks apart)
get-set_apart items (k ∷ []) (l ∷ ls) value apart = elim (Part-cons k l [] ls apart) [
  | inl differ ↦ get-set_differ items k l [] ls value differ
  | inr (same, more) ↦ absurd (Part-nil ls more)
]
get-set_apart items (k ∷ k2 ∷ ks) (l ∷ []) value apart = elim (Part-cons k l (k2 ∷ ks) [] apart) [
  | inl differ ↦ get-set_differ items k l (k2 ∷ ks) [] value differ
  | inr (same, more) ↦ absurd (Part-cons-nil k2 ks more)
]
get-set_apart items (k ∷ k2 ∷ ks) (l ∷ l2 ∷ ls) value apart =
    elim (Part-cons k l (k2 ∷ ks) (l2 ∷ ls) apart) [
      | inl differ ↦ get-set_differ items k l (k2 ∷ ks) (l2 ∷ ls) value differ
      | inr (same, more) ↦
          subst
            (λ l.
              get_nested (set_nested_yaml items (k ∷ k2 ∷ ks) value) (l ∷ l2 ∷ ls)
              ≡ get_nested items (l ∷ l2 ∷ ls))
            same
            (set_below items k k2 l2 ks ls value
              ∙ get-set_apart (child_of (find_item k items)) (k2 ∷ ks) (l2 ∷ ls) value more
              ∙ sym (get_below items k l2 ls))
    ]

-- Setting a nested field of the agent's configuration gives that field its value, and the value at every
-- path that parts from it stays what it was.
pub set_nested_yaml_lem :
    (items : MapSlice) (key : String) (keys at_keys : List String) (value : String)
    → Part (key ∷ keys) at_keys
    → (get_nested (set_nested_yaml items (key ∷ keys) value) (key ∷ keys) ≡ some (text value))
      × (get_nested (set_nested_yaml items (key ∷ keys) value) at_keys ≡ get_nested items at_keys)
set_nested_yaml_lem items key keys at_keys value apart =
    (get-set items key keys value, get-set_apart items (key ∷ keys) at_keys value apart)
