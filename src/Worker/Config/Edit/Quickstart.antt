-- ===== src/Worker/Config/Edit/Quickstart.antt =====
-- The variables that a quickstart passes on (pkg/worker/config_edit.go: BuildQuickstart).
use nano_cloud.Base.{
  String, Bool, true, false, not, ◌&&◌, ◌||◌, some, List, [], ◌∷◌, ◌++◌, ◌≡◌, inl, inr, refl, ◌∙◌,
  arith, ◌==◌, eq_iff, Bool-cases,
}
use nano_cloud.Worker.Config.Edit.{
  default_config, ProviderPreset, seen, pass_once, pass_key, QuickstartResult, build_quickstart,
}

-- no key twice
unfoldable pub is_distinct : List String → Bool
is_distinct [] = true
is_distinct (k ∷ ks) = not (seen k ks) && is_distinct ks

seen-append : (k : String) (xs ys : List String) → seen k (xs ++ ys) ≡ (seen k xs || seen k ys)
unfolding seen
seen-append k [] ys = refl
seen-append k (x ∷ xs) ys = ground (arith, seen-append k xs ys)

seen-last : (k x : String) (xs : List String) → seen k (xs ++ x ∷ []) ≡ (seen k xs || (k == x))
seen-last k x xs = rw (seen-append k xs (x ∷ [])) (unfold seen in ground arith)

is_distinct-last :
    (k : String) (xs : List String)
    → seen k xs ≡ false
    → is_distinct xs ≡ true
    → is_distinct (xs ++ k ∷ []) ≡ true
unfolding is_distinct seen
is_distinct-last k [] fresh all = refl
is_distinct-last k (x ∷ xs) fresh all =
    ground (arith, eq_iff k x, eq_iff x k, seen-last x k xs, is_distinct-last k xs)

pass_key-seen :
    (k key : String) (xs : List String) → seen k (pass_key key xs) ≡ (seen k xs || (k == key))
unfolding pass_key
pass_key-seen k key xs = elim (Bool-cases (seen key xs)) [
  | inl old ↦ ground (arith, eq_iff k key)
  | inr fresh ↦ ground (arith, fresh, seen-last k key xs)
]

pass_key-distinct :
    (key : String) (xs : List String) → is_distinct xs ≡ true → is_distinct (pass_key key xs) ≡ true
unfolding pass_key
pass_key-distinct key xs all = ground (arith, is_distinct-last key xs)

pass_once-seen :
    (k : String) (passed ks : List String)
    → seen k (pass_once passed ks) ≡ (seen k passed || seen k ks)
unfolding pass_once seen
pass_once-seen k passed [] = ground arith
pass_once-seen k passed (x ∷ ks) =
    pass_once-seen k (pass_key x passed) ks ∙ rw (pass_key-seen k x passed) (ground arith)

pass_once-distinct :
    (passed ks : List String) → is_distinct passed ≡ true → is_distinct (pass_once passed ks) ≡ true
unfolding pass_once
pass_once-distinct passed [] all = all
pass_once-distinct passed (x ∷ ks) all =
    pass_once-distinct (pass_key x passed) ks (pass_key-distinct x passed all)

quickstart_env :
    (quote : String → String) (preset : ProviderPreset) (api_key model base_url relay_url : String)
    (q : QuickstartResult)
    → build_quickstart quote preset api_key model base_url relay_url ≡ some q
    → q.worker_config.env_passthrough
      ≡ pass_key preset.env_key (pass_once [] default_config.env_passthrough)
unfolding build_quickstart
quickstart_env quote preset api_key model base_url relay_url q made = ground (arith, made)

-- A quickstart that succeeds passes on the default's variables and the one of the preset's key, no other,
-- and none of them twice.
pub build_quickstart-env :
    (quote : String → String) (preset : ProviderPreset)
    (api_key model base_url relay_url k : String) (q : QuickstartResult)
    → build_quickstart quote preset api_key model base_url relay_url ≡ some q
    → (is_distinct q.worker_config.env_passthrough ≡ true)
      × (seen k q.worker_config.env_passthrough
          ≡ (seen k default_config.env_passthrough || (k == preset.env_key)))
build_quickstart-env quote preset api_key model base_url relay_url k q made =
    let keys = default_config.env_passthrough in
    let once = pass_once [] keys in
    rw (quickstart_env quote preset api_key model base_url relay_url q made) (
      pass_key-distinct preset.env_key once
          (pass_once-distinct [] keys (unfold is_distinct in refl)),
      pass_key-seen k preset.env_key once ∙ rw (pass_once-seen k [] keys) (unfold seen in refl),
    )
