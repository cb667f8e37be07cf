-- ===== src/Worker/Runtimes/Advertised.antt =====
-- What a worker advertises against what its runs find (pkg/worker/worker.go).
use nano_cloud.Base.{String, false, none, [], ◌∷◌, ◌≡◌, ◌≢◌, arith, eq_iff}
use nano_cloud.Base.Map.{lookup}
use nano_cloud.Gateway.Messages.{custom}
use nano_cloud.Base.Text.Decimal.{map_chars}
use nano_cloud.Worker.Runtimes.{
  is_known, RuntimeConfig, dash_for_underscore, runtime_config, has_unknown, is_available,
  normalize_key, supported_runtimes,
}

-- A worker whose only runtime has a key that the code does not know advertises CUSTOM, and a run of
-- CUSTOM then finds no configuration, unless that key is `custom`.
pub custom_unconfigured :
    (k : String) (cfg : RuntimeConfig)
    → is_known (normalize_key k) ≡ false
    → k ≢ "custom"
    → (supported_runtimes ((k, cfg) ∷ []) ≡ custom ∷ [])
      × (runtime_config custom ((k, cfg) ∷ []) ≡ none)
unfolding supported_runtimes is_available has_unknown runtime_config map_chars dash_for_underscore
    lookup
custom_unconfigured k cfg unknown other =
    (ground (arith, unknown), ground (arith, eq_iff k "custom"))
