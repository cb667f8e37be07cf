-- ===== src/Worker/Config/Edit/Tests.antt =====
-- The editing of the configuration at small values (pkg/worker/config_edit.go).
use nano_cloud.Base.{String, some, List, [], ◌∷◌, ◌≡◌, refl}
use nano_cloud.Base.Text.{apart, trim_space}
use nano_cloud.Base.Text.Decimal.{all_chars}
use nano_cloud.Base.FilePath.{join_with}
use nano_cloud.Worker.Config.Edit.{default_config, config_set}
use nano_cloud.Worker.Config.Edit.RoundTrip.{Items, no_items, item, config_set-join}

abbrev two_labels : List String
two_labels = "gpu" ∷ "fast disk" ∷ []

two_labels-Items : Items two_labels
two_labels-Items =
    item "gpu" ("fast disk" ∷ [])
      (apart "gpu" "" refl, unfold trim_space in refl, unfold all_chars in refl)
      (item "fast disk" []
        (apart "fast disk" "" refl, unfold trim_space in refl, unfold all_chars in refl) no_items)

config_set-join_example :
    (config_set default_config "labels" (join_with "," two_labels)
      ≡ some (record default_config { labels = two_labels }))
    × (config_set default_config "env_passthrough" (join_with "," two_labels)
        ≡ some (record default_config { env_passthrough = two_labels }))
config_set-join_example = config_set-join default_config two_labels two_labels-Items
