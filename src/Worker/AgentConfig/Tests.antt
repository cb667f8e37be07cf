-- ===== src/Worker/AgentConfig/Tests.antt =====
-- Setting a model in a small agent configuration (cmd/worker/main.go: setNestedYAML).
use nano_cloud.Base.{some, [], ◌∷◌, ◌≡◌, inl, inr, refl}
use nano_cloud.Base.Text.{apart}
use nano_cloud.Worker.AgentConfig.{text, mapping, MapSlice, no_items, item, set_nested_yaml}
use nano_cloud.Worker.AgentConfig.Paths.{Part, get_nested, set_nested_yaml_lem}

abbrev cli_items : MapSlice
cli_items =
    item "cli"
      (mapping (
        item "claude_code" (text "off")
          (item "opencode" (mapping (item "model" (text "a") no_items)) no_items)))
      (item "verbose" (text "true") no_items)

set_nested_yaml_lem_example :
    (get_nested
        (set_nested_yaml cli_items ("cli" ∷ "claude_code" ∷ "model" ∷ []) "b")
        ("cli" ∷ "claude_code" ∷ "model" ∷ [])
      ≡ some (text "b"))
    × (get_nested
          (set_nested_yaml cli_items ("cli" ∷ "claude_code" ∷ "model" ∷ []) "b")
          ("cli" ∷ "opencode" ∷ "model" ∷ [])
        ≡ get_nested cli_items ("cli" ∷ "opencode" ∷ "model" ∷ []))
unfolding Part
set_nested_yaml_lem_example =
    set_nested_yaml_lem cli_items "cli" ("claude_code" ∷ "model" ∷ [])
      ("cli" ∷ "opencode" ∷ "model" ∷ []) "b"
      (inr (refl, inl (apart "claude_code" "opencode" refl)))
