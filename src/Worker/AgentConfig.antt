-- ===== src/Worker/AgentConfig.antt =====
-- Setting a field of the agent's configuration (cmd/worker/main.go: configAgentSet, setNestedYAML). Reading
-- and printing YAML belongs to a library.
pub mod Paths
mod Tests
use nano_cloud.Base.{String, Option, none, some, List, [], ◌∷◌, ◌==◌, if◌then◌else◌}
use nano_cloud.Base.FilePath.{split_char}

-- yaml.MapSlice, with the text that %v gives of a key; `other` is any value that is neither a text nor a
-- MapSlice
mutual
  pub data Yaml : Type 0 where
    text : String → Yaml
    mapping : MapSlice → Yaml
    other : String → Yaml

  pub data MapSlice : Type 0 where
    no_items : MapSlice
    item : String → Yaml → MapSlice → MapSlice

-- the first item of the key gets a value, or an item is appended; `value` is told what was there
unfoldable pub put_item : String → (Option Yaml → Yaml) → MapSlice → MapSlice
put_item key value no_items = item key (value none) no_items
put_item key value (item k v rest) =
    let later = put_item key value rest in
    if k == key then item k (value (some v)) rest else item k v later

-- the child to go into: an empty one where the value is no MapSlice
unfoldable pub child_of : Option Yaml → MapSlice
child_of none = no_items
child_of (some (text s)) = no_items
child_of (some (mapping m)) = m
child_of (some (other s)) = no_items

unfoldable pub set_nested_yaml : MapSlice → List String → String → MapSlice
set_nested_yaml items [] value = items
set_nested_yaml items (key ∷ []) value = put_item key (λ old. text value) items
set_nested_yaml items (key ∷ next ∷ keys) value =
    put_item key (λ old. mapping (set_nested_yaml (child_of old) (next ∷ keys) value)) items

-- the edit of configAgentSet
unfoldable pub config_agent_set : MapSlice → String → String → MapSlice
unfolding set_nested_yaml split_char
config_agent_set items key value = set_nested_yaml items (split_char 46 key) value
