-- ===== src/Worker/Runtimes.antt =====
-- The runtimes that a worker advertises, and the configuration that a run finds (pkg/worker/worker.go:
-- supportedRuntimes, the selection in handleRunRequest). The order of a Go map's loop does not matter:
-- the code collects the keys in a set.
pub mod Advertised
use Prim.Native.Char.{Char, char, code}
use Prim.Native.String
use nano_cloud.Base.{
  ℕ, String, Bool, true, false, not, ◌&&◌, ◌||◌, Option, none, some, List, [], ◌∷◌, ◌++◌, ◌==◌,
  nat_eq, map, if◌then◌else◌, arith,
}
use nano_cloud.Base.Map.{Map, lookup}
use nano_cloud.Base.Text.{trim_space, to_lower, IsScalar-small}
use nano_cloud.Base.Text.Decimal.{map_chars}
use nano_cloud.Gateway.Messages.{Runtime, unspecified, nano_agent, claude_code, opencode, custom}

pub record RuntimeConfig : Type 0 where
  pub runner : String
  pub image : String
  pub command : List String
  pub env : Map String
  pub env_file : String
  pub agent_config_dest : String

-- strings.ReplaceAll of one character by another, by their codes
unfoldable pub underscore_for_dash : Char → Char
underscore_for_dash c = if nat_eq (code c) 45 then char 95 (IsScalar-small 95 (omega arith)) else c

unfoldable pub dash_for_underscore : Char → Char
dash_for_underscore c = if nat_eq (code c) 95 then char 45 (IsScalar-small 45 (omega arith)) else c

unfoldable pub normalize_key : String → String
unfolding map_chars underscore_for_dash
normalize_key k = map_chars underscore_for_dash (to_lower (trim_space k))

-- some key of the configuration is normalized to this one
unfoldable pub is_available : String → Map RuntimeConfig → Bool
unfolding normalize_key
is_available key [] = false
is_available key ((k, cfg) ∷ m) = normalize_key k == key || is_available key m

abbrev pub is_known : String → Bool
is_known key = key == "nano_agent" || key == "claude_code" || key == "opencode"

-- some key is none of the three known ones
unfoldable pub has_unknown : Map RuntimeConfig → Bool
unfolding normalize_key
has_unknown [] = false
has_unknown ((k, cfg) ∷ m) = not (is_known (normalize_key k)) || has_unknown m

abbrev pub offered : Bool → Runtime → List Runtime
offered b rt = if b then rt ∷ [] else []

abbrev pub or_custom : List Runtime → List Runtime
or_custom [] = custom ∷ []
or_custom (rt ∷ rts) = rt ∷ rts

unfoldable pub supported_runtimes : Map RuntimeConfig → List Runtime
unfolding is_available has_unknown
supported_runtimes runtimes = or_custom (
    offered (is_available "nano_agent" runtimes) nano_agent
    ++ offered (is_available "claude_code" runtimes) claude_code
    ++ offered (is_available "opencode" runtimes) opencode
    ++ offered (has_unknown runtimes) custom)

-- the name of a runtime without RUNTIME_, in lower case
abbrev pub runtime_key : Runtime → String
runtime_key unspecified = "unspecified"
runtime_key nano_agent = "nano_agent"
runtime_key claude_code = "claude_code"
runtime_key opencode = "opencode"
runtime_key custom = "custom"

-- the configuration of a run, under the key as it is or with dashes
unfoldable pub runtime_config : Runtime → Map RuntimeConfig → Option RuntimeConfig
unfolding map_chars dash_for_underscore
runtime_config rt runtimes = elim (lookup (runtime_key rt) runtimes) [
  | some cfg ↦ some cfg
  | none ↦ lookup (map_chars dash_for_underscore (runtime_key rt)) runtimes
]
