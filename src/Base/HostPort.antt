-- ===== src/Base/HostPort.antt =====
-- Go's net.SplitHostPort and net.JoinHostPort.
pub mod RoundTrip
use Prim.Native.String
use Prim.Native.Char.{Char, code}
use Prim.Native.String.{String}
use Prim.Native.Nat.{ℕ}
use mathlib.Core.Path.{◌≡◌, refl}
use mathlib.Core.Bool.{Bool, true, false, not, ◌&&◌, ◌||◌}
use mathlib.Core.Option.{Option, none, some}
use nano_cloud.Base.Tests.{nat_eq, if◌then◌else◌}
use nano_cloud.Base.Text.Decimal.{all_chars, cut_char}

-- no character of that code
unfoldable pub lacks : ℕ → String → Bool
unfolding all_chars
lacks n s = all_chars (λ c. not (nat_eq (code c) n)) s

unfoldable pub join_host_port : String → String → String
join_host_port host port =
    if lacks 58 host
    then String.◌++◌ host (String.◌∷◌ ":" port)
    else String.◌∷◌ "[" (String.◌++◌ host (String.◌∷◌ "]" (String.◌∷◌ ":" port)))

-- the texts before and after the last such character
unfoldable pub cut_last : ℕ → String → Option (String × String)
cut_last n String.[] = none
cut_last n (String.◌∷◌ c s) = elim (cut_last n s) [
  | some (before, after) ↦ some (String.◌∷◌ c before, after)
  | none ↦ if nat_eq (code c) n then some ("", s) else none
]

-- neither [ nor ]
unfoldable pub is_plain : String → Bool
unfolding lacks
is_plain s = lacks 91 s && lacks 93 s

-- what follows the closing bracket is a colon and the port
unfoldable pub bracketed : String → String → Option (String × String)
unfolding is_plain lacks
bracketed host String.[] = none
bracketed host (String.◌∷◌ c port) =
    if nat_eq (code c) 58 && lacks 91 host && lacks 58 port && is_plain port
    then some (host, port)
    else none

unfoldable pub unbracketed : Option (String × String) → Option (String × String)
unfolding is_plain lacks
unbracketed none = none
unbracketed (some (host, port)) =
    if lacks 58 host && is_plain host && is_plain port then some (host, port) else none

unfoldable pub after_bracket : Option (String × String) → Option (String × String)
unfolding bracketed
after_bracket none = none
after_bracket (some (host, after)) = bracketed host after

unfoldable pub split_host_port : String → Option (String × String)
unfolding unbracketed cut_last after_bracket cut_char
split_host_port String.[] = none
split_host_port (String.◌∷◌ c s) =
    if nat_eq (code c) 91
    then after_bracket (cut_char 93 s)
    else unbracketed (cut_last 58 (String.◌∷◌ c s))

split_address : split_host_port "[::1]:80" ≡ some ("::1", "80")
unfolding split_host_port
split_address = refl

split_name : split_host_port "a.b:80" ≡ some ("a.b", "80")
unfolding split_host_port
split_name = refl
