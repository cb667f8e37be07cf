-- ===== src/Base/Scan.antt =====
-- fmt.Sscanf with the verb %d, and how net.Dial reads a port.
use Prim.Native.Char.{code}
use Prim.Native.String.{String}
use Prim.Native.Nat.{ℕ, ◌+◌, ◌-◌, ◌*◌, ◌^◌}
use mathlib.Core.Path.{◌≡◌, refl}
use mathlib.Core.Bool.{true, Bool, false, ◌&&◌}
use mathlib.Core.Option.{Option, none, some}
use nano_cloud.Base.Tests.{ltb, leb, nat_eq, if◌then◌else◌}
use nano_cloud.Base.Text.{is_space}
use nano_cloud.Base.Int.{ℤ, pos, negsuc}

-- the digits at the front of a text, after the number `n`; none where there are none
unfoldable pub scan_digits : ℕ → String → ℕ
scan_digits n String.[] = n
scan_digits n (String.◌∷◌ c s) =
    let more = scan_digits (n * 10 + (code c - 48)) s in
    if leb 48 (code c) && leb (code c) 57 then more else n

unfoldable pub is_digit_first : String → Bool
is_digit_first String.[] = false
is_digit_first (String.◌∷◌ c s) = leb 48 (code c) && leb (code c) 57

unfoldable pub negated : ℕ → ℤ
negated n = if nat_eq n 0 then pos 0 else negsuc (n - 1)

-- fmt.Sscanf with "%d" into an int of 64 bits
unfoldable pub scan_int : String → Option ℤ
unfolding negated
scan_int String.[] = none
scan_int (String.◌∷◌ c s) =
    if nat_eq (code c) 45
    then (if is_digit_first s && leb (scan_digits 0 s) (2 ^ 63)
        then some (negated (scan_digits 0 s))
        else none)
    else if nat_eq (code c) 43
    then (if is_digit_first s && ltb (scan_digits 0 s) (2 ^ 63)
        then some (pos (scan_digits 0 s))
        else none)
    else if is_digit_first (String.◌∷◌ c s) && ltb (scan_digits 0 (String.◌∷◌ c s)) (2 ^ 63)
    then some (pos (scan_digits 0 (String.◌∷◌ c s)))
    else none

-- the same after white space, where a new line is an error
unfoldable pub scan_spaced : String → Option ℤ
unfolding scan_int
scan_spaced String.[] = none
scan_spaced (String.◌∷◌ c s) =
    let rest = scan_spaced s in
    if nat_eq (code c) 10 then none else if is_space c then rest else scan_int (String.◌∷◌ c s)

unfoldable pub all_digits : String → Bool
all_digits String.[] = true
all_digits (String.◌∷◌ c s) = leb 48 (code c) && leb (code c) 57 && all_digits s

-- The number of a port for net.Dial, "" being 0; none for a text that it looks up as a service.
unfoldable pub port_number : String → Option ℤ
unfolding all_digits scan_digits negated
port_number String.[] = some (pos 0)
port_number (String.◌∷◌ c s) =
    if nat_eq (code c) 45
    then (if all_digits s then some (negated (scan_digits 0 s)) else none)
    else if nat_eq (code c) 43
    then (if all_digits s then some (pos (scan_digits 0 s)) else none)
    else if all_digits (String.◌∷◌ c s)
    then some (pos (scan_digits 0 (String.◌∷◌ c s)))
    else none

scan_spaced_front : scan_spaced " -12x" ≡ some (negsuc 11)
unfolding scan_spaced is_digit_first scan_digits
scan_spaced_front = refl
