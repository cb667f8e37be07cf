-- ===== src/Policy/Proxy/Ports.antt =====
-- The port of a tunnel, as the proxy reads it and as net.Dial does (cmd/net-policy-proxy/main.go:
-- parsePort, handleConnect).
use Prim.Native.Char.{code}
use nano_cloud.Base.{
  ℕ, String, true, false, Option, none, some, ◌≡◌, refl, arith, nat_eq, Bool-cases, inl, inr,
}
use nano_cloud.Base.Int.{ℤ}
use nano_cloud.Base.Scan.{all_digits, scan_digits, scan_int, scan_spaced, negated, port_number}
use nano_cloud.Base.Text.{is_space}
use nano_cloud.Policy.Rules.{is_port}
use nano_cloud.Policy.Proxy.{valid_port, parse_port}

valid_port-some : (o : Option ℤ) (p : ℤ) → valid_port o ≡ some p → (o ≡ some p) × (is_port p ≡ true)
unfolding valid_port
valid_port-some none p valid = cc
valid_port-some (some q) p valid = elim (Bool-cases (is_port q)) [
  | inl good ↦ let same : q ≡ p = ground (arith, valid, good) in (ground arith, rw (← same) good)
  | inr bad ↦ absurd (ground (arith, valid, bad))
]

negated-port : (n : ℕ) → is_port (negated n) ≡ false
unfolding negated is_port
negated-port n = elim (Bool-cases (nat_eq n 0)) [
  | inl zero_then ↦ rw zero_then (ground arith)
  | inr other ↦ rw other refl
]

scan_int-number :
    (s : String) (p q : ℤ) → scan_int s ≡ some p → is_port p ≡ true → port_number s ≡ some q → q ≡ p
unfolding scan_int port_number
scan_int-number String.[] p q scanned valid dialled = cc
scan_int-number (String.◌∷◌ c s) p q scanned valid dialled =
    elim (Bool-cases (nat_eq (code c) 45)) [
      | inl minus ↦ absurd (ground (arith, scanned, valid, minus, negated-port (scan_digits 0 s)))
      | inr no_minus ↦ elim (Bool-cases (nat_eq (code c) 43)) [
        | inl plus ↦ ground (arith, scanned, dialled, no_minus, plus)
        | inr no_sign ↦ ground (arith, scanned, dialled, no_minus, no_sign)
      ]
    ]

scan_spaced-number :
    (s : String) (p q : ℤ)
    → scan_spaced s ≡ some p
    → is_port p ≡ true
    → port_number s ≡ some q
    → q ≡ p
unfolding scan_spaced port_number all_digits
scan_spaced-number String.[] p q scanned valid dialled = cc
scan_spaced-number (String.◌∷◌ c s) p q scanned valid dialled =
    elim (Bool-cases (nat_eq (code c) 10)) [
      | inl line ↦ absurd (ground (arith, scanned, line))
      | inr other ↦ elim (Bool-cases (is_space c)) [
        | inl space ↦ absurd (ground (arith, dialled, space))
        | inr front ↦
            scan_int-number (String.◌∷◌ c s) p q (ground (arith, scanned, other, front)) valid
              dialled
      ]
    ]

-- Where the proxy accepts the text of a port, and net.Dial reads the text as a number, it is the number
-- that the proxy has checked.
pub parse_port-number :
    (text : String) (checked port : ℤ)
    → parse_port text ≡ some checked
    → port_number text ≡ some port
    → port ≡ checked
unfolding parse_port
parse_port-number text checked port parsed dialled =
    let (scanned, valid) = valid_port-some (scan_spaced text) checked parsed in
    scan_spaced-number text checked port scanned valid dialled
