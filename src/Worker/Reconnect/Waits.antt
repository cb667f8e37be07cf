-- ===== src/Worker/Reconnect/Waits.antt =====
-- How long a worker waits before it connects again (pkg/worker/worker.go, Start).
use nano_cloud.Base.{
  ℕ, zero, suc, ◌+◌, ◌^◌, Option, none, some, List, [], ◌∷◌, ◌≡◌, refl, sym, ap, subst, ◌∙◌, arith,
  ltb, if◌then◌else◌, Bool-cases, inl, inr,
}
use nano_cloud.Worker.Reconnect.{Round, next_backoff, start_loop}

-- the wait of the given number in a list
unfoldable pub get_elem? : {A : Type 0} → List A → ℕ → Option A
get_elem? [] n = none
get_elem? (x ∷ xs) zero = some x
get_elem? (x ∷ xs) (suc n) = get_elem? xs n

-- the smaller of 2 ^ n and 30
unfoldable pub wait : ℕ → ℕ
wait n = if ltb n 5 then 2 ^ n else 30

next_backoff-wait : (n : ℕ) → next_backoff (wait n) ≡ wait (suc n)
unfolding next_backoff wait
next_backoff-wait zero = refl
next_backoff-wait (suc zero) = refl
next_backoff-wait (suc (suc zero)) = refl
next_backoff-wait (suc (suc (suc zero))) = refl
next_backoff-wait (suc (suc (suc (suc zero)))) = refl
next_backoff-wait (suc (suc (suc (suc (suc n))))) = ground arith

first_wait :
    (backoff b : ℕ) (r : Round) (rounds : List Round)
    → get_elem? (start_loop backoff (r ∷ rounds)).0 zero ≡ some b
    → b ≡ backoff
unfolding start_loop get_elem?
first_wait backoff b r rounds here = elim (Bool-cases r.cancelled) [
  | inl ends ↦ absurd (ground (arith, here, ends))
  | inr goes ↦ elim (Bool-cases r.fails) [
    | inr done ↦ absurd (ground (arith, here, goes, done))
    | inl fails ↦ elim (Bool-cases r.cancelled_waiting) [
      | inl stops ↦ ground (arith, here, goes, fails, stops)
      | inr waits ↦ ground (arith, here, goes, fails, waits)
    ]
  ]
]

later_wait :
    (backoff n b : ℕ) (r : Round) (rounds : List Round)
    → get_elem? (start_loop backoff (r ∷ rounds)).0 (suc n) ≡ some b
    → get_elem? (start_loop (next_backoff backoff) rounds).0 n ≡ some b
unfolding start_loop get_elem?
later_wait backoff n b r rounds here = elim (Bool-cases r.cancelled) [
  | inl ends ↦ absurd (ground (arith, here, ends))
  | inr goes ↦ elim (Bool-cases r.fails) [
    | inr done ↦ absurd (ground (arith, here, goes, done))
    | inl fails ↦ elim (Bool-cases r.cancelled_waiting) [
      | inl stops ↦ absurd (ground (arith, here, goes, fails, stops))
      | inr waits ↦ sym (ground (arith, goes, fails, waits)) ∙ here
    ]
  ]
]

no_wait : (backoff n b : ℕ) → get_elem? (start_loop backoff []).0 n ≡ some b → ⊥
unfolding start_loop get_elem?
no_wait backoff n b here = cc

-- the n-th wait, where there is one
waits_from :
    (k n b : ℕ) (rounds : List Round)
    → get_elem? (start_loop (wait k) rounds).0 n ≡ some b
    → b ≡ wait (k + n)
waits_from k n b [] here = absurd (no_wait (wait k) n b here)
waits_from k zero b (r ∷ rounds) here = first_wait (wait k) b r rounds here ∙ ap wait (omega arith)
waits_from k (suc n) b (r ∷ rounds) here =
    waits_from (suc k) n b rounds (
      subst (λ w. get_elem? (start_loop w rounds).0 n ≡ some b) (next_backoff-wait k)
        (later_wait (wait k) n b r rounds here))
    ∙ ap wait (omega arith)

-- The n-th wait of a worker before it connects again, counted from 0, is the smaller of 2 ^ n and 30
-- seconds, however long the connections in between held.
pub start_loop-wait :
    (n b : ℕ) (rounds : List Round) → get_elem? (start_loop 1 rounds).0 n ≡ some b → b ≡ wait n
start_loop-wait n b rounds here =
    let first : 1 ≡ wait 0 = unfold wait in refl in
    waits_from 0 n b rounds (subst (λ w. get_elem? (start_loop w rounds).0 n ≡ some b) first here)
    ∙ ap wait (omega arith)
