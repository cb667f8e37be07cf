-- ===== src/Store/Search.antt =====
-- Laws of the loops over pairing requests: a request that no earlier one shadows is the one found,
-- updated and removed.
use nano_cloud.Base.{some, Bool, none, List, [], ◌∷◌, ◌++◌, ◌≡◌, refl, arith, keep_if}
use nano_cloud.Store.Disk.{PairingRequest}
use nano_cloud.Store.Pairing.{find_first, update_first, remove_first}

module _ (test : PairingRequest → Bool) where
  pub find_first-append :
      (xs ys : List PairingRequest)
      → find_first test xs ≡ none
      → find_first test (xs ++ ys) ≡ find_first test ys
  unfolding find_first
  find_first-append [] ys h = refl
  find_first-append (x ∷ xs) ys h = ground (arith, find_first-append xs ys)

  pub update_first-append :
      (f : PairingRequest → PairingRequest) (xs ys : List PairingRequest)
      → find_first test xs ≡ none
      → update_first test f (xs ++ ys) ≡ xs ++ update_first test f ys
  unfolding find_first update_first
  update_first-append f [] ys h = refl
  update_first-append f (x ∷ xs) ys h = ground (arith, update_first-append f xs ys)

  pub remove_first-append :
      (xs ys : List PairingRequest)
      → find_first test xs ≡ none
      → remove_first test (xs ++ ys) ≡ xs ++ remove_first test ys
  unfolding find_first remove_first
  remove_first-append [] ys h = refl
  remove_first-append (x ∷ xs) ys h = ground (arith, remove_first-append xs ys)

  -- dropping requests uncovers none
  pub find_first-keep_if :
      (p : PairingRequest → Bool) (xs : List PairingRequest)
      → find_first test xs ≡ none
      → find_first test (keep_if p xs) ≡ none
  unfolding find_first
  find_first-keep_if p [] h = refl
  find_first-keep_if p (x ∷ xs) h = ground (arith, find_first-keep_if p xs)

  -- an update that the test does not see is found again
  pub find_first-update_first :
      (f : PairingRequest → PairingRequest) (xs : List PairingRequest) (r : PairingRequest)
      → ((q : PairingRequest) → test (f q) ≡ test q)
      → find_first test xs ≡ some r
      → find_first test (update_first test f xs) ≡ some (f r)
  unfolding find_first update_first
  find_first-update_first f [] r keeps h = cc
  find_first-update_first f (x ∷ xs) r keeps h =
      ground (arith, keeps x, find_first-update_first f xs r keeps)
