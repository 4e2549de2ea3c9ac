-- ===== src/Core/Maps.antt =====
-- `HashMap`s from byte strings, as association lists.
use lp_0002_private_multisig.Prelude.{
  ◌≡◌, ◌≢◌, inl, inr, refl, true, false, Option, none, some, List, [], ◌∷◌, arith,
}
use lp_0002_private_multisig.Core.Bytes.{Bytes, Bytes-discrete}
use lp_0002_private_multisig.Core.Sets.{contains, contains-cases, Distinct, IsWithin}

module _ {V : Type 0} where
  -- `get`
  unfoldable pub value_at : Bytes → List (Bytes × V) → Option V
  value_at k [] = none
  value_at k ((j, v) ∷ m) = elim (Bytes-discrete k j) [ yes p ↦ some v | no p ↦ value_at k m ]

  -- `insert`
  unfoldable pub put : Bytes → V → List (Bytes × V) → List (Bytes × V)
  put k v [] = (k, v) ∷ []
  put k v ((j, w) ∷ m) = elim (Bytes-discrete k j) [
    | yes p ↦ (k, v) ∷ m
    | no p ↦ (j, w) ∷ put k v m
  ]

  abbrev pub members : List (Bytes × V) → List Bytes
  members [] = []
  members ((k, v) ∷ m) = k ∷ members m

  pub put-IsWithin :
      (k : Bytes) (v : V) (m : List (Bytes × V)) → IsWithin (members m) (members (put k v m))
  unfolding put contains
  put-IsWithin k v [] x h = cc
  put-IsWithin k v ((j, w) ∷ m) x h = ground (arith, put-IsWithin k v m x)

  pub put-added :
      (k : Bytes) (v : V) (m : List (Bytes × V)) → contains (members (put k v m)) k ≡ true
  unfolding put contains
  put-added k v [] = ground arith
  put-added k v ((j, w) ∷ m) = ground (arith, put-added k v m)

  put-other :
      (k x : Bytes) (v : V) (m : List (Bytes × V))
      → k ≢ x
      → contains (members m) x ≡ false
      → contains (members (put k v m)) x ≡ false
  unfolding put contains
  put-other k x v [] ne h = ground arith
  put-other k x v ((j, w) ∷ m) ne h = ground (arith, put-other k x v m)

  -- An insertion does not list a key twice.
  pub put-Distinct :
      (k : Bytes) (v : V) (m : List (Bytes × V))
      → Distinct (members m)
      → Distinct (members (put k v m))
  unfolding put
  put-Distinct k v [] d = (unfold contains in refl, tt)
  put-Distinct k v ((j, w) ∷ m) d =
      elim (Bytes-discrete k j)
        as (λ e. Distinct (members (elim e [ yes p ↦ (k, v) ∷ m | no p ↦ (j, w) ∷ put k v m ]))) [
          | yes p ↦ (rw p d.0, d.1)
          | no p ↦ (put-other k j v m p d.0, put-Distinct k v m d.1)
        ]

  -- An insertion adds its key to what is listed.
  pub put-IsWithin_more :
      (k : Bytes) (v : V) (m : List (Bytes × V)) (xs : List Bytes)
      → IsWithin xs (members m)
      → IsWithin (k ∷ xs) (members (put k v m))
  put-IsWithin_more k v m xs within x h = elim (contains-cases k x xs h) [
    | inl e ↦ rw (← e) (put-added k v m)
    | inr later ↦ put-IsWithin k v m x (within x later)
  ]
