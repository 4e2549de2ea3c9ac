-- ===== src/Lee/Transition/Nonces.antt =====
-- The nonces across the two loops of `apply_state_diff`.
use mathlib.Core.Option.{some-injective}
use lp_0002_private_multisig.Prelude.{
  ℕ, ◌+◌, ◌≤◌, ◌<◌, ◌≡◌, ◌≢◌, refl, sym, ◌∙◌, some, Option-cases, inl, inr, List, [], ◌∷◌, arith,
}
use lp_0002_private_multisig.Core.Bytes.{Bytes-discrete}
use lp_0002_private_multisig.Core.Account.{AccountId, Account}
use lp_0002_private_multisig.Core.Hash.{Sha256}
use lp_0002_private_multisig.Lee.Accounts.{
  Accounts, insert, get_account_by_id, nonce_increment, apply_diff, bump_nonces, lookup-insert_self,
  lookup-insert_ne,
}
use lp_0002_private_multisig.Lee.Public.Diff.{AllKept}

unfoldable pub nonce_at : Accounts → AccountId → ℕ
nonce_at m k = (get_account_by_id m k).nonce

pub nonce_at-insert_self :
    (k : AccountId) (a : Account) (m : Accounts) → nonce_at (insert k a m) k ≡ a.nonce
unfolding nonce_at get_account_by_id
nonce_at-insert_self k a m = rw (lookup-insert_self k a m, nonce_at, get_account_by_id) refl

nonce_at-insert_ne :
    (k j : AccountId) (a : Account) (m : Accounts)
    → k ≢ j
    → nonce_at (insert k a m) j ≡ nonce_at m j
unfolding nonce_at get_account_by_id
nonce_at-insert_ne k j a m ne = rw (lookup-insert_ne k j a m ne, nonce_at, get_account_by_id) refl

-- An insertion changes no nonce but its account's.
nonce_at-insert_le :
    (k j : AccountId) (a : Account) (m : Accounts)
    → nonce_at m k ≤ a.nonce
    → nonce_at m j ≤ nonce_at (insert k a m) j
nonce_at-insert_le k j a m up =
    let self = nonce_at-insert_self k a m in
    elim (Bytes-discrete k j) [
      | yes e ↦
          (let there : nonce_at (insert k a m) j ≡ a.nonce = cc in
            let here : nonce_at m j ≡ nonce_at m k = cc in omega arith)
      | no ne ↦ omega (arith, nonce_at-insert_ne k j a m ne)
    ]

pub nonce_at-insert_same :
    (k j : AccountId) (a : Account) (m : Accounts)
    → a.nonce ≡ nonce_at m k
    → nonce_at (insert k a m) j ≡ nonce_at m j
nonce_at-insert_same k j a m same =
    let self = nonce_at-insert_self k a m in
    elim (Bytes-discrete k j) [ yes e ↦ cc | no ne ↦ nonce_at-insert_ne k j a m ne ]

-- A fair diff changes no nonce.
pub nonce_at-apply_diff :
    (sha : Sha256) (state public_state diff : Accounts) (j : AccountId)
    → ((k : AccountId) → nonce_at public_state k ≡ nonce_at state k)
    → AllKept sha state diff
    → nonce_at (apply_diff public_state diff) j ≡ nonce_at state j
unfolding apply_diff
nonce_at-apply_diff sha state public_state [] j same kept = same j
nonce_at-apply_diff sha state public_state ((k, a) ∷ diff) j same kept =
    let read : nonce_at state k ≡ (get_account_by_id state k).nonce = unfold nonce_at in refl in
    let keeps : a.nonce ≡ nonce_at public_state k = kept.0.nonce_kept ∙ sym read ∙ sym (same k) in
    nonce_at-apply_diff sha state (insert k a public_state) diff j
      (λ i. nonce_at-insert_same k i a public_state keeps ∙ same i) kept.1

nonce_increment_lem :
    (a : Account) {b : Account}
    → nonce_increment a ≡ some b
    → (b.nonce ≡ a.nonce + 1) × (b.balance ≡ a.balance)
unfolding nonce_increment
nonce_increment_lem a h = ground arith

-- One round of the signers' loop.
pub bump_nonces-step :
    (m : Accounts) (s : AccountId) (signers : List AccountId) {m' : Accounts}
    → bump_nonces m (s ∷ signers) ≡ some m'
    → (a : Account) × (a.nonce ≡ nonce_at m s + 1)
      × (a.balance ≡ (get_account_by_id m s).balance)
      × (bump_nonces (insert s a m) signers ≡ some m')
unfolding bump_nonces nonce_at
bump_nonces-step m s signers h = elim (Option-cases (nonce_increment (get_account_by_id m s))) [
  | inl none_left ↦ (let clash = rw (none_left, bump_nonces) at h in cc)
  | inr (a, e) ↦
      (let (up, kept) = nonce_increment_lem (get_account_by_id m s) e in
        (a, up, kept, rw (e, bump_nonces) at h))
]

-- The signers' loop lowers no nonce, and raises that of the first signer.
pub bump_nonces-le :
    (m : Accounts) (signers : List AccountId) (j : AccountId) {m' : Accounts}
    → bump_nonces m signers ≡ some m'
    → nonce_at m j ≤ nonce_at m' j
bump_nonces-le m [] j h = unfold bump_nonces in (rw (some-injective _ _ h) (omega arith))
bump_nonces-le m (s ∷ signers) j h =
    let (a, up, kept, rest) = bump_nonces-step m s signers h in
    omega (
      arith,
      nonce_at-insert_le s j a m (omega (arith, up)),
      bump_nonces-le (insert s a m) signers j rest,
    )

pub bump_nonces-lt :
    (m : Accounts) (s : AccountId) (signers : List AccountId) {m' : Accounts}
    → bump_nonces m (s ∷ signers) ≡ some m'
    → nonce_at m s < nonce_at m' s
bump_nonces-lt m s signers h =
    let (a, up, kept, rest) = bump_nonces-step m s signers h in
    omega (arith, up, nonce_at-insert_self s a m, bump_nonces-le (insert s a m) signers s rest)
