-- ===== src/Lee/Transition/Replay.antt =====
-- Why an accepted transaction is not accepted again.
use lp_0002_private_multisig.Prelude.{
  ℕ, ◌≤◌, ◌<◌, ◌≡◌, refl, sym, ◌∙◌, ap, some, List, [], ◌∷◌, drop, get_or, arith, length, Result,
  ok, err, >>=-eq-ok, ok-injective, or_err-eq-some, ensure, require, ℕ_discrete,
}
use lp_0002_private_multisig.Core.Account.{AccountId}
use lp_0002_private_multisig.Core.Hash.{Sha256}
use lp_0002_private_multisig.Core.Sets.{n_unique}
use lp_0002_private_multisig.Lee.Accounts.{Accounts, apply_diff, bump_nonces}
use lp_0002_private_multisig.Lee.Public.{
  Vm, LeeError, invalid_signature, duplicate_account_ids, nonce_count_mismatch, Transaction,
  from_public_transaction, check_nonces, check_message,
}
use lp_0002_private_multisig.Lee.Public.Conserve.{from_public_transaction-IsFair}
use lp_0002_private_multisig.Lee.Transition.{
  apply_state_diff, transition_from_public_transaction, or_rejected, nonce_overflow,
}
use lp_0002_private_multisig.Lee.Transition.Nonces.{
  nonce_at, nonce_at-apply_diff, bump_nonces-le, bump_nonces-lt,
}

or_rejected-eq-ok :
    (r : Result LeeError Accounts) {diff : Accounts} → or_rejected r ≡ ok diff → r ≡ ok diff
or_rejected-eq-ok (ok d) h = ap ok (ok-injective h)
or_rejected-eq-ok (err e) h = cc

module _ (sha : Sha256) (vm : Vm) (block_id timestamp : ℕ) where
  check_nonces_head :
      (state : Accounts) (s : AccountId) (signers : List AccountId) (nonces : List ℕ) {u : Unit {0}}
      → length nonces ≡ length (s ∷ signers)
      → check_nonces sha state vm block_id timestamp (s ∷ signers) nonces ≡ ok u
      → nonces ≡ nonce_at state s ∷ drop 1 nonces
  unfolding check_nonces nonce_at
  check_nonces_head state s signers [] len h = absurd (omega arith)
  check_nonces_head state s signers (n ∷ nonces) len h = ground arith

  check_message_lem :
      (state : Accounts) (tx : Transaction) {u : Unit {0}}
      → check_message sha state vm block_id timestamp tx ≡ ok u
      → (length tx.nonces ≡ length tx.signer_account_ids)
        × (check_nonces sha state vm block_id timestamp tx.signer_account_ids tx.nonces ≡ ok u)
  unfolding check_message
  check_message_lem state tx h =
      let (a, ea, h₁) =
        >>=-eq-ok
          (require (ℕ_discrete (n_unique tx.account_ids) (length tx.account_ids))
            duplicate_account_ids)
          _ h in
      let (b, eb, h₂) =
        >>=-eq-ok
          (require (ℕ_discrete (length tx.nonces) (length tx.signer_account_ids))
            nonce_count_mismatch)
          _ h₁ in
      let (c, ec, h₃) = >>=-eq-ok (ensure tx.signatures_valid invalid_signature) _ h₂ in
      (ground arith, h₃)

  -- An accepted transaction shows the nonce of its first signer.
  pub first_nonce :
      (state : Accounts) (tx : Transaction) (s : AccountId) (signers : List AccountId)
      {diff : Accounts}
      → tx.signer_account_ids ≡ s ∷ signers
      → from_public_transaction sha state vm block_id timestamp tx ≡ ok diff
      → tx.nonces ≡ nonce_at state s ∷ drop 1 tx.nonces
  unfolding from_public_transaction
  first_nonce state tx s signers who h =
      let (u, e, rest) = >>=-eq-ok (check_message sha state vm block_id timestamp tx) _ h in
      let (len, same) = check_message_lem state tx e in
      check_nonces_head state s signers tx.nonces (rw who at len) (rw who at same)

  -- A transition lowers no nonce, and raises that of the first signer.
  pub transition_parts :
      (state : Accounts) (tx : Transaction) {state' : Accounts}
      → transition_from_public_transaction sha vm state block_id timestamp tx ≡ ok state'
      → (diff : Accounts) × (from_public_transaction sha state vm block_id timestamp tx ≡ ok diff)
        × (bump_nonces (apply_diff state diff) tx.signer_account_ids ≡ some state')
        × ((j : AccountId) → nonce_at (apply_diff state diff) j ≡ nonce_at state j)
  unfolding transition_from_public_transaction apply_state_diff
  transition_parts state tx h =
      let (diff, e, h₁) =
        >>=-eq-ok (or_rejected (from_public_transaction sha state vm block_id timestamp tx)) _ h in
      let made = or_rejected-eq-ok (from_public_transaction sha state vm block_id timestamp tx) e in
      let fair = from_public_transaction-IsFair sha state vm block_id timestamp tx made in
      (
        diff,
        made,
        or_err-eq-some (bump_nonces (apply_diff state diff) tx.signer_account_ids) nonce_overflow
            h₁,
        λ j. nonce_at-apply_diff sha state state diff j (λ k. refl) fair.kept,
      )

  pub transition-le :
      (state : Accounts) (tx : Transaction) (j : AccountId) {state' : Accounts}
      → transition_from_public_transaction sha vm state block_id timestamp tx ≡ ok state'
      → nonce_at state j ≤ nonce_at state' j
  transition-le state tx j h =
      let (diff, made, bumped, same) = transition_parts state tx h in
      omega (arith, same j, bump_nonces-le (apply_diff state diff) tx.signer_account_ids j bumped)

  pub transition-lt :
      (state : Accounts) (tx : Transaction) (s : AccountId) (signers : List AccountId)
      {state' : Accounts}
      → tx.signer_account_ids ≡ s ∷ signers
      → transition_from_public_transaction sha vm state block_id timestamp tx ≡ ok state'
      → nonce_at state s < nonce_at state' s
  transition-lt state tx s signers who h =
      let (diff, made, bumped, same) = transition_parts state tx h in
      omega (arith, same s, bump_nonces-lt (apply_diff state diff) s signers (rw who at bumped))

-- The public states that public transactions lead to, each in a block of its own and on any machine.
pub data Reaches (sha : Sha256) : Accounts → Accounts → Type 0 where
  here : (state : Accounts) → Reaches sha state state
  step :
      (vm : Vm) (block_id timestamp : ℕ) (tx : Transaction) (state state' state'' : Accounts)
      → transition_from_public_transaction sha vm state block_id timestamp tx ≡ ok state'
      → Reaches sha state' state''
      → Reaches sha state state''

Reaches-le :
    (sha : Sha256) (j : AccountId) {state state' : Accounts}
    → Reaches sha state state'
    → nonce_at state j ≤ nonce_at state' j
Reaches-le sha j (here state) = omega arith
Reaches-le sha j (step vm block_id timestamp tx state state' state'' h rest) =
    omega (arith, transition-le sha vm block_id timestamp state tx j h, Reaches-le sha j rest)

-- On the public state alone, a transaction with at least one signer that has been applied is not accepted again in any state
-- that further public transactions lead to, in whatever block and on whatever machine.
pub transition-no_replay :
    (sha : Sha256) (vm vm' : Vm) (block_id timestamp block_id' timestamp' : ℕ) (tx : Transaction)
    (s : AccountId) (signers : List AccountId) (state state' later : Accounts)
    → tx.signer_account_ids ≡ s ∷ signers
    → transition_from_public_transaction sha vm state block_id timestamp tx ≡ ok state'
    → Reaches sha state' later
    → ¬ (
        (diff : Accounts) × (from_public_transaction sha later vm' block_id' timestamp' tx
          ≡ ok diff))
transition-no_replay sha vm vm' block_id timestamp block_id' timestamp' tx s signers state state'
      later who h r (diff, again) =
    let (diff₀, made, bumped, same) = transition_parts sha vm block_id timestamp state tx h in
    let first = first_nonce sha vm block_id timestamp state tx s signers who made in
    let second = first_nonce sha vm' block_id' timestamp' later tx s signers who again in
    let same_nonce : nonce_at state s ≡ nonce_at later s =
      ap (λ l. get_or l 0 0) (sym first ∙ second) in
    absurd (
      omega (
        arith,
        same_nonce,
        transition-lt sha vm block_id timestamp state tx s signers who h,
        Reaches-le sha s r,
      ))
