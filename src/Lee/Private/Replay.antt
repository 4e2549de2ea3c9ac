-- ===== src/Lee/Private/Replay.antt =====
-- lee/state_machine/src/state.rs: why a public transaction is not accepted again, transactions of every kind between.
use lp_0002_private_multisig.Prelude.{
  ℕ, ◌≤◌, ◌≡◌, refl, sym, ◌∙◌, ap, true, List, [], ◌∷◌, get_or, arith, ok, >>=-eq-ok, ok-injective,
  ensure-eq-ok,
}
use lp_0002_private_multisig.Core.Bytes.{Bytes}
use lp_0002_private_multisig.Core.Account.{AccountId, Account, AccountWithMetadata}
use lp_0002_private_multisig.Core.Hash.{Sha256}
use lp_0002_private_multisig.Lee.Accounts.{Accounts, get_account_by_id, insert, apply_diff}
use lp_0002_private_multisig.Lee.Public.{
  Vm, Transaction, input_pre_states, from_public_transaction, invalid_privacy_preserving_proof,
}
use lp_0002_private_multisig.Lee.State.{
  V03State, StateDiff, check_commitments_are_new, check_nullifiers_are_valid,
}
use lp_0002_private_multisig.Lee.Private.{
  PrivateTransaction, PrivacyPreservingCircuitOutput, Zkvm, circuit_output, zipped, check_sets,
  check_signers, check_privacy_preserving_circuit_proof_is_valid,
  from_privacy_preserving_transaction, from_program_deployment_transaction,
  transition_from_public_transaction, transition_from_privacy_preserving_transaction,
  transition_from_program_deployment_transaction,
}
use lp_0002_private_multisig.Lee.Private.Spent.{applied}
use lp_0002_private_multisig.Lee.Private.Refines.{transition_from_public_transaction-IsPublic}
use lp_0002_private_multisig.Lee.Transition.Nonces.{nonce_at, nonce_at-insert_same, bump_nonces-le}
use lp_0002_private_multisig.Lee.Transition.Replay.{
  transition_parts, first_nonce, transition-le, transition-lt,
}

-- The post states have the nonces of the pre-states.
abbrev pub HaveSameNonces : List AccountWithMetadata → List Account → Type 0
HaveSameNonces (pre ∷ pres) (post ∷ posts) =
    (post.nonce ≡ pre.account.nonce) × HaveSameNonces pres posts
HaveSameNonces _ _ = Unit

-- The circuit proves only executions that leave the nonces of public accounts as they are.
abbrev pub KeepsNonces : Zkvm → Type 0
KeepsNonces zkvm =
    (proof : Bytes) (out : PrivacyPreservingCircuitOutput)
    → zkvm.is_proof_valid_for proof out ≡ true
    → HaveSameNonces out.public_pre_states out.public_post_states

module _ (sha : Sha256) (zkvm : Zkvm) where
  -- The states that transactions of the three kinds lead to, each on any machine and in any block.
  pub data Follows (state : V03State) : V03State → Type 0 where
    here : Follows state state
    public :
        {middle later : V03State} (vm : Vm) (block_id timestamp : ℕ) (tx : Transaction)
        → Follows state middle
        → transition_from_public_transaction sha vm zkvm middle block_id timestamp tx ≡ ok later
        → Follows state later
    private :
        {middle later : V03State} (vm : Vm) (block_id timestamp : ℕ) (tx : PrivateTransaction)
        → Follows state middle
        → transition_from_privacy_preserving_transaction sha vm zkvm middle block_id timestamp tx
          ≡ ok later
        → Follows state later
    deployment :
        {middle later : V03State} (vm : Vm) (block_id timestamp : ℕ) (bytecode : Bytes)
        → Follows state middle
        → transition_from_program_deployment_transaction sha vm zkvm middle block_id timestamp
            bytecode
          ≡ ok later
        → Follows state later

  -- Public post states with the nonces of the state change none of its nonces.
  zipped_nonces :
      (vm : Vm) (block_id timestamp : ℕ) (signers : List AccountId) (base m : Accounts)
      (ids : List AccountId) (posts : List Account) (j : AccountId)
      → ((k : AccountId) → nonce_at m k ≡ nonce_at base k)
      → HaveSameNonces (input_pre_states sha base vm block_id timestamp signers ids) posts
      → nonce_at (apply_diff m (zipped ids posts)) j ≡ nonce_at base j
  unfolding apply_diff
  zipped_nonces vm b t signers base m [] posts j same h = same j
  zipped_nonces vm b t signers base m (id ∷ ids) [] j same h = same j
  zipped_nonces vm b t signers base m (id ∷ ids) (post ∷ posts) j same h =
      let read : nonce_at base id ≡ (get_account_by_id base id).nonce = unfold nonce_at in refl in
      let keeps : post.nonce ≡ nonce_at m id = h.0 ∙ sym read ∙ sym (same id) in
      zipped_nonces vm b t signers base (insert id post m) ids posts j
        (λ i. nonce_at-insert_same id i post m keeps ∙ same i) h.1

  -- An accepted privacy-preserving transaction has a valid proof, and its diff the post states of its message.
  proven :
      (vm : Vm) (state : V03State) (block_id timestamp : ℕ) (tx : PrivateTransaction)
      {diff : StateDiff}
      → from_privacy_preserving_transaction sha vm zkvm state block_id timestamp tx ≡ ok diff
      → (zkvm.is_proof_valid_for tx.proof (
            circuit_output
              (input_pre_states sha state.public_state vm block_id timestamp tx.signer_account_ids
                tx.message.public_account_ids)
              tx.message)
          ≡ true)
        × (diff.public_diff ≡ zipped tx.message.public_account_ids tx.message.public_post_states)
  unfolding from_privacy_preserving_transaction check_privacy_preserving_circuit_proof_is_valid
  proven vm state b t tx h =
      let (a, ea, h₁) = >>=-eq-ok (check_sets tx.message) _ h in
      let (c, ec, h₂) = >>=-eq-ok (check_signers sha vm zkvm state b t tx) _ h₁ in
      let (valid, h₃) =
        ensure-eq-ok
          (zkvm.is_proof_valid_for tx.proof (
            circuit_output
              (input_pre_states sha state.public_state vm b t tx.signer_account_ids
                tx.message.public_account_ids)
              tx.message))
          invalid_privacy_preserving_proof _ h₂ in
      let (d, ed, h₄) =
        >>=-eq-ok (check_commitments_are_new state tx.message.new_commitments) _ h₃ in
      let (e, ee, h₅) =
        >>=-eq-ok (check_nullifiers_are_valid state tx.message.new_nullifiers) _ h₄ in
      (valid, sym (ap (λ r. r.public_diff) (ok-injective h₅)))

  private-le :
      (vm : Vm) (state : V03State) (block_id timestamp : ℕ) (tx : PrivateTransaction)
      (j : AccountId) {state' : V03State}
      → KeepsNonces zkvm
      → transition_from_privacy_preserving_transaction sha vm zkvm state block_id timestamp tx
        ≡ ok state'
      → nonce_at state.public_state j ≤ nonce_at state'.public_state j
  unfolding transition_from_privacy_preserving_transaction
  private-le vm state b t tx j keeps h =
      let (diff, e, a) =
        applied sha state (from_privacy_preserving_transaction sha vm zkvm state b t tx) h in
      let (valid, writes) = proven vm state b t tx e in
      let same =
        zipped_nonces vm b t tx.signer_account_ids state.public_state state.public_state
          tx.message.public_account_ids tx.message.public_post_states j (λ k. refl)
          (keeps _ _ valid) in
      let up = bump_nonces-le _ diff.signer_account_ids j (rw writes at a.bumped) in
      omega (arith, same, up)

  deployment-le :
      (vm : Vm) (state : V03State) (block_id timestamp : ℕ) (bytecode : Bytes) (j : AccountId)
      {state' : V03State}
      → transition_from_program_deployment_transaction sha vm zkvm state block_id timestamp bytecode
        ≡ ok state'
      → nonce_at state.public_state j ≤ nonce_at state'.public_state j
  unfolding transition_from_program_deployment_transaction from_program_deployment_transaction
      apply_diff
  deployment-le vm state b t bytecode j h =
      let (diff, e, a) =
        applied sha state (from_program_deployment_transaction sha vm zkvm state b t bytecode) h in
      let none_written : diff.public_diff ≡ [] = ground arith in
      bump_nonces-le state.public_state diff.signer_account_ids j (rw none_written at a.bumped)

  Follows-le :
      (j : AccountId) {state later : V03State}
      → KeepsNonces zkvm
      → Follows state later
      → nonce_at state.public_state j ≤ nonce_at later.public_state j
  Follows-le j keeps here = omega arith
  Follows-le j keeps (public {middle} vm b t tx before h) = omega (
    arith,
    Follows-le j keeps before,
    transition-le sha vm b t middle.public_state tx j
        (transition_from_public_transaction-IsPublic sha vm zkvm middle b t tx h).moved,
  )
  Follows-le j keeps (private {middle} vm b t tx before h) =
      omega (arith, Follows-le j keeps before, private-le vm middle b t tx j keeps h)
  Follows-le j keeps (deployment {middle} vm b t bytecode before h) =
      omega (arith, Follows-le j keeps before, deployment-le vm middle b t bytecode j h)

  -- Where proofs are valid only of executions that keep the nonces of public accounts, a public transaction with at
  -- least one signer that the whole state has applied is not accepted again in any state that further public,
  -- privacy-preserving and deployment transactions lead to, in whatever blocks and on whatever machines.
  pub public-no_replay :
      (vm vm' : Vm) (block_id timestamp block_id' timestamp' : ℕ) (tx : Transaction) (s : AccountId)
      (signers : List AccountId) (state state' later : V03State)
      → KeepsNonces zkvm
      → tx.signer_account_ids ≡ s ∷ signers
      → transition_from_public_transaction sha vm zkvm state block_id timestamp tx ≡ ok state'
      → Follows state' later
      → ¬ (
          (diff : Accounts) × (from_public_transaction sha later.public_state vm' block_id'
              timestamp' tx
            ≡ ok diff))
  public-no_replay vm vm' b t b' t' tx s signers state state' later keeps who h r (diff, again) =
      let moved = (transition_from_public_transaction-IsPublic sha vm zkvm state b t tx h).moved in
      let (diff₀, made, bumped, same) = transition_parts sha vm b t state.public_state tx moved in
      let first = first_nonce sha vm b t state.public_state tx s signers who made in
      let second = first_nonce sha vm' b' t' later.public_state tx s signers who again in
      let same_nonce : nonce_at state.public_state s ≡ nonce_at later.public_state s =
        ap (λ l. get_or l 0 0) (sym first ∙ second) in
      absurd (
        omega (
          arith,
          same_nonce,
          transition-lt sha vm b t state.public_state tx s signers who moved,
          Follows-le s keeps r,
        ))
