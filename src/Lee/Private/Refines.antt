-- ===== src/Lee/Private/Refines.antt =====
-- lee/state_machine/src/state.rs: a public transaction on the whole state is one on the public state.
use lp_0002_private_multisig.Prelude.{
  ℕ, ◌≡◌, refl, sym, ap, none, [], ok, >>=-eq-ok, ok-injective, or_err, or_err-eq-some,
}
use lp_0002_private_multisig.Core.Hash.{Sha256}
use lp_0002_private_multisig.Lee.Accounts.{Accounts, apply_diff, bump_nonces}
use lp_0002_private_multisig.Lee.Public.{Vm, Transaction, from_public_transaction}
use lp_0002_private_multisig.Lee.Transition as PublicOnly
use lp_0002_private_multisig.Lee.Transition.{or_rejected}
use lp_0002_private_multisig.Lee.Commitments.{
  CommitmentSet, extend, digest, insert_all, extend_nullifiers,
}
use lp_0002_private_multisig.Lee.State.{
  V03State, or_refused, or_panic, nonce_overflow, apply_state_diff, insert_program,
}
use lp_0002_private_multisig.Lee.Private.Sets.{or_panic-eq-ok}
use lp_0002_private_multisig.Lee.Private.Spent.{or_refused-eq-ok}
use lp_0002_private_multisig.Lee.Private.{
  Zkvm, public_state_diff, transition_from_public_transaction,
}

same_tree :
    (sha : Sha256) (set : CommitmentSet) {set' : CommitmentSet}
    → extend sha set [] ≡ ok set'
    → (set'.merkle_tree ≡ set.merkle_tree) × (set'.commitments ≡ set.commitments)
unfolding extend insert_all
same_tree sha set h =
    let (now, e, h₁) = >>=-eq-ok (digest set) _ h in
    (
      sym (ap (λ s. s.merkle_tree) (ok-injective h₁)),
      sym (ap (λ s. s.commitments) (ok-injective h₁)),
    )

module _ (sha : Sha256) (vm : Vm) (zkvm : Zkvm) (state : V03State) (block_id timestamp : ℕ) where
  -- What a public transaction does to the parts of the state.
  pub record IsPublic (tx : Transaction) (state' : V03State) : Type 0 where
    pub moved :
        PublicOnly.transition_from_public_transaction sha vm state.public_state block_id timestamp
          tx
        ≡ ok state'.public_state
    pub same_leaves : state'.commitment_set.merkle_tree ≡ state.commitment_set.merkle_tree
    pub same_commitments : state'.commitment_set.commitments ≡ state.commitment_set.commitments
    pub same_nullifiers : state'.nullifier_set ≡ state.nullifier_set
    pub same_programs : state'.programs ≡ state.programs

  settled :
      (tx : Transaction) (pd : Accounts) {state' : V03State}
      → from_public_transaction sha state.public_state vm block_id timestamp tx ≡ ok pd
      → apply_state_diff sha state (record {
        signer_account_ids = tx.signer_account_ids;
        public_diff = pd;
        new_commitments = [];
        new_nullifiers = [];
        program = none;
      })
        ≡ ok state'
      → IsPublic tx state'
  unfolding apply_state_diff insert_program extend_nullifiers
      PublicOnly.transition_from_public_transaction PublicOnly.apply_state_diff
  settled tx pd {state'} made h =
      let (accounts, ea, h₁) =
        >>=-eq-ok
          (or_err (bump_nonces (apply_diff state.public_state pd) tx.signer_account_ids)
            nonce_overflow)
          _ h in
      let (set, es, h₂) = >>=-eq-ok (or_panic (extend sha state.commitment_set [])) _ h₁ in
      let bumped =
        or_err-eq-some (bump_nonces (apply_diff state.public_state pd) tx.signer_account_ids)
          nonce_overflow ea in
      let (same_leaves, same_commitments) =
        same_tree sha state.commitment_set
          (or_panic-eq-ok sha (extend sha state.commitment_set []) es) in
      rw (← ok-injective h₂) (record {
        moved = rw (made, bumped) refl;
        same_leaves = same_leaves;
        same_commitments = same_commitments;
        same_nullifiers = refl;
        same_programs = refl;
      })

  -- A public transaction that the whole state accepts is accepted by its public state alone and leaves there what it
  -- leaves in the whole, which keeps its commitments, their tree, its nullifiers and its programs.
  pub transition_from_public_transaction-IsPublic :
      (tx : Transaction) {state' : V03State}
      → transition_from_public_transaction sha vm zkvm state block_id timestamp tx ≡ ok state'
      → IsPublic tx state'
  unfolding transition_from_public_transaction public_state_diff
  transition_from_public_transaction-IsPublic tx {state'} h =
      let (diff, e, h₁) =
        >>=-eq-ok (or_refused (public_state_diff sha vm zkvm state block_id timestamp tx)) _ h in
      let whole = or_refused-eq-ok (public_state_diff sha vm zkvm state block_id timestamp tx) e in
      let (pd, made, h₂) =
        >>=-eq-ok (from_public_transaction sha state.public_state vm block_id timestamp tx) _
          whole in
      settled tx pd made (rw (ok-injective h₂) h₁)
