-- ===== src/Lee/State.antt =====
-- lee/state_machine/src/state.rs: the whole state, and what a validated diff does to it.
use lp_0002_private_multisig.Prelude.{
  Option, none, some, List, [], ◌∷◌, Result, ok, err, ◌>>=◌, ◌>>◌, or_err, ensure, not,
}
use lp_0002_private_multisig.Core.Bytes.{Bytes}
use lp_0002_private_multisig.Core.Account.{ProgramId, AccountId}
use lp_0002_private_multisig.Core.Hash.{Sha256}
use lp_0002_private_multisig.Core.Sets.{contains}
use lp_0002_private_multisig.Core.Maps.{put}
use lp_0002_private_multisig.Lee.Accounts.{Accounts, apply_diff, bump_nonces}
use lp_0002_private_multisig.Lee.MerkleTree.{TreePanic}
use lp_0002_private_multisig.Lee.Commitments.{
  CommitmentSet, NullifierSet, has_commitment, extend, extend_nullifiers,
}
use lp_0002_private_multisig.Lee.Public.{
  LeeError, commitment_already_seen, nullifier_already_seen, unrecognized_digest,
}

pub record Program : Type 0 where
  pub id : ProgramId
  pub elf : Bytes

-- `HashMap<ProgramId, Program>`
abbrev pub Programs : Type 0
Programs = List (ProgramId × Program)

pub record V03State : Type 0 where
  pub public_state : Accounts
  pub commitment_set : CommitmentSet
  pub nullifier_set : NullifierSet
  pub programs : Programs

pub record StateDiff : Type 0 where
  pub signer_account_ids : List AccountId
  pub public_diff : Accounts
  pub new_commitments : List Bytes
  pub new_nullifiers : List Bytes
  pub program : Option Program

-- A transaction that is refused, or the panics of applying its diff.
pub data StateError : Type 0 where
  refused : LeeError → StateError
  nonce_overflow : StateError
  tree_panic : TreePanic → StateError

abbrev pub or_refused : {A : Type 0} → Result LeeError A → Result StateError A
or_refused (ok a) = ok a
or_refused (err e) = err (refused e)

abbrev pub or_panic : {A : Type 0} → Result TreePanic A → Result StateError A
or_panic (ok a) = ok a
or_panic (err e) = err (tree_panic e)

unfoldable pub insert_program : Programs → Option Program → Programs
insert_program programs none = programs
insert_program programs (some p) = put p.id p programs

unfoldable pub check_commitments_are_new : V03State → List Bytes → Result LeeError (Unit {0})
check_commitments_are_new state [] = ok tt
check_commitments_are_new state (c ∷ cs) = do
  ensure (not (has_commitment state.commitment_set c)) commitment_already_seen
  check_commitments_are_new state cs

unfoldable pub check_nullifiers_are_valid :
    V03State → List (Bytes × Bytes) → Result LeeError (Unit {0})
check_nullifiers_are_valid state [] = ok tt
check_nullifiers_are_valid state ((nullifier, digest) ∷ ns) = do
  ensure (not (contains state.nullifier_set nullifier)) nullifier_already_seen
  ensure (contains state.commitment_set.root_history digest) unrecognized_digest
  check_nullifiers_are_valid state ns

unfoldable pub apply_state_diff : Sha256 → V03State → StateDiff → Result StateError V03State
apply_state_diff sha state diff = do
  public_state ←
      or_err (bump_nonces (apply_diff state.public_state diff.public_diff) diff.signer_account_ids)
        nonce_overflow
  commitment_set ← or_panic (extend sha state.commitment_set diff.new_commitments)
  ok (record {
    public_state = public_state;
    commitment_set = commitment_set;
    nullifier_set = extend_nullifiers state.nullifier_set diff.new_nullifiers;
    programs = insert_program state.programs diff.program;
  })
