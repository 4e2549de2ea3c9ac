-- ===== src/Lee/Transition.antt =====
-- lee/state_machine/src/state.rs: `apply_state_diff` and `transition_from_public_transaction`, on the
-- public state; a public transaction leaves the private state and the programs as they are.
pub mod Nonces
pub mod Total
pub mod Replay
use lp_0002_private_multisig.Prelude.{ℕ, Option, none, some, Result, ok, err, ◌>>=◌, or_err}
use lp_0002_private_multisig.Core.Account.{AccountId}
use lp_0002_private_multisig.Core.Hash.{Sha256}
use lp_0002_private_multisig.Lee.Accounts.{Accounts, apply_diff, bump_nonces}
use lp_0002_private_multisig.Lee.Public.{Vm, Transaction, LeeError, from_public_transaction}
use lp_0002_private_multisig.Prelude.{List}

-- An error of the transaction, or the panic at the end of the nonces.
pub data TransitionError : Type 0 where
  rejected : LeeError → TransitionError
  nonce_overflow : TransitionError

abbrev pub or_rejected : Result LeeError Accounts → Result TransitionError Accounts
or_rejected (ok diff) = ok diff
or_rejected (err e) = err (rejected e)

unfoldable pub apply_state_diff : Accounts → List AccountId → Accounts → Option Accounts
apply_state_diff state signers public_diff = bump_nonces (apply_diff state public_diff) signers

module _ (sha : Sha256) (vm : Vm) (state : Accounts) (block_id timestamp : ℕ) where
  unfoldable pub transition_from_public_transaction : Transaction → Result TransitionError Accounts
  transition_from_public_transaction tx = do
    diff ← or_rejected (from_public_transaction sha state vm block_id timestamp tx)
    or_err (apply_state_diff state tx.signer_account_ids diff) nonce_overflow
