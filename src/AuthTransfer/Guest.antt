-- ===== src/AuthTransfer/Guest.antt =====
-- program_methods/guest/src/bin/authenticated_transfer.rs: `initialize_account` and `transfer`.
pub mod Rules
use lp_0002_private_multisig.Prelude.{
  ℕ, ◌+◌, ◌-◌, ◌≤◌, Option, none, some, List, [], ◌∷◌, leb, ltb, if◌then◌else◌, Result, ok, err,
  ◌>>=◌, ◌>>◌, ensure, require, or_err,
}
use lp_0002_private_multisig.Core.Account.{
  Account, Account-discrete, AccountWithMetadata, default_account,
}
use lp_0002_private_multisig.Core.Balance.{u128_mod}
use lp_0002_private_multisig.Core.Program.{
  AccountPostState, authorized, new_post, new_claimed, new_claimed_if_default,
}
use lp_0002_private_multisig.AuthTransfer.Types.{Instruction, transfer, initialize}

pub data Fault : Type 0 where
  not_uninitialized sender_unauthorized insufficient_balance recipient_overflow : Fault
  wrong_account_count : Fault

-- `u128::checked_sub` and `u128::checked_add`
abbrev pub checked_sub : ℕ → ℕ → Option ℕ
checked_sub a b = if leb b a then some (a - b) else none

abbrev pub checked_add : ℕ → ℕ → Option ℕ
checked_add a b = if ltb (a + b) u128_mod then some (a + b) else none

unfoldable pub initialize_account : AccountWithMetadata → Result Fault AccountPostState
initialize_account pre_state = do
  require (Account-discrete pre_state.account default_account) not_uninitialized
  ok (new_claimed pre_state.account authorized)

unfoldable pub transfer_balance :
    AccountWithMetadata → AccountWithMetadata → ℕ → Result Fault (List AccountPostState)
transfer_balance sender recipient balance_to_move = do
  ensure sender.is_authorized sender_unauthorized
  sender_balance ← or_err (checked_sub sender.account.balance balance_to_move) insufficient_balance
  recipient_balance ←
      or_err (checked_add recipient.account.balance balance_to_move) recipient_overflow
  ok (
      new_post (record sender.account { balance = sender_balance })
      ∷ new_claimed_if_default (record recipient.account { balance = recipient_balance }) authorized
      ∷ [])

-- `main`: the post states of its output, or a panic.
unfoldable pub run : Instruction → List AccountWithMetadata → Result Fault (List AccountPostState)
unfolding initialize_account
run initialize (account_to_claim ∷ []) = do
  post ← initialize_account account_to_claim
  ok (post ∷ [])
run (transfer amount) (sender ∷ recipient ∷ []) = transfer_balance sender recipient amount
run _ _ = err wrong_account_count
