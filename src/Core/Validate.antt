-- ===== src/Core/Validate.antt =====
-- lee/state_machine/core/src/program.rs: `validate_execution`, the rules that every execution of a
-- program has to keep.
pub mod Rules
use lp_0002_private_multisig.Prelude.{
  ℕ, Option, some, none, Bool, List, [], ◌∷◌, map, ltb, ◌==◌, if◌then◌else◌, length, Result, ok,
  err, ◌>>=◌, ◌>>◌, ensure, require, or_err, ℕ_discrete,
}
use lp_0002_private_multisig.Core.Bytes.{Bytes, Bytes-discrete}
use lp_0002_private_multisig.Core.Account.{
  ProgramId, AccountId, Account, Account-discrete, AccountWithMetadata, default_account,
  default_program_id,
}
use lp_0002_private_multisig.Core.Program.{AccountPostState}
use lp_0002_private_multisig.Core.Sets.{n_unique}
use lp_0002_private_multisig.Core.Balance.{
  WrappedBalanceSum, WrappedBalanceSum-discrete, from_balances,
}

pub data ValidationError : Type 0 where
  not_unique : ValidationError
  mismatched_length : ℕ → ℕ → ValidationError
  modified_nonce : AccountId → ValidationError
  modified_program_owner : AccountId → ValidationError
  unauthorized_balance_decrease : AccountId → ProgramId → ProgramId → ValidationError
  unauthorized_data_modification : AccountId → ProgramId → ValidationError
  non_default_account_with_default_owner : AccountId → ValidationError
  balance_sum_overflow : ValidationError
  mismatched_total_balance : WrappedBalanceSum → WrappedBalanceSum → ValidationError

abbrev pub ids : List AccountWithMetadata → List AccountId
ids [] = []
ids (p ∷ ps) = p.account_id ∷ ids ps

abbrev pub pre_balances : List AccountWithMetadata → List ℕ
pre_balances [] = []
pre_balances (p ∷ ps) = p.account.balance ∷ pre_balances ps

abbrev pub post_balances : List AccountPostState → List ℕ
post_balances [] = []
post_balances (p ∷ ps) = p.account.balance ∷ post_balances ps

-- An `if` of the loop that returns an error unless `P`, an equation, holds.
abbrev unless :
    {P : Type 0} → Dec P → Result ValidationError (Unit {0}) → Result ValidationError (Unit {0})
unless (yes p) r = ok tt
unless (no p) r = r

module _ (executing_program_id : ProgramId) where
  -- An error unless the executing program owns the account.
  abbrev owned : Account → ValidationError → Result ValidationError (Unit {0})
  owned a e = unless (Bytes-discrete a.program_owner executing_program_id) (err e)

  -- The tests 5, 6 and 7 of the loop.
  check_debit : AccountWithMetadata → Account → Result ValidationError (Unit {0})
  check_debit pre post =
      if ltb post.balance pre.account.balance
      then owned pre.account (
          unauthorized_balance_decrease pre.account_id pre.account.program_owner
            executing_program_id)
      else ok tt

  check_data : AccountWithMetadata → Account → Result ValidationError (Unit {0})
  check_data pre post = unless (Bytes-discrete pre.account.content post.content) (
      unless (Account-discrete pre.account default_account)
        (owned pre.account (unauthorized_data_modification pre.account_id executing_program_id)))

  check_fresh : AccountWithMetadata → Account → Result ValidationError (Unit {0})
  check_fresh pre post = elim (Bytes-discrete post.program_owner default_program_id) [
    | yes p ↦
        unless (Account-discrete pre.account default_account)
          (err (non_default_account_with_default_owner pre.account_id))
    | no p ↦ ok tt
  ]

  -- One round of the loop over the pairs of states.
  unfoldable pub check_pair :
      AccountWithMetadata → AccountPostState → Result ValidationError (Unit {0})
  unfolding check_debit check_data check_fresh
  check_pair pre post = do
    require (ℕ_discrete pre.account.nonce post.account.nonce) (modified_nonce pre.account_id)
    require (Bytes-discrete pre.account.program_owner post.account.program_owner)
        (modified_program_owner pre.account_id)
    check_debit pre post.account
    check_data pre post.account
    check_fresh pre post.account

  -- The loop; `zip` stops with the shorter list.
  unfoldable pub check_pairs :
      List AccountWithMetadata → List AccountPostState → Result ValidationError (Unit {0})
  check_pairs [] posts = ok tt
  check_pairs (pre ∷ pres) [] = ok tt
  check_pairs (pre ∷ pres) (post ∷ posts) = do check_pair pre post; check_pairs pres posts

  unfoldable pub validate_execution :
      List AccountWithMetadata → List AccountPostState → Result ValidationError (Unit {0})
  validate_execution pre_states post_states = do
    require (ℕ_discrete (length pre_states) (n_unique (ids pre_states))) not_unique
    require (ℕ_discrete (length pre_states) (length post_states))
        (mismatched_length (length pre_states) (length post_states))
    check_pairs pre_states post_states
    total_pre ← or_err (from_balances (pre_balances pre_states)) balance_sum_overflow
    total_post ← or_err (from_balances (post_balances post_states)) balance_sum_overflow
    require (WrappedBalanceSum-discrete total_pre total_post)
        (mismatched_total_balance total_pre total_post)
