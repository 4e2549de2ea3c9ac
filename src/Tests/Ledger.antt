-- ===== src/Tests/Ledger.antt =====
-- A transaction that moves five units between two accounts, and a mint, a transfer and a burn of a
-- token, with a stand-in for the virtual machine.
use mathlib.Core.Option.{some-injective}
use lp_0002_private_multisig.Prelude.{
  ◌≡◌, ◌≢◌, refl, true, false, none, some, List, [], ◌∷◌, arith, All, replicate, resize,
  length-resize, ok, ℕ_discrete,
}
use lp_0002_private_multisig.Core.Bytes.{Bytes, Bytes-discrete}
use lp_0002_private_multisig.Core.Account.{Account-discrete, AccountWithMetadata, default_account}
use lp_0002_private_multisig.Core.Hash.{Sha256}
use lp_0002_private_multisig.Core.Balance.{
  IsU128, WrappedBalanceSum-discrete, add_balance, add_balances, from_balances,
}
use lp_0002_private_multisig.Core.Sets.{n_unique, contains}
use lp_0002_private_multisig.Core.Window.{is_valid_for}
use lp_0002_private_multisig.Core.Program.{
  AccountPostState, ProgramOutput, new_post, new_claimed_if_default, new_output, authorized,
}
use lp_0002_private_multisig.Core.Validate.{
  validate_execution, check_pairs, check_pair, pre_balances, post_balances,
}
use lp_0002_private_multisig.Core.Validate.Rules.{
  IsWellBehaved, validate_execution_sound, validate_execution_complete,
}
use lp_0002_private_multisig.AuthTransfer.Guest.{transfer_balance}
use lp_0002_private_multisig.AuthTransfer.Guest.Rules.{
  transfer_balance_complete, transfer_balance-IsWellBehaved,
}
use lp_0002_private_multisig.Lee.Accounts.{
  Accounts, lookup, insert, get_account_by_id, nonce_increment, apply_diff, bump_nonces,
}
use lp_0002_private_multisig.Lee.Public.{
  Vm, Transaction, Caller-discrete, check_message, view, is_indeed_authorized, authorized_pdas,
  check_pres, claim_posts, update_diff, settle_output, run_calls, from_public_transaction,
}
use lp_0002_private_multisig.Lee.Transition.{apply_state_diff, transition_from_public_transaction}
use lp_0002_private_multisig.Lee.Transition.Replay.{here, step}
use lp_0002_private_multisig.Lee.Transition.Total.{Reaches-written}
use lp_0002_private_multisig.Lee.Public.Conserve.{from_public_transaction-IsFair}
use lp_0002_private_multisig.Lee.Public.Diff.{written, IsFair}

abbrev pub cut32 : Sha256
cut32 = record { hash_bytes = resize 32 0; length-hash_bytes = length-resize 32 0 }

abbrev prog : Bytes
prog = replicate 8 1

abbrev pub alice : AccountWithMetadata
alice = record {
  account = record default_account { program_owner = prog; balance = 10 };
  is_authorized = true;
  account_id = replicate 32 1;
}

abbrev bob : AccountWithMetadata
bob = record {
  account = record default_account { program_owner = prog };
  is_authorized = false;
  account_id = replicate 32 2;
}

abbrev moved : List AccountPostState
moved =
    new_post (record alice.account { balance = 5 })
    ∷ new_claimed_if_default (record bob.account { balance = 5 }) authorized
    ∷ []

accepted_transfer : transfer_balance alice bob 5 ≡ ok moved
accepted_transfer = transfer_balance_complete alice bob 5 refl (omega arith) (omega arith)

distinct_ids : alice.account_id ≢ bob.account_id
distinct_ids h = cc

owned_prog : prog ≢ replicate 8 0
owned_prog h = cc

well_behaved : IsWellBehaved prog (alice ∷ bob ∷ []) moved
well_behaved =
    transfer_balance-IsWellBehaved prog alice bob 5 distinct_ids refl owned_prog
      (λ e. absurd (owned_prog e)) accepted_transfer

transfer_balance-IsWellBehaved_example : IsWellBehaved prog (alice ∷ bob ∷ []) moved
transfer_balance-IsWellBehaved_example =
    transfer_balance-IsWellBehaved prog alice bob 5 distinct_ids refl owned_prog
      (λ e. absurd (owned_prog e)) accepted_transfer

before-IsU128 : All IsU128 (pre_balances (alice ∷ bob ∷ []))
before-IsU128 = (omega arith, (omega arith, tt))

after-IsU128 : All IsU128 (post_balances moved)
unfolding Bytes-discrete
after-IsU128 = (omega arith, (omega arith, tt))

validate_execution_complete_example : validate_execution prog (alice ∷ bob ∷ []) moved ≡ ok tt
validate_execution_complete_example =
    validate_execution_complete prog (alice ∷ bob ∷ []) moved before-IsU128 after-IsU128
      (omega arith) well_behaved

accepted_output : validate_execution prog (alice ∷ bob ∷ []) moved ≡ ok tt
unfolding validate_execution n_unique contains check_pairs check_pair add_balance add_balances
    from_balances Bytes-discrete Account-discrete WrappedBalanceSum-discrete ℕ_discrete
accepted_output = refl

validate_execution_sound_example : IsWellBehaved prog (alice ∷ bob ∷ []) moved
validate_execution_sound_example =
    validate_execution_sound prog (alice ∷ bob ∷ []) moved before-IsU128 after-IsU128
      accepted_output

abbrev out : ProgramOutput
out = new_output prog none (5 ∷ []) (alice ∷ bob ∷ []) moved

pub ran-IsU128 :
    (o : ProgramOutput)
    → some out ≡ some o
    → All IsU128 (pre_balances o.pre_states) × All IsU128 (post_balances o.post_states)
ran-IsU128 o h = let e : out ≡ o = some-injective out o h in rw (← e) (before-IsU128, after-IsU128)

abbrev pub machine : Vm
machine = record {
  deployed = λ p. true;
  execute = λ p c pres i. some out;
  execute_u128 = λ p c pres i {out = o} h. ran-IsU128 o h;
}

abbrev pub ledger : Accounts
ledger = (alice.account_id, alice.account) ∷ (bob.account_id, bob.account) ∷ []

abbrev pub payment : Transaction
payment = record {
  program_id = prog;
  account_ids = alice.account_id ∷ bob.account_id ∷ [];
  nonces = 0 ∷ [];
  instruction_data = 5 ∷ [];
  signer_account_ids = alice.account_id ∷ [];
  signatures_valid = true;
}

abbrev pub paid : Accounts
paid =
    (alice.account_id, record alice.account { balance = 5 })
    ∷ (bob.account_id, record bob.account { balance = 5 })
    ∷ []

pub accepted_payment : from_public_transaction cut32 ledger machine 0 0 payment ≡ ok paid
unfolding from_public_transaction check_message run_calls settle_output check_pres view
    is_indeed_authorized authorized_pdas claim_posts update_diff lookup insert get_account_by_id
    validate_execution n_unique contains check_pairs check_pair add_balance add_balances
    from_balances is_valid_for Bytes-discrete Account-discrete WrappedBalanceSum-discrete
    Caller-discrete ℕ_discrete
accepted_payment = refl

from_public_transaction-IsFair_example : IsFair cut32 ledger paid
from_public_transaction-IsFair_example =
    from_public_transaction-IsFair cut32 ledger machine 0 0 payment accepted_payment

abbrev pub settled : Accounts
settled =
    (alice.account_id, record alice.account { balance = 5; nonce = 1 })
    ∷ (bob.account_id, record bob.account { balance = 5 })
    ∷ []

applied_payment : transition_from_public_transaction cut32 machine ledger 0 0 payment ≡ ok settled
unfolding transition_from_public_transaction apply_state_diff apply_diff bump_nonces nonce_increment
    insert get_account_by_id lookup Bytes-discrete ℕ_discrete
applied_payment = rw accepted_payment refl

Reaches-written_example : written settled ≡ written ledger
Reaches-written_example =
    Reaches-written cut32
      (step machine 0 0 payment ledger settled settled applied_payment (here settled))
