-- ===== src/Core/Account.antt =====
-- lee/state_machine/core/src/account.rs and account/data.rs: accounts, and accounts as a program
-- sees them.
use lp_0002_private_multisig.Prelude.{
  arith, ◌≤◌, ◌≡◌, le→leb, ℕ, ◌*◌, Bool, [], ◌∷◌, Option, none, some, leb, if◌then◌else◌,
  ℕ_discrete, length,
}
use lp_0002_private_multisig.Core.Bytes.{Bytes}

-- Eight 32-bit words.
abbrev pub ProgramId : Type 0
ProgramId = Bytes

-- Thirty-two bytes.
abbrev pub AccountId : Type 0
AccountId = Bytes

abbrev pub default_program_id : ProgramId
default_program_id = 0 ∷ 0 ∷ 0 ∷ 0 ∷ 0 ∷ 0 ∷ 0 ∷ 0 ∷ []

abbrev pub data_max_length : ℕ
data_max_length = 100 * 1024

pub record Account : Type 0 where
  pub program_owner : ProgramId
  pub balance : ℕ  -- u128
  pub content : Bytes  -- `data`
  pub nonce : ℕ  -- u128

unfoldable pub Account-discrete : Discrete Account
unfolding ℕ_discrete
Account-discrete = hlevel ℕ_discrete

-- `Account::default()`
abbrev pub default_account : Account
default_account = record {
  program_owner = default_program_id;
  balance = 0;
  content = [];
  nonce = 0;
}

pub record AccountWithMetadata : Type 0 where
  pub account : Account
  pub is_authorized : Bool
  pub account_id : AccountId

-- `Data::try_from(Vec<u8>)`
unfoldable pub to_data : Bytes → Option Bytes
to_data value = if leb (length value) data_max_length then some value else none

pub to_data-fits : (value : Bytes) → length value ≤ data_max_length → to_data value ≡ some value
unfolding to_data
to_data-fits value h = rw (le→leb (length value) data_max_length h)

pub to_data-some :
    (value : Bytes) {w : Bytes}
    → to_data value ≡ some w
    → (w ≡ value) × (length value ≤ data_max_length)
unfolding to_data
to_data-some value h = ground arith
