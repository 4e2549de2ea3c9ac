-- ===== src/Token/Program.antt =====
-- programs/token/src: the operations of the token program. A panic is an `err`.
pub mod Holdings
pub mod Supply
use lp_0002_private_multisig.Prelude.{
  ℕ, ◌-◌, ◌+◌, Bool, true, false, not, Option, none, some, List, [], ◌∷◌, ltb, if◌then◌else◌,
  Result, ok, err, ◌>>=◌, ◌>>◌, ensure, require, or_err, ℕ_discrete,
}
use lp_0002_private_multisig.Core.Bytes.{Bytes, Bytes-discrete}
use lp_0002_private_multisig.Core.Account.{
  AccountId, Account, Account-discrete, AccountWithMetadata, default_account, to_data,
}
use lp_0002_private_multisig.Core.Program.{
  AccountPostState, authorized, new_post, new_claimed, new_claimed_if_default,
}
use lp_0002_private_multisig.AuthTransfer.Guest.{checked_sub, checked_add}
use lp_0002_private_multisig.Token.Types.{
  TokenDefinition, TokenHolding, TokenMetadata, NewTokenDefinition, NewTokenMetadata, Instruction,
  Borsh, zeroized_clone_from, zeroized_from_definition, definition_id,
}

pub data Fault : Type 0 where
  unauthorized invalid_data id_mismatch insufficient_balance balance_overflow : Fault
  invalid_nft_balance not_owned already_owned mismatched_types not_default data_too_big : Fault
  supply_overflow supply_underflow nft_mint not_a_master no_prints_left wrong_account_count : Fault

-- The `match` of `transfer`, on the two holdings.
unfoldable pub move_holding :
    TokenHolding → TokenHolding → ℕ → Result Fault (TokenHolding × TokenHolding)
move_holding (TokenHolding.fungible i s) (TokenHolding.fungible j r) amount = do
  s' ← or_err (checked_sub s amount) insufficient_balance
  r' ← or_err (checked_add r amount) balance_overflow
  ok (TokenHolding.fungible i s', TokenHolding.fungible j r')
move_holding (TokenHolding.nft_master i s) (TokenHolding.nft_master j r) amount = do
  require (ℕ_discrete r 0) invalid_nft_balance
  require (ℕ_discrete s amount) invalid_nft_balance
  ok (TokenHolding.nft_master i r, TokenHolding.nft_master j s)
move_holding (TokenHolding.nft_printed_copy i s) (TokenHolding.nft_printed_copy j r) amount = do
  require (ℕ_discrete amount 1) invalid_nft_balance
  ensure s not_owned
  ensure (not r) already_owned
  ok (TokenHolding.nft_printed_copy i false, TokenHolding.nft_printed_copy j true)
move_holding _ _ amount = err mismatched_types

-- The `match` of `mint`.
unfoldable pub mint_holding :
    TokenDefinition → TokenHolding → ℕ → Result Fault (TokenDefinition × TokenHolding)
mint_holding (TokenDefinition.fungible n supply m) (TokenHolding.fungible i balance) amount = do
  balance' ← or_err (checked_add balance amount) balance_overflow
  supply' ← or_err (checked_add supply amount) supply_overflow
  ok (TokenDefinition.fungible n supply' m, TokenHolding.fungible i balance')
mint_holding (TokenDefinition.non_fungible n s m) (TokenHolding.nft_master i p) amount =
    err nft_mint
mint_holding (TokenDefinition.non_fungible n s m) (TokenHolding.nft_printed_copy i o) amount =
    err nft_mint
mint_holding _ _ amount = err mismatched_types

-- The `match` of `burn`.
unfoldable pub burn_holding :
    TokenDefinition → TokenHolding → ℕ → Result Fault (TokenDefinition × TokenHolding)
burn_holding (TokenDefinition.fungible n supply m) (TokenHolding.fungible i balance) amount = do
  balance' ← or_err (checked_sub balance amount) insufficient_balance
  supply' ← or_err (checked_sub supply amount) supply_underflow
  ok (TokenDefinition.fungible n supply' m, TokenHolding.fungible i balance')
burn_holding (TokenDefinition.non_fungible n supply m) (TokenHolding.nft_master i prints) amount =
    do
      supply' ← or_err (checked_sub supply amount) supply_underflow
      prints' ← or_err (checked_sub prints amount) insufficient_balance
      ok (TokenDefinition.non_fungible n supply' m, TokenHolding.nft_master i prints')
burn_holding (TokenDefinition.non_fungible n supply m) (TokenHolding.nft_printed_copy i owned)
      amount =
    do
      require (ℕ_discrete amount 1) invalid_nft_balance
      ensure owned not_owned
      supply' ← or_err (checked_sub supply 1) supply_underflow
      ok (TokenDefinition.non_fungible n supply' m, TokenHolding.nft_printed_copy i false)
burn_holding _ _ amount = err mismatched_types

-- The part of `print_nft` behind `let … else`: the master with one print less, and the copy.
unfoldable pub print_holding : TokenHolding → Result Fault (TokenHolding × TokenHolding)
print_holding (TokenHolding.nft_master i prints) = do
  ensure (ltb 1 prints) no_prints_left
  ok (TokenHolding.nft_master i (prints - 1), TokenHolding.nft_printed_copy i true)
print_holding _ = err not_a_master

-- The definition and the holding that `new_definition_with_metadata` builds.
unfoldable pub define : AccountId → AccountId → NewTokenDefinition → TokenDefinition × TokenHolding
define id metadata_id (NewTokenDefinition.fungible name supply) =
    (TokenDefinition.fungible name supply (some metadata_id), TokenHolding.fungible id supply)
define id metadata_id (NewTokenDefinition.non_fungible name supply) =
    (TokenDefinition.non_fungible name supply metadata_id, TokenHolding.nft_master id supply)

module _ (borsh : Borsh) where
  open borsh use {
    encode_definition, decode_definition, encode_holding, decode_holding, encode_metadata,
  }

  -- `account.data = Data::from(&…)`
  unfoldable pub store : Account → Bytes → Result Fault Account
  store a bytes = do
    content ← or_err (to_data bytes) data_too_big
    ok (record a { content = content })

  -- The holding of an account, or `zero` if the account is a default one.
  unfoldable pub holding_or : Account → TokenHolding → Result Fault TokenHolding
  holding_or a zero = elim (Account-discrete a default_account) [
    | yes p ↦ ok zero
    | no p ↦ or_err (decode_holding a.content) invalid_data
  ]

  unfoldable pub transfer :
      AccountWithMetadata → AccountWithMetadata → ℕ → Result Fault (List AccountPostState)
  transfer sender recipient balance_to_move = do
    ensure sender.is_authorized unauthorized
    sender_holding ← or_err (decode_holding sender.account.content) invalid_data
    recipient_holding ← holding_or recipient.account (zeroized_clone_from sender_holding)
    require (Bytes-discrete (definition_id sender_holding) (definition_id recipient_holding))
        id_mismatch
    moved ← move_holding sender_holding recipient_holding balance_to_move
    sender_post ← store sender.account (encode_holding moved.0)
    recipient_post ← store recipient.account (encode_holding moved.1)
    ok (new_post sender_post ∷ new_claimed_if_default recipient_post authorized ∷ [])

  unfoldable pub mint :
      AccountWithMetadata → AccountWithMetadata → ℕ → Result Fault (List AccountPostState)
  mint definition_account user_holding_account amount_to_mint = do
    ensure definition_account.is_authorized unauthorized
    definition ← or_err (decode_definition definition_account.account.content) invalid_data
    holding ←
        holding_or user_holding_account.account
          (zeroized_from_definition definition_account.account_id definition)
    require (Bytes-discrete definition_account.account_id (definition_id holding)) id_mismatch
    minted ← mint_holding definition holding amount_to_mint
    definition_post ← store definition_account.account (encode_definition minted.0)
    holding_post ← store user_holding_account.account (encode_holding minted.1)
    ok (new_post definition_post ∷ new_claimed_if_default holding_post authorized ∷ [])

  unfoldable pub burn :
      AccountWithMetadata → AccountWithMetadata → ℕ → Result Fault (List AccountPostState)
  burn definition_account user_holding_account amount_to_burn = do
    ensure user_holding_account.is_authorized unauthorized
    definition ← or_err (decode_definition definition_account.account.content) invalid_data
    holding ← or_err (decode_holding user_holding_account.account.content) invalid_data
    require (Bytes-discrete definition_account.account_id (definition_id holding)) id_mismatch
    burnt ← burn_holding definition holding amount_to_burn
    definition_post ← store definition_account.account (encode_definition burnt.0)
    holding_post ← store user_holding_account.account (encode_holding burnt.1)
    ok (new_post definition_post ∷ new_post holding_post ∷ [])

  unfoldable pub initialize_account :
      AccountWithMetadata → AccountWithMetadata → Result Fault (List AccountPostState)
  initialize_account definition_account account_to_initialize = do
    require (Account-discrete account_to_initialize.account default_account) not_default
    definition ← or_err (decode_definition definition_account.account.content) invalid_data
    account ←
        store account_to_initialize.account
          (encode_holding (zeroized_from_definition definition_account.account_id definition))
    ok (new_post definition_account.account ∷ new_claimed account authorized ∷ [])

  unfoldable pub print_nft :
      AccountWithMetadata → AccountWithMetadata → Result Fault (List AccountPostState)
  print_nft master_account printed_account = do
    ensure master_account.is_authorized unauthorized
    require (Account-discrete printed_account.account default_account) not_default
    master ← or_err (decode_holding master_account.account.content) invalid_data
    printed ← print_holding master
    master_post ← store master_account.account (encode_holding printed.0)
    printed_post ← store printed_account.account (encode_holding printed.1)
    ok (new_post master_post ∷ new_claimed printed_post authorized ∷ [])

  unfoldable pub new_fungible_definition :
      AccountWithMetadata → AccountWithMetadata → Bytes → ℕ → Result Fault (List AccountPostState)
  new_fungible_definition definition_target holding_target name total_supply = do
    require (Account-discrete definition_target.account default_account) not_default
    require (Account-discrete holding_target.account default_account) not_default
    definition_post ←
        store definition_target.account
          (encode_definition (TokenDefinition.fungible name total_supply none))
    holding_post ←
        store holding_target.account
          (encode_holding (TokenHolding.fungible definition_target.account_id total_supply))
    ok (new_claimed definition_post authorized ∷ new_claimed holding_post authorized ∷ [])

  unfoldable pub new_definition_with_metadata :
      AccountWithMetadata
      → AccountWithMetadata
      → AccountWithMetadata
      → NewTokenDefinition
      → NewTokenMetadata
      → Result Fault (List AccountPostState)
  new_definition_with_metadata definition_target holding_target metadata_target new_definition
        metadata =
      do
        require (Account-discrete definition_target.account default_account) not_default
        require (Account-discrete holding_target.account default_account) not_default
        require (Account-discrete metadata_target.account default_account) not_default
        let token = define definition_target.account_id metadata_target.account_id new_definition
        let token_metadata : TokenMetadata = record {
          definition_id = definition_target.account_id;
          standard = metadata.standard;
          uri = metadata.uri;
          creators = metadata.creators;
          primary_sale_date = 0;
        }
        definition_post ← store definition_target.account (encode_definition token.0)
        holding_post ← store holding_target.account (encode_holding token.1)
        metadata_post ← store metadata_target.account (encode_metadata token_metadata)
        ok (
            new_claimed definition_post authorized
            ∷ new_claimed holding_post authorized
            ∷ new_claimed metadata_post authorized
            ∷ [])

  -- `main` of program_methods/guest/src/bin/token.rs: the post states of its output, or a panic.
  unfoldable pub run : Instruction → List AccountWithMetadata → Result Fault (List AccountPostState)
  run (Instruction.transfer amount) (sender ∷ recipient ∷ []) = transfer sender recipient amount
  run (Instruction.new_fungible_definition name supply) (definition ∷ holding ∷ []) =
      new_fungible_definition definition holding name supply
  run (Instruction.new_definition_with_metadata new metadata) (definition ∷ holding ∷ meta ∷ []) =
      new_definition_with_metadata definition holding meta new metadata
  run Instruction.initialize_account (definition ∷ account ∷ []) =
      initialize_account definition account
  run (Instruction.burn amount) (definition ∷ holding ∷ []) = burn definition holding amount
  run (Instruction.mint amount) (definition ∷ holding ∷ []) = mint definition holding amount
  run Instruction.print_nft (master ∷ printed ∷ []) = print_nft master printed
  run _ _ = err wrong_account_count
