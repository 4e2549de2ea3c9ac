-- ===== src/Token/Types.antt =====
-- programs/token/core/src/lib.rs: definitions, holdings, metadata and instructions.
use lp_0002_private_multisig.Prelude.{ℕ, Bool, false, ◌≡◌, Option, some}
use lp_0002_private_multisig.Core.Bytes.{Bytes}
use lp_0002_private_multisig.Core.Account.{AccountId}

pub data TokenDefinition : Type 0 where
  fungible : Bytes → ℕ → Option AccountId → TokenDefinition
  non_fungible : Bytes → ℕ → AccountId → TokenDefinition

pub data TokenHolding : Type 0 where
  fungible : AccountId → ℕ → TokenHolding
  nft_master : AccountId → ℕ → TokenHolding
  nft_printed_copy : AccountId → Bool → TokenHolding

pub data MetadataStandard : Type 0 where
  simple expanded : MetadataStandard

pub record NewTokenMetadata : Type 0 where
  pub standard : MetadataStandard
  pub uri : Bytes
  pub creators : Bytes

pub record TokenMetadata : Type 0 where
  pub definition_id : AccountId
  pub standard : MetadataStandard
  pub uri : Bytes
  pub creators : Bytes
  pub primary_sale_date : ℕ

pub data NewTokenDefinition : Type 0 where
  fungible : Bytes → ℕ → NewTokenDefinition
  non_fungible : Bytes → ℕ → NewTokenDefinition

pub data Instruction : Type 0 where
  transfer : ℕ → Instruction
  new_fungible_definition : Bytes → ℕ → Instruction
  new_definition_with_metadata : NewTokenDefinition → NewTokenMetadata → Instruction
  initialize_account : Instruction
  burn : ℕ → Instruction
  mint : ℕ → Instruction
  print_nft : Instruction

unfoldable pub zeroized_clone_from : TokenHolding → TokenHolding
zeroized_clone_from (TokenHolding.fungible id b) = TokenHolding.fungible id 0
zeroized_clone_from (TokenHolding.nft_master id p) = TokenHolding.nft_master id 0
zeroized_clone_from (TokenHolding.nft_printed_copy id o) = TokenHolding.nft_printed_copy id false

unfoldable pub zeroized_from_definition : AccountId → TokenDefinition → TokenHolding
zeroized_from_definition id (TokenDefinition.fungible n s m) = TokenHolding.fungible id 0
zeroized_from_definition id (TokenDefinition.non_fungible n s m) =
    TokenHolding.nft_printed_copy id false

unfoldable pub definition_id : TokenHolding → AccountId
definition_id (TokenHolding.fungible id b) = id
definition_id (TokenHolding.nft_master id p) = id
definition_id (TokenHolding.nft_printed_copy id o) = id

-- Borsh, which reads back what it has written.
pub record Borsh : Type 0 where
  pub encode_definition : TokenDefinition → Bytes
  pub decode_definition : Bytes → Option TokenDefinition
  pub decode-encode_definition :
      (d : TokenDefinition) → decode_definition (encode_definition d) ≡ some d
  pub encode_holding : TokenHolding → Bytes
  pub decode_holding : Bytes → Option TokenHolding
  pub decode-encode_holding : (h : TokenHolding) → decode_holding (encode_holding h) ≡ some h
  pub encode_metadata : TokenMetadata → Bytes
