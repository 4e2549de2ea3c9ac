-- ===== src/Tests/Token.antt =====
-- A mint, a transfer and a burn of one token, with a stand-in for Borsh.
use lp_0002_private_multisig.Prelude.{
  ℕ, zero, suc, ◌+◌, ◌≡◌, refl, ap, true, false, none, some, Option, List, [], ◌∷◌, replicate, ok,
  ℕ_discrete,
}
use lp_0002_private_multisig.Core.Bytes.{Bytes, Bytes-discrete}
use lp_0002_private_multisig.Core.Account.{
  Account, Account-discrete, AccountWithMetadata, default_account, to_data,
}
use lp_0002_private_multisig.Core.Program.{
  AccountPostState, new_post, new_claimed_if_default, authorized,
}
use lp_0002_private_multisig.Token.Types.{
  TokenDefinition, TokenHolding, Borsh, zeroized_clone_from, zeroized_from_definition,
  definition_id,
}
use lp_0002_private_multisig.Token.Program.{
  move_holding, mint_holding, burn_holding, store, holding_or, transfer, mint, burn,
}
use lp_0002_private_multisig.Token.Program.Holdings.{units, supply}
use lp_0002_private_multisig.Token.Program.Supply.{
  IsTransfer, IsIssue, transfer-IsTransfer, mint-IsIssue, burn-IsIssue,
}

-- A string with its end marked, before other bytes.
abbrev pub put : Bytes → Bytes → Bytes
put [] rest = 0 ∷ rest
put (x ∷ xs) rest = 1 ∷ x ∷ put xs rest

abbrev pub get : Bytes → Bytes × Bytes
get [] = ([], [])
get (zero ∷ rest) = ([], rest)
get (suc n ∷ []) = ([], [])
get (suc n ∷ x ∷ rest) = (x ∷ (get rest).0, (get rest).1)

pub get-put : (xs rest : Bytes) → get (put xs rest) ≡ (xs, rest)
get-put [] rest = refl
get-put (x ∷ xs) rest = ap (λ (p : Bytes × Bytes). (x ∷ p.0, p.1)) (get-put xs rest)

abbrev pub put_definition : TokenDefinition → Bytes
put_definition (TokenDefinition.fungible n s none) = 0 ∷ s ∷ put n []
put_definition (TokenDefinition.fungible n s (some i)) = 1 ∷ s ∷ put n i
put_definition (TokenDefinition.non_fungible n s i) = 2 ∷ s ∷ put n i

abbrev pub get_definition : Bytes → Option TokenDefinition
get_definition (zero ∷ s ∷ rest) = some (TokenDefinition.fungible (get rest).0 s none)
get_definition (suc zero ∷ s ∷ rest) =
    some (TokenDefinition.fungible (get rest).0 s (some (get rest).1))
get_definition (suc (suc n) ∷ s ∷ rest) =
    some (TokenDefinition.non_fungible (get rest).0 s (get rest).1)
get_definition _ = none

pub get-put_definition : (d : TokenDefinition) → get_definition (put_definition d) ≡ some d
get-put_definition (TokenDefinition.fungible n s none) =
    ap (λ (p : Bytes × Bytes). some (TokenDefinition.fungible p.0 s none)) (get-put n [])
get-put_definition (TokenDefinition.fungible n s (some i)) =
    ap (λ (p : Bytes × Bytes). some (TokenDefinition.fungible p.0 s (some p.1))) (get-put n i)
get-put_definition (TokenDefinition.non_fungible n s i) =
    ap (λ (p : Bytes × Bytes). some (TokenDefinition.non_fungible p.0 s p.1)) (get-put n i)

abbrev pub put_holding : TokenHolding → Bytes
put_holding (TokenHolding.fungible i b) = 0 ∷ b ∷ i
put_holding (TokenHolding.nft_master i p) = 1 ∷ p ∷ i
put_holding (TokenHolding.nft_printed_copy i false) = 2 ∷ 0 ∷ i
put_holding (TokenHolding.nft_printed_copy i true) = 2 ∷ 1 ∷ i

abbrev pub get_holding : Bytes → Option TokenHolding
get_holding (zero ∷ b ∷ i) = some (TokenHolding.fungible i b)
get_holding (suc zero ∷ p ∷ i) = some (TokenHolding.nft_master i p)
get_holding (suc (suc n) ∷ zero ∷ i) = some (TokenHolding.nft_printed_copy i false)
get_holding (suc (suc n) ∷ suc k ∷ i) = some (TokenHolding.nft_printed_copy i true)
get_holding _ = none

pub get-put_holding : (h : TokenHolding) → get_holding (put_holding h) ≡ some h
get-put_holding (TokenHolding.fungible i b) = refl
get-put_holding (TokenHolding.nft_master i p) = refl
get-put_holding (TokenHolding.nft_printed_copy i false) = refl
get-put_holding (TokenHolding.nft_printed_copy i true) = refl

abbrev pub codec : Borsh
codec = record {
  encode_definition = put_definition;
  decode_definition = get_definition;
  decode-encode_definition = get-put_definition;
  encode_holding = put_holding;
  decode_holding = get_holding;
  decode-encode_holding = get-put_holding;
  encode_metadata = λ m. [];
}

abbrev pub coin : Bytes
coin = replicate 32 7

abbrev pub owned_by_token : Bytes → Account
owned_by_token content = record default_account { program_owner = replicate 8 1; content = content }

abbrev definition : AccountWithMetadata
definition = record {
  account = owned_by_token (put_definition (TokenDefinition.fungible [] 100 none));
  is_authorized = true;
  account_id = coin;
}

abbrev holder : AccountWithMetadata
holder = record {
  account = owned_by_token (put_holding (TokenHolding.fungible coin 10));
  is_authorized = true;
  account_id = replicate 32 2;
}

abbrev newcomer : AccountWithMetadata
newcomer = record { account = default_account; is_authorized = true; account_id = replicate 32 3 }

abbrev holding_post : AccountWithMetadata → ℕ → Account
holding_post a balance = record a.account {
  content = put_holding (TokenHolding.fungible coin balance);
}

abbrev transferred : List AccountPostState
transferred =
    new_post (holding_post holder 6)
    ∷ new_claimed_if_default (holding_post newcomer 4) authorized
    ∷ []

accepted_transfer : transfer codec holder newcomer 4 ≡ ok transferred
unfolding transfer move_holding store holding_or zeroized_clone_from definition_id to_data
    Bytes-discrete Account-discrete ℕ_discrete
accepted_transfer = refl

transfer-IsTransfer_example : IsTransfer codec holder newcomer 4 transferred
transfer-IsTransfer_example = transfer-IsTransfer codec holder newcomer 4 accepted_transfer

abbrev definition_post : ℕ → Account
definition_post amount = record definition.account {
  content = put_definition (TokenDefinition.fungible [] amount none);
}

abbrev minted : List AccountPostState
minted =
    new_post (definition_post 105) ∷ new_claimed_if_default (holding_post holder 15) authorized ∷ []

accepted_mint : mint codec definition holder 5 ≡ ok minted
unfolding mint mint_holding store holding_or zeroized_from_definition definition_id to_data
    Bytes-discrete Account-discrete ℕ_discrete
accepted_mint = refl

mint-IsIssue_example :
    (i : IsIssue codec definition holder minted) × (minted
      ≡ new_post i.defined ∷ new_claimed_if_default i.held authorized ∷ [])
    × (definition.is_authorized ≡ true)
    × (holding_or codec holder.account (zeroized_from_definition definition.account_id i.token)
        ≡ ok i.before)
    × (supply i.token' ≡ supply i.token + 5)
    × (units i.after ≡ units i.before + 5)
mint-IsIssue_example = mint-IsIssue codec definition holder 5 accepted_mint

abbrev burnt : List AccountPostState
burnt = new_post (definition_post 97) ∷ new_post (holding_post holder 7) ∷ []

accepted_burn : burn codec definition holder 3 ≡ ok burnt
unfolding burn burn_holding store definition_id to_data Bytes-discrete Account-discrete ℕ_discrete
accepted_burn = refl

burn-IsIssue_example :
    (i : IsIssue codec definition holder burnt) × (burnt
      ≡ new_post i.defined ∷ new_post i.held ∷ [])
    × (holder.is_authorized ≡ true)
    × (get_holding holder.account.content ≡ some i.before)
    × (supply i.token ≡ supply i.token' + 3)
    × (units i.before ≡ units i.after + 3)
burn-IsIssue_example = burn-IsIssue codec definition holder 3 accepted_burn
