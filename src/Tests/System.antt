-- ===== src/Tests/System.antt =====
-- Runs of the clock, the bridge and the associated token accounts.
use lp_0002_private_multisig.Prelude.{
  ℕ, ◌+◌, ◌≡◌, inl, refl, true, false, none, some, Option, List, [], ◌∷◌, ◌++◌, ok, replicate,
  ℕ_discrete,
}
use lp_0002_private_multisig.Core.Bytes.{Bytes, Bytes-discrete}
use lp_0002_private_multisig.Core.Account.{Account, AccountWithMetadata, default_account, to_data}
use lp_0002_private_multisig.Core.Hash.{for_public_pda}
use lp_0002_private_multisig.Core.Program.{
  AccountPostState, ChainedCall, ProgramOutput, InstructionData, new_post, new_output,
  with_chained_calls,
}
use lp_0002_private_multisig.Token.Types as Token
use lp_0002_private_multisig.Token.Types.{TokenHolding}
use lp_0002_private_multisig.Vault.Guest.{VaultInstruction, unchanged_post_states}
use lp_0002_private_multisig.System.Faucet.{no_caller}
use lp_0002_private_multisig.System.Bridge.{
  bridge_withdraw, bridge_seed_domain_separator, compute_bridge_account_id, bridge_calls,
  bridge_main,
}
use lp_0002_private_multisig.System.Bridge.Authority.{IsOwnAuthority, bridge_main-IsOwnAuthority}
use lp_0002_private_multisig.System.Clock.{
  ClockAccountData, ClockBorsh, update_if_multiple, next_block_id, tick,
}
use lp_0002_private_multisig.System.Clock.Ticks.{IsClock, tick-IsClock}
use lp_0002_private_multisig.Ata.{
  transfer_call, compute_ata_seed, get_associated_token_account_id, verify_ata_and_get_seed,
  owned_seed, transfer_from_associated_token_account, ata_run,
}
use lp_0002_private_multisig.Ata.Ownership.{IsOwned, IsTaking, ata_run-IsOwned}
use lp_0002_private_multisig.Tests.Token.{codec, coin, owned_by_token}
use lp_0002_private_multisig.Tests.Vault.{short_sha, words_of}
use lp_0002_private_multisig.Tests.Pools.{token_words}

abbrev clock_bytes : ClockAccountData → Bytes
clock_bytes c = c.block_id ∷ c.timestamp ∷ []

abbrev clock_data : Bytes → Option ClockAccountData
clock_data (block_id ∷ timestamp ∷ []) =
    some (record { block_id = block_id; timestamp = timestamp })
clock_data _ = none

abbrev pub clock_codec : ClockBorsh
clock_codec = record {
  to_bytes = clock_bytes;
  from_bytes = clock_data;
  from_bytes-to_bytes = λ c. refl;
}

abbrev clock_at : ℕ → Account
clock_at block_id = record default_account { content = block_id ∷ 1000 ∷ [] }

abbrev ticked : Account
ticked = record default_account { content = 10 ∷ 2000 ∷ [] }

tenth_block :
    tick clock_codec (clock_at 9) (clock_at 0) (clock_at 0) 2000
    ≡ ok (new_post ticked ∷ new_post ticked ∷ new_post (clock_at 0) ∷ [])
unfolding tick update_if_multiple next_block_id to_data
tenth_block = refl

shown :
    (block_id : ℕ)
    → (c : ClockAccountData) × (clock_codec.from_bytes (block_id ∷ 1000 ∷ []) ≡ some c)
      × (c.block_id ≡ block_id)
shown block_id = (record { block_id = block_id; timestamp = 1000 }, refl, refl)

tick-IsClock_example :
    (p_01 : AccountPostState) × (p_10 : AccountPostState) × (p_50 : AccountPostState) × ((new_post
          ticked
        ∷ new_post ticked
        ∷ new_post (clock_at 0)
        ∷ [])
      ≡ p_01 ∷ p_10 ∷ p_50 ∷ [])
    × IsClock clock_codec p_01.account p_10.account p_50.account (9 + 1)
tick-IsClock_example =
    tick-IsClock clock_codec (clock_at 9) (clock_at 0) (clock_at 0) 9 2000
      (record { every = shown 9; tenth = shown 0; fiftieth = shown 0 }) tenth_block

-- With this hash every derived account stands at one place.
abbrev derived : Bytes
derived = for_public_pda short_sha (replicate 8 4) []

abbrev bridge : AccountWithMetadata
bridge = record {
  account = record default_account { program_owner = replicate 8 3 };
  is_authorized = false;
  account_id = derived;
}

abbrev payer : AccountWithMetadata
payer = record {
  account = record default_account { program_owner = replicate 8 3; balance = 40 };
  is_authorized = true;
  account_id = replicate 32 5;
}

abbrev vault_words : VaultInstruction → InstructionData
vault_words i = []

abbrev withdrawn : ProgramOutput
withdrawn =
    with_chained_calls
      (new_output (replicate 8 4) none [] (payer ∷ bridge ∷ [])
        (unchanged_post_states (payer ∷ bridge ∷ [])))
      (record {
        program_id = replicate 8 3;
        pre_states = payer ∷ bridge ∷ [];
        instruction_data = 0 ∷ 25 ∷ [];
        pda_seeds = [];
      }
        ∷ [])

accepted_withdrawal :
    bridge_main short_sha words_of vault_words
      (replicate 8 4)
      none
      []
      (payer ∷ bridge ∷ [])
      (bridge_withdraw 25 [])
    ≡ ok withdrawn
unfolding bridge_main bridge_calls no_caller compute_bridge_account_id for_public_pda Bytes-discrete
    ℕ_discrete
accepted_withdrawal = refl

bridge_main-IsOwnAuthority_example :
    IsOwnAuthority
      (compute_bridge_account_id short_sha (replicate 8 4))
      bridge_seed_domain_separator
      none
      (payer ∷ bridge ∷ [])
      withdrawn
bridge_main-IsOwnAuthority_example =
    bridge_main-IsOwnAuthority short_sha words_of vault_words (replicate 8 4) none []
      (payer ∷ bridge ∷ []) (bridge_withdraw 25 []) accepted_withdrawal

abbrev token_owner : AccountWithMetadata
token_owner = record {
  account = default_account;
  is_authorized = true;
  account_id = replicate 32 6;
}

abbrev associated : AccountWithMetadata
associated = record {
  account = owned_by_token (codec.encode_holding (TokenHolding.fungible coin 30));
  is_authorized = false;
  account_id = derived;
}

abbrev seed_of : Bytes
seed_of = short_sha.hash_bytes (replicate 32 6 ++ coin)

abbrev sent : List AccountPostState × List ChainedCall
sent = (
  new_post token_owner.account ∷ new_post associated.account ∷ new_post payer.account ∷ [],
  record {
    program_id = replicate 8 1;
    pre_states = record associated { is_authorized = true } ∷ payer ∷ [];
    instruction_data = 0 ∷ 12 ∷ [];
    pda_seeds = seed_of ∷ [];
  }
      ∷ [],
)

accepted_send :
    ata_run short_sha codec token_words
      (transfer_call (replicate 8 4) 12)
      (token_owner ∷ associated ∷ payer ∷ [])
    ≡ ok sent
unfolding ata_run transfer_from_associated_token_account owned_seed verify_ata_and_get_seed
    compute_ata_seed get_associated_token_account_id for_public_pda Token.definition_id
    Bytes-discrete ℕ_discrete
accepted_send = refl

ata_run-IsOwned_example :
    (seed : Bytes) × (call : ChainedCall) × (sent.1 ≡ call ∷ [])
    × (sent.0
        ≡ new_post token_owner.account ∷ new_post associated.account ∷ new_post payer.account ∷ [])
    × (call.program_id ≡ associated.account.program_owner)
    × (call.pda_seeds ≡ seed ∷ [])
    × IsTaking token_words (transfer_call (replicate 8 4) 12) associated payer call
    × IsOwned short_sha codec (replicate 8 4) token_owner associated seed
ata_run-IsOwned_example =
    ata_run-IsOwned short_sha codec token_words (transfer_call (replicate 8 4) 12) token_owner
      associated payer (replicate 8 4) 12 (inl refl) accepted_send
