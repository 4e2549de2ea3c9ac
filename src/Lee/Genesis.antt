-- ===== src/Lee/Genesis.antt =====
-- lee/state_machine/src/state.rs: the empty state and the genesis state. The programs of the system, whose bytecode
-- the build makes, and Borsh on the clock's data are parameters.
pub mod Formed
use lp_0002_private_multisig.Prelude.{
  ℕ, ◌-◌, none, some, List, [], ◌∷◌, replicate, Result, ok, err, ◌>>=◌, or_err,
}
use lp_0002_private_multisig.Core.Bytes.{Bytes}
use lp_0002_private_multisig.Core.Account.{AccountId, Account, default_account, to_data}
use lp_0002_private_multisig.Core.Balance.{u128_mod}
use lp_0002_private_multisig.Core.Hash.{Sha256}
use lp_0002_private_multisig.System.Faucet.{compute_faucet_account_id}
use lp_0002_private_multisig.System.Bridge.{compute_bridge_account_id}
use lp_0002_private_multisig.System.Clock.{
  ClockBorsh, clock_01_program_account_id, clock_10_program_account_id, clock_50_program_account_id,
}
use lp_0002_private_multisig.Lee.Accounts.{Accounts, insert, apply_diff}
use lp_0002_private_multisig.Lee.MerkleTree.{TreePanic}
use lp_0002_private_multisig.Lee.Commitments.{NullifierSet, empty_set, extend, extend_nullifiers}
use lp_0002_private_multisig.Lee.State.{Program, Programs, V03State, insert_program}

-- The programs that the state machine is built with, the two of the test nets included.
pub record Builtins : Type 0 where
  pub clock : Program
  pub authenticated_transfer : Program
  pub token : Program
  pub amm : Program
  pub ata : Program
  pub vault : Program
  pub faucet : Program
  pub bridge : Program
  pub pinata : Program
  pub pinata_token : Program

-- `DUMMY_COMMITMENT`
abbrev pub dummy_commitment : Bytes
dummy_commitment =
    55 ∷ 228 ∷ 215 ∷ 207 ∷ 112 ∷ 221 ∷ 239 ∷ 49 ∷ 238 ∷ 79 ∷ 71 ∷ 135 ∷ 155 ∷ 15 ∷ 184 ∷ 45 ∷ 104
    ∷ 74 ∷ 51 ∷ 211 ∷ 238 ∷ 42 ∷ 160 ∷ 243 ∷ 15 ∷ 124 ∷ 253 ∷ 62 ∷ 3 ∷ 229 ∷ 90 ∷ 27 ∷ []

-- The panics of genesis.
pub data GenesisPanic : Type 0 where
  tree_panic : TreePanic → GenesisPanic
  clock_data_too_big : GenesisPanic

abbrev pub or_tree_panic : {A : Type 0} → Result TreePanic A → Result GenesisPanic A
or_tree_panic (ok a) = ok a
or_tree_panic (err e) = err (tree_panic e)

-- `unzip`, its two halves.
abbrev pub commitments_of : List (Bytes × Bytes) → List Bytes
commitments_of [] = []
commitments_of ((c, n) ∷ rest) = c ∷ commitments_of rest

abbrev pub nullifiers_with : List (Bytes × Bytes) → List Bytes
nullifiers_with [] = []
nullifiers_with ((c, n) ∷ rest) = n ∷ nullifiers_with rest

module _ (sha : Sha256) (builtins : Builtins) where
  open builtins use {clock, authenticated_transfer, token, amm, ata, vault, faucet, bridge}

  abbrev pub system_faucet_account : Account
  system_faucet_account = record default_account {
    program_owner = authenticated_transfer.id;
    balance = u128_mod - 1;
  }

  abbrev pub system_bridge_account : Account
  system_bridge_account = record default_account { program_owner = authenticated_transfer.id }

  abbrev pub system_faucet_account_id : AccountId
  system_faucet_account_id = compute_faucet_account_id sha faucet.id

  abbrev pub system_bridge_account_id : AccountId
  system_bridge_account_id = compute_bridge_account_id sha bridge.id

  -- The two inserts of the faucet's and of the bridge's account.
  unfoldable pub with_system_accounts : Accounts → Accounts
  with_system_accounts accounts =
      insert system_bridge_account_id system_bridge_account
        (insert system_faucet_account_id system_faucet_account accounts)

  -- `V03State::new`
  unfoldable pub new_state : Result GenesisPanic V03State
  new_state = do
    commitment_set ← or_tree_panic (empty_set 32)
    ok (record {
      public_state = with_system_accounts [];
      commitment_set = commitment_set;
      nullifier_set = [];
      programs = [];
    })

  unfoldable pub initial_accounts : List (AccountId × ℕ) → Accounts
  initial_accounts [] = []
  initial_accounts ((account_id, balance) ∷ rest) =
      (
        account_id,
        record default_account { balance = balance; program_owner = authenticated_transfer.id },
      )
      ∷ initial_accounts rest

  unfoldable pub genesis_programs : Programs
  genesis_programs =
      insert_program
        (insert_program
          (insert_program
            (insert_program
              (insert_program
                (insert_program
                  (insert_program (insert_program [] (some clock)) (some authenticated_transfer))
                  (some token))
                (some amm))
              (some ata))
            (some vault))
          (some faucet))
        (some bridge)

  abbrev pub clock_account : Bytes → Account
  clock_account content = record default_account { program_owner = clock.id; content = content }

  module _ (borsh : ClockBorsh) where
    open borsh use {to_bytes}

    unfoldable pub insert_clock_accounts : Accounts → ℕ → Result GenesisPanic Accounts
    insert_clock_accounts accounts genesis_timestamp = do
      content ←
          or_err (to_data (to_bytes (record { block_id = 0; timestamp = genesis_timestamp })))
            clock_data_too_big
      ok (
          insert clock_50_program_account_id (clock_account content) (
            insert clock_10_program_account_id (clock_account content)
              (insert clock_01_program_account_id (clock_account content) accounts)))

    unfoldable pub new_with_genesis_accounts :
        List (AccountId × ℕ) → List (Bytes × Bytes) → ℕ → Result GenesisPanic V03State
    new_with_genesis_accounts initial_data initial_private_accounts genesis_timestamp = do
      empty ← or_tree_panic (empty_set 32)
      seeded ← or_tree_panic (extend sha empty (dummy_commitment ∷ []))
      commitment_set ← or_tree_panic (extend sha seeded (commitments_of initial_private_accounts))
      public_state ←
          insert_clock_accounts
            (with_system_accounts (apply_diff [] (initial_accounts initial_data))) genesis_timestamp
      ok (record {
        public_state = public_state;
        commitment_set = commitment_set;
        nullifier_set = extend_nullifiers [] (nullifiers_with initial_private_accounts);
        programs = genesis_programs;
      })

module _ (builtins : Builtins) where
  open builtins use {pinata, pinata_token}

  unfoldable pub add_pinata_program : V03State → AccountId → V03State
  add_pinata_program state account_id = record state {
    programs = insert_program state.programs (some pinata);
    public_state =
        insert account_id
          (record {
            program_owner = pinata.id;
            balance = 1500000;
            content = replicate 33 3;
            nonce = 0;
          })
          state.public_state;
  }

  unfoldable pub add_pinata_token_program : V03State → AccountId → V03State
  add_pinata_token_program state account_id = record state {
    programs = insert_program state.programs (some pinata_token);
    public_state =
        insert account_id
          (record default_account { program_owner = pinata_token.id; content = replicate 33 3 })
          state.public_state;
  }
