-- ===== src/Lee/Genesis/Formed.antt =====
-- lee/state_machine/src/state.rs: genesis does not panic, and its state is well formed.
use lp_0002_private_multisig.Prelude.{
  ℕ, ◌+◌, ◌^◌, ◌≤◌, ◌≡◌, ◌≢◌, ap, get_or, refl, ◌∙◌, inl, inr, List, [], ◌∷◌, length, ok, some,
  arith,
}
use lp_0002_private_multisig.Core.Bytes.{Bytes}
use lp_0002_private_multisig.Core.Sets.{Distinct, IsWithin, contains-cases, contains_head}
use lp_0002_private_multisig.Core.Account.{
  ProgramId, AccountId, Account, data_max_length, to_data-fits,
}
use lp_0002_private_multisig.Core.Hash.{Sha256}
use lp_0002_private_multisig.Core.Maps.{members, put-IsWithin_more}
use lp_0002_private_multisig.System.Clock.{
  ClockBorsh, clock_01_program_account_id, clock_10_program_account_id, clock_50_program_account_id,
}
use lp_0002_private_multisig.Lee.Accounts.{
  Accounts, lookup, lookup-insert_self, lookup-insert_ne, keys, insert, apply_diff,
  keys-insert-Distinct,
}
use lp_0002_private_multisig.Lee.MerkleTree.Safe.{with_capacity-Returns}
use lp_0002_private_multisig.Lee.Commitments.{CommitmentSet, empty_set, extend_nullifiers}
use lp_0002_private_multisig.Lee.State.{V03State, insert_program}
use lp_0002_private_multisig.Lee.Private.Sets.{
  IsWellFormed, extend_nullifiers-added, extend-IsExtended, extend_nullifiers-Distinct,
  insert_program-Distinct, apply_diff-Distinct,
}
use lp_0002_private_multisig.Lee.Private.Total.{HasRoom, extend-Returns}
use lp_0002_private_multisig.Lee.Genesis.{
  Builtins, dummy_commitment, commitments_of, nullifiers_with, with_system_accounts,
  initial_accounts, genesis_programs, clock_account, insert_clock_accounts, new_state,
  new_with_genesis_accounts, add_pinata_program, add_pinata_token_program, system_faucet_account,
  system_bridge_account, system_faucet_account_id, system_bridge_account_id,
}

-- An empty set has room for any number of leaves up to the bound.
empty_set-HasRoom :
    (more : ℕ)
    → more ≤ 2 ^ 31
    → (set : CommitmentSet) × (empty_set 32 ≡ ok set)
      × HasRoom set more
      × (set.commitments ≡ [])
      × (set.merkle_tree.size ≡ 0)
unfolding empty_set
empty_set-HasRoom more h =
    let (tree, e, (full, nodes, unused)) = with_capacity-Returns 5 (omega arith) in
    (
      record { merkle_tree = tree; commitments = []; root_history = [] },
      rw e refl,
      record {
        d = 5;
        formed = record {
          shallow = omega arith;
          full = full;
          nodes_of = nodes;
          room = omega (arith, unused);
        };
        room = omega (arith, h, unused);
      },
      refl,
      unused,
    )

clock_50≢clock_01 : clock_50_program_account_id ≢ clock_01_program_account_id
clock_50≢clock_01 e =
    let digit : get_or clock_50_program_account_id 30 0 ≡ get_or clock_01_program_account_id 30 0 =
      ap (λ l. get_or l 30 0) e in
    omega arith

clock_10≢clock_01 : clock_10_program_account_id ≢ clock_01_program_account_id
clock_10≢clock_01 e =
    let digit : get_or clock_10_program_account_id 30 0 ≡ get_or clock_01_program_account_id 30 0 =
      ap (λ l. get_or l 30 0) e in
    omega arith

clock_50≢clock_10 : clock_50_program_account_id ≢ clock_10_program_account_id
clock_50≢clock_10 e =
    let digit : get_or clock_50_program_account_id 30 0 ≡ get_or clock_10_program_account_id 30 0 =
      ap (λ l. get_or l 30 0) e in
    omega arith

module _ (sha : Sha256) (builtins : Builtins) where
  open builtins use {clock, authenticated_transfer, token, amm, ata, vault, faucet, bridge}

  genesis_programs-Distinct : Distinct (members (genesis_programs sha builtins))
  unfolding genesis_programs
  genesis_programs-Distinct =
      let one = insert_program-Distinct sha [] (some clock) tt in
      let two = insert_program-Distinct sha _ (some authenticated_transfer) one in
      let three = insert_program-Distinct sha _ (some token) two in
      let four = insert_program-Distinct sha _ (some amm) three in
      let five = insert_program-Distinct sha _ (some ata) four in
      let six = insert_program-Distinct sha _ (some vault) five in
      let seven = insert_program-Distinct sha _ (some faucet) six in
      insert_program-Distinct sha _ (some bridge) seven

  with_system_accounts-Distinct :
      (accounts : Accounts)
      → Distinct (keys accounts)
      → Distinct (keys (with_system_accounts sha builtins accounts))
  unfolding with_system_accounts
  with_system_accounts-Distinct accounts d =
      keys-insert-Distinct (system_bridge_account_id sha builtins)
        (system_bridge_account sha builtins) _
        (keys-insert-Distinct (system_faucet_account_id sha builtins)
          (system_faucet_account sha builtins) accounts d)

  -- A new state is well formed and has room for `2 ^ 31` commitments.
  new_state-Returns :
      (state : V03State) × (new_state sha builtins ≡ ok state)
      × IsWellFormed sha state
      × HasRoom state.commitment_set (2 ^ 31)
  unfolding new_state
  new_state-Returns =
      let (empty, e, room, none_listed, unused) = empty_set-HasRoom (2 ^ 31) (omega arith) in
      (
        record {
          public_state = with_system_accounts sha builtins [];
          commitment_set = empty;
          nullifier_set = [];
          programs = [];
        },
        rw e refl,
        record {
          accounts_once = with_system_accounts-Distinct [] tt;
          commitments_once = rw none_listed tt;
          nullifiers_once = tt;
          programs_once = tt;
        },
        room,
      )

  -- The ids of the programs of genesis.
  abbrev pub genesis_program_ids : List ProgramId
  genesis_program_ids =
      bridge.id ∷ faucet.id ∷ vault.id ∷ ata.id ∷ amm.id ∷ token.id ∷ authenticated_transfer.id
      ∷ clock.id ∷ []

  genesis_programs-added : IsWithin genesis_program_ids (members (genesis_programs sha builtins))
  unfolding genesis_programs insert_program
  genesis_programs-added = put-IsWithin_more bridge.id _ _ _ (
      put-IsWithin_more faucet.id _ _ _ (
        put-IsWithin_more vault.id _ _ _ (
          put-IsWithin_more ata.id _ _ _ (
            put-IsWithin_more amm.id _ _ _ (
              put-IsWithin_more token.id _ _ _ (
                put-IsWithin_more authenticated_transfer.id _ _ _
                  (put-IsWithin_more clock.id clock [] [] (λ x h. h))))))))

  module _ (borsh : ClockBorsh) where
    open borsh use {to_bytes}

    abbrev pub clock_at_start : ℕ → Account
    clock_at_start genesis_timestamp = record {
      program_owner = clock.id;
      balance = 0;
      content = to_bytes (record { block_id = 0; timestamp = genesis_timestamp });
      nonce = 0;
    }

    -- The three clocks are accounts of the clock program and hold block 0 and the timestamp.
    pub record IsClocked (accounts : Accounts) (genesis_timestamp : ℕ) : Type 0 where
      pub clock_01 :
          lookup clock_01_program_account_id accounts ≡ some (clock_at_start genesis_timestamp)
      pub clock_10 :
          lookup clock_10_program_account_id accounts ≡ some (clock_at_start genesis_timestamp)
      pub clock_50 :
          lookup clock_50_program_account_id accounts ≡ some (clock_at_start genesis_timestamp)

    insert_clock_accounts-Returns :
        (accounts : Accounts) (genesis_timestamp : ℕ)
        → length (to_bytes (record { block_id = 0; timestamp = genesis_timestamp }))
          ≤ data_max_length
        → Distinct (keys accounts)
        → (accounts' : Accounts) × (insert_clock_accounts sha builtins borsh accounts
              genesis_timestamp
            ≡ ok accounts')
          × Distinct (keys accounts')
          × IsClocked accounts' genesis_timestamp
    unfolding insert_clock_accounts
    insert_clock_accounts-Returns accounts genesis_timestamp h d =
        let content : Bytes = to_bytes (record { block_id = 0; timestamp = genesis_timestamp }) in
        let a : Account = clock_account sha builtins content in
        let first = keys-insert-Distinct clock_01_program_account_id a accounts d in
        let second = keys-insert-Distinct clock_10_program_account_id a _ first in
        let third = keys-insert-Distinct clock_50_program_account_id a _ second in
        let m₁ : Accounts = insert clock_01_program_account_id a accounts in
        let m₂ : Accounts = insert clock_10_program_account_id a m₁ in
        (
          insert clock_50_program_account_id a m₂,
          rw (to_data-fits content h) refl,
          third,
          record {
            clock_01 =
                lookup-insert_ne clock_50_program_account_id clock_01_program_account_id a m₂
                  clock_50≢clock_01
                ∙ lookup-insert_ne clock_10_program_account_id clock_01_program_account_id a m₁
                    clock_10≢clock_01
                ∙ lookup-insert_self clock_01_program_account_id a accounts;
            clock_10 =
                lookup-insert_ne clock_50_program_account_id clock_10_program_account_id a m₂
                  clock_50≢clock_10
                ∙ lookup-insert_self clock_10_program_account_id a m₁;
            clock_50 = lookup-insert_self clock_50_program_account_id a m₂;
          },
        )

    -- The state that genesis makes: what its commitments, nullifiers, programs and clocks are.
    pub record IsGenesis (initial_private_accounts : List (Bytes × Bytes)) (genesis_timestamp : ℕ)
        (state : V03State) : Type 0 where
      pub commitments :
          IsWithin
            (dummy_commitment ∷ commitments_of initial_private_accounts)
            (members state.commitment_set.commitments)
      pub nullifiers : IsWithin (nullifiers_with initial_private_accounts) state.nullifier_set
      pub programs : IsWithin genesis_program_ids (members state.programs)
      pub clocks : IsClocked state.public_state genesis_timestamp
      pub formed : IsWellFormed sha state
      pub room : HasRoom state.commitment_set 0
      pub leaves :
          state.commitment_set.merkle_tree.size
          ≡ 1 + length (commitments_of initial_private_accounts)

    -- Where the clock's data fits an account and there are fewer than `2 ^ 31` initial private accounts, genesis does
    -- not panic. Its set has the dummy commitment and the commitment of every initial private account, its other set
    -- their nullifiers; the eight programs are listed; the three clocks belong to the clock program and hold block 0
    -- and the timestamp; no key is listed twice. The commitment tree is well formed, with one leaf more than there are initial private
    -- accounts.
    pub new_with_genesis_accounts-Returns :
        (initial_data : List (AccountId × ℕ)) (initial_private_accounts : List (Bytes × Bytes))
        (genesis_timestamp : ℕ)
        → length (to_bytes (record { block_id = 0; timestamp = genesis_timestamp }))
          ≤ data_max_length
        → 1 + length (commitments_of initial_private_accounts) ≤ 2 ^ 31
        → (state : V03State) × (new_with_genesis_accounts sha builtins borsh initial_data
              initial_private_accounts genesis_timestamp
            ≡ ok state)
          × IsGenesis initial_private_accounts genesis_timestamp state
    unfolding new_with_genesis_accounts
    new_with_genesis_accounts-Returns initial_data initial_private_accounts genesis_timestamp fits
          room =
        let new : List Bytes = commitments_of initial_private_accounts in
        let (empty, e, he, none_listed, unused) = empty_set-HasRoom (1 + length new) room in
        let (seeded, es, hs, one) =
          extend-Returns sha empty (dummy_commitment ∷ [])
            (record { d = he.d; formed = he.formed; room = omega (arith, room, unused) }) in
        let (set, ef, hf, all) =
          extend-Returns sha seeded new
            (record { d = hs.d; formed = hs.formed; room = omega (arith, room, unused, one) }) in
        let start : Accounts = apply_diff [] (initial_accounts sha builtins initial_data) in
        let (accounts, ea, da, clocked) =
          insert_clock_accounts-Returns (with_system_accounts sha builtins start) genesis_timestamp
            fits
            (with_system_accounts-Distinct start
              (apply_diff-Distinct sha [] (initial_accounts sha builtins initial_data) tt)) in
        (
          record {
            public_state = accounts;
            commitment_set = set;
            nullifier_set = extend_nullifiers [] (nullifiers_with initial_private_accounts);
            programs = genesis_programs sha builtins;
          },
          rw (e, es, ef, ea) refl,
          record {
            commitments = λ x h. elim (contains-cases dummy_commitment x new h) [
              | inl is_dummy ↦ (extend-IsExtended sha seeded new ef).kept x (
                  (extend-IsExtended sha empty (dummy_commitment ∷ []) es).added x
                    (rw (← is_dummy) (contains_head dummy_commitment [])))
              | inr later ↦ (extend-IsExtended sha seeded new ef).added x later
            ];
            nullifiers = extend_nullifiers-added [] (nullifiers_with initial_private_accounts);
            programs = genesis_programs-added;
            clocks = clocked;
            formed = record {
              accounts_once = da;
              commitments_once = (extend-IsExtended sha seeded new ef).once (
                  (extend-IsExtended sha empty (dummy_commitment ∷ []) es).once
                    (rw none_listed tt));
              nullifiers_once =
                  extend_nullifiers-Distinct [] (nullifiers_with initial_private_accounts) tt;
              programs_once = genesis_programs-Distinct;
            };
            room = hf;
            leaves = omega (arith, unused, one, all);
          },
        )

-- Adding a pinata account and its program to a well-formed state leaves it well formed.
add_pinata_program-IsWellFormed :
    (sha : Sha256) (builtins : Builtins) (state : V03State) (account_id : AccountId)
    → IsWellFormed sha state
    → IsWellFormed sha (add_pinata_program builtins state account_id)
unfolding add_pinata_program
add_pinata_program-IsWellFormed sha builtins state account_id w = record {
  commitments_once = w.commitments_once;
  nullifiers_once = w.nullifiers_once;
  accounts_once = keys-insert-Distinct account_id _ state.public_state w.accounts_once;
  programs_once = insert_program-Distinct sha state.programs (some builtins.pinata) w.programs_once;
}

add_pinata_token_program-IsWellFormed :
    (sha : Sha256) (builtins : Builtins) (state : V03State) (account_id : AccountId)
    → IsWellFormed sha state
    → IsWellFormed sha (add_pinata_token_program builtins state account_id)
unfolding add_pinata_token_program
add_pinata_token_program-IsWellFormed sha builtins state account_id w = record {
  commitments_once = w.commitments_once;
  nullifiers_once = w.nullifiers_once;
  accounts_once = keys-insert-Distinct account_id _ state.public_state w.accounts_once;
  programs_once =
      insert_program-Distinct sha state.programs (some builtins.pinata_token) w.programs_once;
}
