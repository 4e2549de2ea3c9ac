-- ===== src/Lib.antt =====
-- A verification library for the private multisig, the ledger below it and the ledger's own programs.
--
-- The ledger (LEE) keeps public accounts in a map, and of private accounts only commitments, in a
-- growing Merkle tree, and the nullifiers of those that are spent. A public transaction names a program and accounts;
-- the state machine runs the program in a zkVM, checks the output by the rules that every program has
-- to keep, follows the calls that the output chains, and applies the resulting diff. A privacy-preserving
-- transaction brings a proof instead, with new commitments and nullifiers, and a deployment brings a
-- program. `msig` is such a
-- program: members enroll hashes of their secrets in a registry, a proposal freezes the Merkle root of
-- the members, approvals prove membership and record one nullifier each, and `execute` releases a
-- treasury by a chained call of `authenticated_transfer`.
--
-- Files and the code that they model (paths from the repository's root):
-- - Core/Account, Core/Hash: lee/state_machine/core/src/account.rs, account/data.rs, nullifier.rs, and
--   the derivations of identifiers in program.rs. Core/Bytes: byte strings and little-endian numbers.
-- - Core/Program, Core/Window, Core/Balance, Core/Sets, Core/Validate:
--   lee/state_machine/core/src/program.rs: outputs, validity windows, wrapped balance sums and
--   `validate_execution`. Core/Validate/Rules says what that function accepts.
-- - Msig/Scheme, Msig/State: programs/msig/core/src/lib.rs: hashes, the tree, the layouts of account
--   data. Msig/Guest: test_program_methods/guest/src/bin/msig.rs: `create_proposal`, `enroll`,
--   `approve`, `execute`, `init_treasury` and `main`. Msig/Tree, Msig/State/RoundTrip and Msig/Guest/*
--   hold their theorems. Msig/Poll is a sequence of ballots on one proposal, each settled or rejected.
-- - AuthTransfer: programs/authenticated_transfer/core/src/lib.rs and
--   program_methods/guest/src/bin/authenticated_transfer.rs (`transfer` is `transfer_balance` here).
-- - Token: programs/token/core/src/lib.rs, programs/token/src and program_methods/guest/src/bin/token.rs.
-- - Vault: programs/vault/core/src/lib.rs and program_methods/guest/src/bin/vault.rs (`deposit` is the
--   instruction `Transfer`).
-- - Amm: programs/amm/core/src/lib.rs (Amm/Types), programs/amm/src (Amm/Swap: swap.rs, Amm/Liquidity:
--   add.rs and remove.rs, Amm/Create: new_definition.rs) and program_methods/guest/src/bin/amm.rs
--   (Amm/Guest). Amm/Words has the `u128` operators that they use. Amm/Lifecycle is a pool through any
--   sequence of runs of the program.
-- - Ata: programs/associated_token_account and
--   program_methods/guest/src/bin/associated_token_account.rs.
-- - System/Faucet, System/Bridge, System/Clock, System/Pinata: programs/faucet, programs/bridge and
--   programs/clock (core/src/lib.rs each), and faucet.rs, bridge.rs, clock.rs, pinata.rs and
--   pinata_token.rs in program_methods/guest/src/bin.
-- - Lee/Public: lee/state_machine/src/validated_state_diff.rs (`from_public_transaction`). Lee/Accounts
--   and Lee/Transition: lee/state_machine/src/state.rs as far as public accounts go.
-- - Lee/MerkleTree: lee/state_machine/src/merkle_tree (`length` is `size` here). Lee/Commitments and
--   Lee/State: lee/state_machine/src/state.rs: the sets of the private state, the whole state and
--   `apply_state_diff`. Lee/Private: the rest of validated_state_diff.rs and the three transitions on
--   the whole state. Lee/Genesis: `V03State::new` and `new_with_genesis_accounts`. Core/Maps: the hash
--   maps of the private state and of the programs.
-- - Tests: runs at concrete inputs, with stand-ins for the parameters.
--
-- Conventions. A panic of a guest and an `Err` are `err`; the early `return` of msig's `main` is an
-- output that is `none`. Numbers are unbounded and the code's wrap-around or check is written out:
-- balances are checked at 2 ^ 128, the `u32` counts of msig wrap at 2 ^ 32, and the plain operators
-- on the reserves and shares of the AMM wrap at 2 ^ 128, as in a release build. `[u8; 32]` is a list of
-- numbers, and its length is a hypothesis where it matters. Hash sets and maps are lists: only
-- membership, the number of members and lookups are used.
--
-- Parameters: SHA-256 (any function to 32 bytes; collision-free only where a theorem says so), Borsh
-- (reads back what it has written), the serialiser of instructions (reads back what it has written
-- where a theorem runs the call that it is chained in), the zkVM with the deployed
-- programs (its outputs hold `u128` balances, being deserialised), whether signatures and proofs
-- verify, the image id of a program's bytecode, and the programs built into the state machine.
-- That a valid proof is of an execution that keeps the nonces of public accounts, which the circuit
-- checks by the rules of Core/Validate, is a hypothesis where a theorem needs it. The msig program is
-- the guest's source at this commit, not a binary built from another.
--
-- Bounds: the membership tree has depth 5 (`TREE_DEPTH`). The loop over chained calls is recursion on
-- the rounds that the counter leaves: the code refuses a round when its counter has passed
-- `MAX_NUMBER_CHAINED_CALLS` = 10, so there are 11, and to run out of them is the code's own error. The commitment tree holds at
-- most 2 ^ 31 leaves, since the table of default values has 32 entries; its loops over powers of two
-- are recursion on 63 doublings, and the climb to the root on the index of the node, which each round
-- lowers.
--
-- Not modelled: the privacy-preserving circuit, key management, the sequencer, the indexer,
-- the wallet and the services around them. Encodings, signatures and encryption are calls of
-- libraries. The programs that a transaction runs are a parameter of it: that the deployed set of the
-- state is the one the machine uses is not stated.
pub mod Prelude
pub mod Core
pub mod Msig
pub mod AuthTransfer
pub mod Token
pub mod Vault
pub mod Amm
pub mod Ata
pub mod System
pub mod Lee
pub mod Tests
