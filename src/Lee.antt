-- ===== src/Lee.antt =====
-- lee/state_machine/src: the state, public and private, and the transactions on it.
pub mod Accounts
pub mod Public
pub mod Transition
pub mod MerkleTree
pub mod Commitments
pub mod State
pub mod Private
pub mod Genesis
