-- ===== src/Msig.antt =====
-- The LP-0002 multisig: programs/msig/core and test_program_methods/guest/src/bin/msig.rs.
pub mod Scheme
pub mod Tree
pub mod State
pub mod Guest
pub mod Poll
