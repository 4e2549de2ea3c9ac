-- ===== src/Core.antt =====
-- lee/state_machine/core/src: the data that programs and the state machine share.
pub mod Bytes
pub mod Account
pub mod Hash
pub mod Window
pub mod Program
pub mod Sets
pub mod Maps
pub mod Balance
pub mod Validate
