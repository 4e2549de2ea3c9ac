-- ===== src/AuthTransfer.antt =====
-- programs/authenticated_transfer/core/src/lib.rs and
-- program_methods/guest/src/bin/authenticated_transfer.rs: the native token program.
pub mod Types
pub mod Guest
