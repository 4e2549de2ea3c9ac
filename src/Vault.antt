-- ===== src/Vault.antt =====
-- programs/vault and program_methods/guest/src/bin/vault.rs: accounts that hold funds for an owner.
pub mod Guest
