-- ===== src/Tests.antt =====
-- Runs at concrete inputs, and each result applied at an input that meets its conditions.
mod Packing
mod Msig
pub mod Ledger
mod Token
mod Vault
mod Pools
mod Private
pub mod System
mod Genesis
mod Replay
