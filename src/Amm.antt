-- ===== src/Amm.antt =====
-- programs/amm: pools of two tokens, and their shares.
pub mod Types
pub mod Words
pub mod Swap
pub mod Liquidity
pub mod Create
pub mod Guest
pub mod Lifecycle
