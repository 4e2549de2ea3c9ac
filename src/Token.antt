-- ===== src/Token.antt =====
-- programs/token: fungible tokens, master copies and printed copies of NFTs.
pub mod Types
pub mod Program
