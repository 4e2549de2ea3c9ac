-- ===== src/System.antt =====
-- The system programs of program_methods/guest/src/bin: the faucet, the bridge, the clock and the pinata.
pub mod Faucet
pub mod Bridge
pub mod Clock
pub mod Pinata
