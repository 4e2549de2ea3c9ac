-- ===== src/AuthTransfer/Types.antt =====
-- programs/authenticated_transfer/core/src/lib.rs: the instructions of the native token program.
use lp_0002_private_multisig.Prelude.{ℕ, Option, some, ◌≡◌}
use lp_0002_private_multisig.Core.Program.{InstructionData}

pub data Instruction : Type 0 where
  transfer : ℕ → Instruction
  initialize : Instruction

-- The serialiser of the instructions, whose words read back as what was written.
pub record TransferSerde : Type 0 where
  pub to_vec : Instruction → InstructionData
  pub from_vec : InstructionData → Option Instruction
  pub from_vec-to_vec : (i : Instruction) → from_vec (to_vec i) ≡ some i
