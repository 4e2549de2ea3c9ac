-- ===== src/Core/Program.antt =====
-- lee/state_machine/core/src/program.rs: what a program hands back to the state machine.
use lp_0002_private_multisig.Prelude.{ℕ, List, [], Option, none, some}
use lp_0002_private_multisig.Core.Bytes.{Bytes, Bytes-discrete}
use lp_0002_private_multisig.Core.Account.{
  ProgramId, Account, AccountWithMetadata, default_program_id,
}
use lp_0002_private_multisig.Core.Window.{ValidityWindow, new_unbounded}

abbrev pub PdaSeed : Type 0
PdaSeed = Bytes

-- 32-bit words.
abbrev pub InstructionData : Type 0
InstructionData = List ℕ

pub data Claim : Type 0 where
  authorized : Claim
  pda : PdaSeed → Claim

pub record AccountPostState : Type 0 where
  pub account : Account
  pub claim : Option Claim

-- `AccountPostState::new`
abbrev pub new_post : Account → AccountPostState
new_post a = record { account = a; claim = none }

-- `AccountPostState::new_claimed`
abbrev pub new_claimed : Account → Claim → AccountPostState
new_claimed a c = record { account = a; claim = some c }

-- `AccountPostState::new_claimed_if_default`
abbrev pub new_claimed_if_default : Account → Claim → AccountPostState
new_claimed_if_default a c = elim (Bytes-discrete a.program_owner default_program_id) [
  | yes p ↦ new_claimed a c
  | no p ↦ new_post a
]

pub record ChainedCall : Type 0 where
  pub program_id : ProgramId
  pub pre_states : List AccountWithMetadata
  pub instruction_data : InstructionData
  pub pda_seeds : List PdaSeed

pub record ProgramOutput : Type 0 where
  pub self_program_id : ProgramId
  pub caller_program_id : Option ProgramId
  pub instruction_data : InstructionData
  pub pre_states : List AccountWithMetadata
  pub post_states : List AccountPostState
  pub chained_calls : List ChainedCall
  pub block_validity_window : ValidityWindow
  pub timestamp_validity_window : ValidityWindow

-- `ProgramOutput::new`
abbrev pub new_output :
    ProgramId
    → Option ProgramId
    → InstructionData
    → List AccountWithMetadata
    → List AccountPostState
    → ProgramOutput
new_output self caller words pres posts = record {
  self_program_id = self;
  caller_program_id = caller;
  instruction_data = words;
  pre_states = pres;
  post_states = posts;
  chained_calls = [];
  block_validity_window = new_unbounded;
  timestamp_validity_window = new_unbounded;
}

abbrev pub with_chained_calls : ProgramOutput → List ChainedCall → ProgramOutput
with_chained_calls out calls = record out { chained_calls = calls }
