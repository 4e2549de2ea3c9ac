-- ===== src/System/Clock.antt =====
-- programs/clock/core/src/lib.rs and program_methods/guest/src/bin/clock.rs. A panic is an `err`.
pub mod Ticks
use lp_0002_private_multisig.Prelude.{
  ℕ, ◌+◌, ◌*◌, ◌/◌, ◌%◌, ◌^◌, ◌==◌, ◌≡◌, Option, some, List, [], ◌∷◌, ltb, if◌then◌else◌, Result,
  ok, err, ◌>>=◌, ◌>>◌, require, ensure, or_err,
}
use lp_0002_private_multisig.Core.Bytes.{Bytes, Bytes-discrete, codes}
use lp_0002_private_multisig.Core.Account.{
  ProgramId, AccountId, Account, AccountWithMetadata, to_data,
}
use lp_0002_private_multisig.Core.Program.{
  InstructionData, AccountPostState, ProgramOutput, new_post, new_output,
}

abbrev pub clock_01_program_account_id : AccountId
clock_01_program_account_id = codes "/LEZ/ClockProgramAccount/0000001"

abbrev pub clock_10_program_account_id : AccountId
clock_10_program_account_id = codes "/LEZ/ClockProgramAccount/0000010"

abbrev pub clock_50_program_account_id : AccountId
clock_50_program_account_id = codes "/LEZ/ClockProgramAccount/0000050"

pub record ClockAccountData : Type 0 where
  pub block_id : ℕ  -- u64
  pub timestamp : ℕ  -- u64

-- Borsh on clock data, which reads back what it has written.
pub record ClockBorsh : Type 0 where
  pub to_bytes : ClockAccountData → Bytes
  pub from_bytes : Bytes → Option ClockAccountData
  pub from_bytes-to_bytes : (c : ClockAccountData) → from_bytes (to_bytes c) ≡ some c

pub data ClockFault : Type 0 where
  wrong_account_count wrong_account foreign_account not_clock_data block_id_overflow data_too_big :
      ClockFault

unfoldable pub update_if_multiple : Account → ℕ → ℕ → Bytes → Result ClockFault AccountPostState
update_if_multiple pre divisor current_block_id updated_data =
    if current_block_id % divisor == 0
    then (do
      content ← or_err (to_data updated_data) data_too_big
      ok (new_post (record pre { content = content })))
    else ok (new_post pre)

unfoldable pub next_block_id : ℕ → Result ClockFault ℕ
next_block_id block_id =
    if ltb (block_id + 1) (2 ^ 64) then ok (block_id + 1) else err block_id_overflow

module _ (borsh : ClockBorsh) where
  open borsh use {to_bytes, from_bytes}

  -- The three posts, from the three accounts.
  unfoldable pub tick : Account → Account → Account → ℕ → Result ClockFault (List AccountPostState)
  tick pre_01 pre_10 pre_50 timestamp = do
    prev_data ← or_err (from_bytes pre_01.content) not_clock_data
    current_block_id ← next_block_id prev_data.block_id
    let updated_data : Bytes =
        to_bytes (record { block_id = current_block_id; timestamp = timestamp })
    post_01 ← update_if_multiple pre_01 1 current_block_id updated_data
    post_10 ← update_if_multiple pre_10 10 current_block_id updated_data
    post_50 ← update_if_multiple pre_50 50 current_block_id updated_data
    ok (post_01 ∷ post_10 ∷ post_50 ∷ [])

  unfoldable pub clock_main :
      ProgramId
      → Option ProgramId
      → InstructionData
      → List AccountWithMetadata
      → ℕ
      → Result ClockFault ProgramOutput
  clock_main self caller words (pre_01 ∷ pre_10 ∷ pre_50 ∷ []) timestamp = do
    require (Bytes-discrete pre_01.account_id clock_01_program_account_id) wrong_account
    require (Bytes-discrete pre_10.account_id clock_10_program_account_id) wrong_account
    require (Bytes-discrete pre_50.account_id clock_50_program_account_id) wrong_account
    require (Bytes-discrete pre_01.account.program_owner self) foreign_account
    require (Bytes-discrete pre_10.account.program_owner self) foreign_account
    require (Bytes-discrete pre_50.account.program_owner self) foreign_account
    posts ← tick pre_01.account pre_10.account pre_50.account timestamp
    ok (new_output self caller words (pre_01 ∷ pre_10 ∷ pre_50 ∷ []) posts)
  clock_main _ _ _ _ _ = err wrong_account_count
