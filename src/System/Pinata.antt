-- ===== src/System/Pinata.antt =====
-- program_methods/guest/src/bin/pinata.rs and pinata_token.rs. A panic is an `err`; a run that returns without an
-- output is `none`.
pub mod Prize
use lp_0002_private_multisig.Prelude.{
  ℕ, ◌+◌, ◌-◌, ◌==◌, Bool, true, false, ◌&&◌, ◌≡◌, Option, none, some, List, [], ◌∷◌, ◌++◌,
  replicate, take, length, leb, ltb, if◌then◌else◌, Result, ok, err, ◌>>=◌, ◌>>◌, ensure, or_err,
}
use lp_0002_private_multisig.Core.Bytes.{Bytes, to_le_bytes}
use lp_0002_private_multisig.Core.Account.{ProgramId, Account, AccountWithMetadata, to_data}
use lp_0002_private_multisig.Core.Balance.{u128_mod}
use lp_0002_private_multisig.Core.Hash.{Sha256}
use lp_0002_private_multisig.Core.Program.{
  InstructionData, ChainedCall, ProgramOutput, authorized, new_post, new_claimed_if_default,
  new_output, with_chained_calls,
}
use lp_0002_private_multisig.Token.Types as Token

abbrev pub prize : ℕ
prize = 150

pub data PinataFault : Type 0 where
  bad_challenge not_enough_balance prize_overflow data_too_big : PinataFault

pub record Challenge : Type 0 where
  pub difficulty : ℕ
  pub seed : Bytes

-- `Challenge::new`
unfoldable pub new_challenge : Bytes → Result PinataFault Challenge
new_challenge [] = err bad_challenge
new_challenge (difficulty ∷ seed) = do
  ensure (length seed == 32) bad_challenge
  ensure (leb difficulty 32) bad_challenge
  ok (record { difficulty = difficulty; seed = seed })

unfoldable pub all_zero : Bytes → Bool
all_zero [] = true
all_zero (b ∷ bs) = (b == 0) && all_zero bs

unfoldable pub checked_sub : ℕ → ℕ → Option ℕ
checked_sub a b = if leb b a then some (a - b) else none

unfoldable pub checked_add : ℕ → ℕ → Option ℕ
checked_add a b = if ltb (a + b) u128_mod then some (a + b) else none

module _ (sha : Sha256) where
  open sha use {hash_bytes}

  unfoldable pub validate_solution : Challenge → ℕ → Bool
  validate_solution c solution =
      all_zero (take c.difficulty (hash_bytes (c.seed ++ to_le_bytes 16 solution)))

  unfoldable pub next_data : Challenge → Bytes
  next_data c = c.difficulty ∷ hash_bytes c.seed

  -- The two accounts after a solution.
  unfoldable pub prize_posts :
      Challenge → Account → Account → Result PinataFault (Account × Account)
  prize_posts c pinata winner = do
    left ← or_err (checked_sub pinata.balance prize) not_enough_balance
    content ← or_err (to_data (next_data c)) data_too_big
    won ← or_err (checked_add winner.balance prize) prize_overflow
    ok (record pinata { balance = left; content = content }, record winner { balance = won })

  -- `main` of pinata.rs
  unfoldable pub pinata_main :
      ProgramId
      → Option ProgramId
      → InstructionData
      → List AccountWithMetadata
      → ℕ
      → Result PinataFault (Option ProgramOutput)
  pinata_main self caller words (pinata ∷ winner ∷ []) solution = do
    c ← new_challenge pinata.account.content
    if validate_solution c solution
        then (do
          posts ← prize_posts c pinata.account winner.account
          ok (
              some (
                new_output self caller words (pinata ∷ winner ∷ [])
                  (new_claimed_if_default posts.0 authorized ∷ new_post posts.1 ∷ []))))
        else ok none
  pinata_main _ _ _ _ _ = ok none

  -- `main` of pinata_token.rs
  unfoldable pub pinata_token_main :
      (Token.Instruction → InstructionData)
      → ProgramId
      → Option ProgramId
      → InstructionData
      → List AccountWithMetadata
      → ℕ
      → Result PinataFault (Option ProgramOutput)
  pinata_token_main to_vec self caller words
        (pinata_definition ∷ pinata_token_holding ∷ winner_token_holding ∷ []) solution =
      do
        c ← new_challenge pinata_definition.account.content
        if validate_solution c solution
            then (do
              content ← or_err (to_data (next_data c)) data_too_big
              let call : ChainedCall = record {
                program_id = pinata_token_holding.account.program_owner;
                pre_states =
                    record pinata_token_holding { is_authorized = true }
                    ∷ winner_token_holding
                    ∷ [];
                instruction_data = to_vec (Token.transfer prize);
                pda_seeds = replicate 32 0 ∷ [];
              }
              ok (
                  some (
                    with_chained_calls
                      (new_output self caller words
                        (pinata_definition ∷ pinata_token_holding ∷ winner_token_holding ∷ [])
                        (new_post (record pinata_definition.account { content = content })
                          ∷ new_post pinata_token_holding.account
                          ∷ new_post winner_token_holding.account
                          ∷ []))
                      (call ∷ []))))
            else ok none
  pinata_token_main _ _ _ _ _ _ = ok none
