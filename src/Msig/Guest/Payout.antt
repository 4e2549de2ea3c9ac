-- ===== src/Msig/Guest/Payout.antt =====
-- `execute` of the msig program and the `transfer` of authenticated_transfer that it calls.
use lp_0002_private_multisig.Prelude.{
  ℕ, ◌+◌, ◌-◌, ◌<◌, ◌≡◌, refl, ◌∙◌, ap, some, List, [], ◌∷◌, arith, ok, true,
}
use lp_0002_private_multisig.Core.Bytes.{Bytes}
use lp_0002_private_multisig.Core.Account.{AccountWithMetadata}
use lp_0002_private_multisig.Core.Balance.{u128_mod}
use lp_0002_private_multisig.Core.Program.{
  AccountPostState, ChainedCall, new_post, new_claimed_if_default, authorized,
}
use lp_0002_private_multisig.AuthTransfer.Types as Transfer
use lp_0002_private_multisig.AuthTransfer.Types.{TransferSerde}
use lp_0002_private_multisig.AuthTransfer.Guest.{run}
use lp_0002_private_multisig.AuthTransfer.Guest.Rules.{transfer_balance_complete}
use lp_0002_private_multisig.Msig.Guest.{Posts, execute}
use lp_0002_private_multisig.Msig.Guest.Execute.{execute_sound}

-- The treasury is empty, and the recipient has all that it had.
abbrev pub paid_out : AccountWithMetadata → AccountWithMetadata → List AccountPostState
paid_out treasury recipient =
    new_post (record treasury.account { balance = 0 })
    ∷ new_claimed_if_default
        (record recipient.account {
          balance = recipient.account.balance + treasury.account.balance;
        })
        authorized
    ∷ []

-- If `execute` succeeds and the recipient can hold the treasury's balance, then it calls the program that owns the
-- treasury exactly once, and lends it the seed alone. The words of that call read back as a transfer, and
-- authenticated_transfer, run on what is read and on the accounts of the call, succeeds, empties the treasury and
-- credits the recipient with all of its balance.
pub execute-run :
    (serde : TransferSerde) (proposal treasury recipient : AccountWithMetadata) (threshold : ℕ)
    (seed : Bytes) {out : Posts}
    → execute serde.to_vec proposal treasury recipient threshold seed ≡ ok out
    → recipient.account.balance + treasury.account.balance < u128_mod
    → (call : ChainedCall) × (instruction : Transfer.Instruction) × (out.1 ≡ call ∷ [])
      × (call.program_id ≡ treasury.account.program_owner)
      × (call.pda_seeds ≡ seed ∷ [])
      × (serde.from_vec call.instruction_data ≡ some instruction)
      × (run instruction call.pre_states ≡ ok (paid_out treasury recipient))
unfolding run
execute-run serde proposal treasury recipient threshold seed h room =
    let (long, enough, shape) =
      execute_sound serde.to_vec proposal treasury recipient threshold seed h in
    let left : treasury.account.balance - treasury.account.balance ≡ 0 = omega arith in
    let done =
      transfer_balance_complete (record treasury { is_authorized = true }) recipient
        treasury.account.balance refl (omega arith) room in
    (
      _,
      Transfer.transfer treasury.account.balance,
      ap (λ (p : Posts). p.1) shape,
      refl,
      refl,
      serde.from_vec-to_vec (Transfer.transfer treasury.account.balance),
      done
          ∙ ap
              (λ b. ok (
                new_post (record treasury.account { balance = b })
                ∷ new_claimed_if_default
                    (record recipient.account {
                      balance = recipient.account.balance + treasury.account.balance;
                    })
                    authorized
                ∷ []))
              left,
    )
