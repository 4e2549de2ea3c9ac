-- ===== src/Lee/Public/Conserve.antt =====
-- What every public transaction preserves, whatever its programs do.
use lp_0002_private_multisig.Prelude.{
  ℕ, zero, suc, ◌≡◌, refl, ◌&&◌, Option, none, some, List, [], ◌∷◌, ◌++◌, arith, All, Result, ok,
  err, >>=-eq-ok, ok-injective, ensure, require,
}
use lp_0002_private_multisig.Core.Bytes.{Bytes-discrete}
use lp_0002_private_multisig.Core.Hash.{Sha256}
use lp_0002_private_multisig.Core.Window.{is_valid_for}
use lp_0002_private_multisig.Core.Balance.{IsU128}
use lp_0002_private_multisig.Core.Program.{ChainedCall, ProgramOutput}
use lp_0002_private_multisig.Core.Validate.{
  ValidationError, validate_execution, pre_balances, post_balances,
}
use lp_0002_private_multisig.Core.Validate.Rules.{validate_execution_sound}
use lp_0002_private_multisig.Lee.Accounts.{Accounts}
use lp_0002_private_multisig.Lee.Public.{
  Vm, Transaction, CallerData, check_pres, claim_posts, update_diff, settle_output, run_calls,
  validated, run_or_err, Caller-discrete, check_message, check_claimed, first_job, unknown_program,
  out_of_validity_window, mismatched_program_id, mismatched_caller_program_id,
  from_public_transaction,
}
use lp_0002_private_multisig.Lee.Public.Diff.{
  IsFair, check_pres_sound, claim_posts_sound, update_diff-kept, update_diff-Distinct,
}

validated-eq-ok :
    (r : Result ValidationError (Unit {0})) {u : Unit {0}} → validated r ≡ ok u → r ≡ ok tt
validated-eq-ok (ok u) h = refl
validated-eq-ok (err e) h = cc

run_or_err-eq-ok :
    (o : Option ProgramOutput) {out : ProgramOutput} → run_or_err o ≡ ok out → o ≡ some out
run_or_err-eq-ok none h = cc
run_or_err-eq-ok (some x) h = cc

module _ (sha : Sha256) (state : Accounts) where
  module _ (vm : Vm) (block_id timestamp : ℕ) where
    settle_output-IsFair :
        (call : ChainedCall) (caller : CallerData) (diff : Accounts) (out : ProgramOutput)
        {settled : Accounts × List (ChainedCall × CallerData)}
        → All IsU128 (pre_balances out.pre_states)
        → All IsU128 (post_balances out.post_states)
        → IsFair sha state diff
        → settle_output sha state vm block_id timestamp call caller diff out ≡ ok settled
        → IsFair sha state settled.0
    unfolding settle_output
    settle_output-IsFair call caller diff out hb ha fair h =
        let (u, e, h₁) =
          >>=-eq-ok (check_pres sha state diff caller call.pda_seeds out.pre_states) _ h in
        let (v, f, h₂) =
          >>=-eq-ok
            (require (Bytes-discrete out.self_program_id call.program_id) mismatched_program_id) _
            h₁ in
        let (w, g, h₃) =
          >>=-eq-ok
            (require (Caller-discrete out.caller_program_id caller.program_id)
              mismatched_caller_program_id)
            _ h₂ in
        let (x, valid, h₄) =
          >>=-eq-ok (validated (validate_execution call.program_id out.pre_states out.post_states))
            _ h₃ in
        let (y, in_window, h₅) =
          >>=-eq-ok
            (ensure
              (is_valid_for out.block_validity_window block_id
                && is_valid_for out.timestamp_validity_window timestamp)
              out_of_validity_window)
            _ h₄ in
        let (accounts, claimed, h₆) =
          >>=-eq-ok (claim_posts sha state call.program_id out.pre_states out.post_states) _ h₅ in
        let rules = validate_execution_sound call.program_id out.pre_states out.post_states hb ha (
          validated-eq-ok (validate_execution call.program_id out.pre_states out.post_states)
            valid) in
        let (settled_posts, sums) =
          claim_posts_sound sha state call.program_id out.pre_states out.post_states rules.allowed
            claimed in
        let (kept, moved) =
          update_diff-kept sha state diff out.pre_states accounts rules.unique
            (check_pres_sound sha state diff caller call.pda_seeds out.pre_states e) settled_posts
            fair.kept in
        let before = fair.balanced in
        let same = rules.preserved in
        let result : IsFair sha state (update_diff sha state diff out.pre_states accounts) =
          record {
            balanced = omega arith;
            kept = kept;
            unique = update_diff-Distinct sha state diff out.pre_states accounts fair.unique;
          } in
        rw (← ok-injective h₆) result

    run_calls-IsFair :
        (rounds : ℕ) (queue : List (ChainedCall × CallerData)) (diff : Accounts) {final : Accounts}
        → IsFair sha state diff
        → run_calls sha state vm block_id timestamp rounds queue diff ≡ ok final
        → IsFair sha state final
    unfolding run_calls
    run_calls-IsFair zero [] diff fair h = rw (← ok-injective h) fair
    run_calls-IsFair (suc rounds) [] diff fair h = rw (← ok-injective h) fair
    run_calls-IsFair zero (job ∷ queue) diff fair h = cc
    run_calls-IsFair (suc rounds) ((call, caller) ∷ queue) diff fair h =
        let (u, e, h₁) = >>=-eq-ok (ensure (vm.deployed call.program_id) unknown_program) _ h in
        let (out, ran, h₂) =
          >>=-eq-ok
            (run_or_err
              (vm.execute call.program_id caller.program_id call.pre_states call.instruction_data))
            _ h₁ in
        let (settled, f, h₃) =
          >>=-eq-ok (settle_output sha state vm block_id timestamp call caller diff out) _ h₂ in
        let (hb, ha) =
          vm.execute_u128 call.program_id caller.program_id call.pre_states call.instruction_data (
            run_or_err-eq-ok
              (vm.execute call.program_id caller.program_id call.pre_states call.instruction_data)
              ran) in
        run_calls-IsFair rounds (settled.1 ++ queue) settled.0
          (settle_output-IsFair call caller diff out hb ha fair f) h₃

    -- Whatever the programs compute, an accepted public transaction neither creates nor destroys native
    -- balance: what its diff writes adds up to what it replaces. The diff names no account twice. It leaves the nonce of every
    -- account to the signers' increments, and the owner of every account that has one.
    pub from_public_transaction-IsFair :
        (tx : Transaction) {diff : Accounts}
        → from_public_transaction sha state vm block_id timestamp tx ≡ ok diff
        → IsFair sha state diff
    unfolding from_public_transaction
    from_public_transaction-IsFair tx h =
        let (u, e, h₁) = >>=-eq-ok (check_message sha state vm block_id timestamp tx) _ h in
        let (diff, ran, h₂) =
          >>=-eq-ok
            (run_calls sha state vm block_id timestamp 11
              (first_job sha state vm block_id timestamp tx ∷ []) [])
            _ h₁ in
        let (v, claimed, h₃) =
          >>=-eq-ok (check_claimed sha state vm block_id timestamp diff) _ h₂ in
        rw (← ok-injective h₃) (
          run_calls-IsFair 11 (first_job sha state vm block_id timestamp tx ∷ []) []
            (record { balanced = refl; kept = tt; unique = tt }) ran)
