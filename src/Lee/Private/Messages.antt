-- ===== src/Lee/Private/Messages.antt =====
-- lee/state_machine/src/validated_state_diff.rs: the messages of privacy-preserving transactions that are refused
-- whatever the state.
use lp_0002_private_multisig.Prelude.{
  suc, ◌≡◌, refl, sym, ◌∙◌, ap, ◌↔◌, true, not, ◌||◌, List, [], ◌∷◌, length, ℕ_discrete, ok,
  ensure-eq-ok, require-eq-ok, require_of, arith,
}
use lp_0002_private_multisig.Core.Bytes.{Bytes}
use lp_0002_private_multisig.Core.Sets.{n_unique, Distinct, n_unique_sound, n_unique_complete}
use lp_0002_private_multisig.Lee.Public.{
  empty_message, duplicate_account_ids, duplicate_nullifiers, duplicate_commitments,
}
use lp_0002_private_multisig.Lee.Private.{Message, nullifiers_of, is_empty, check_sets}

length-nullifiers_of : (ns : List (Bytes × Bytes)) → length (nullifiers_of ns) ≡ length ns
length-nullifiers_of [] = refl
length-nullifiers_of ((n, d) ∷ ns) = ap suc (length-nullifiers_of ns)

-- A message that spends or creates something, and names no account, nullifier or commitment twice.
pub record IsOrderly (m : Message) : Type 0 where
  pub something : (not (is_empty m.new_commitments) || not (is_empty m.new_nullifiers)) ≡ true
  pub accounts : Distinct m.public_account_ids
  pub nullifiers : Distinct (nullifiers_of m.new_nullifiers)
  pub commitments : Distinct m.new_commitments

orderly : (m : Message) → check_sets m ≡ ok tt → IsOrderly m
unfolding check_sets
orderly m h =
    let (something, h₁) =
      ensure-eq-ok (not (is_empty m.new_commitments) || not (is_empty m.new_nullifiers))
        empty_message _ h in
    let (ids, h₂) =
      require-eq-ok (ℕ_discrete (n_unique m.public_account_ids) (length m.public_account_ids))
        duplicate_account_ids _ h₁ in
    let (ns, h₃) =
      require-eq-ok
        (ℕ_discrete (n_unique (nullifiers_of m.new_nullifiers)) (length m.new_nullifiers))
        duplicate_nullifiers _ h₂ in
    let cs : n_unique m.new_commitments ≡ length m.new_commitments = ground arith in
    record {
      something = something;
      accounts = n_unique_sound m.public_account_ids ids;
      nullifiers =
          n_unique_sound (nullifiers_of m.new_nullifiers)
            (ns ∙ sym (length-nullifiers_of m.new_nullifiers));
      commitments = n_unique_sound m.new_commitments cs;
    }

accepted : (m : Message) → IsOrderly m → check_sets m ≡ ok tt
unfolding check_sets
accepted m o =
    rw
      (
        o.something,
        require_of (ℕ_discrete (n_unique m.public_account_ids) (length m.public_account_ids))
            duplicate_account_ids (n_unique_complete m.public_account_ids o.accounts),
        require_of
            (ℕ_discrete (n_unique (nullifiers_of m.new_nullifiers)) (length m.new_nullifiers))
            duplicate_nullifiers
            (n_unique_complete (nullifiers_of m.new_nullifiers) o.nullifiers
              ∙ length-nullifiers_of m.new_nullifiers),
        require_of (ℕ_discrete (n_unique m.new_commitments) (length m.new_commitments))
            duplicate_commitments (n_unique_complete m.new_commitments o.commitments),
      )
      refl

-- The checks of a message alone pass if and only if it spends or creates something and names no public account,
-- nullifier or commitment twice; any other message is refused.
pub check_sets-IsOrderly : (m : Message) → (check_sets m ≡ ok tt) ↔ IsOrderly m
check_sets-IsOrderly m = (orderly m, accepted m)
