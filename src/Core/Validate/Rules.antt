-- ===== src/Core/Validate/Rules.antt =====
-- What `validate_execution` accepts, said without its order of tests.
use lp_0002_private_multisig.Prelude.{
  ℕ, suc, ◌≤◌, ◌<◌, ◌≡◌, ◌≢◌, refl, ap, List, [], ◌∷◌, arith, length, All, Result, ok, ◌>>=◌,
  >>=-eq-ok, or_err, require, require_of, ℕ_discrete,
}
use lp_0002_private_multisig.Core.Account.{
  ProgramId, Account, AccountWithMetadata, default_account, default_program_id,
}
use lp_0002_private_multisig.Core.Program.{AccountPostState}
use lp_0002_private_multisig.Core.Sets.{n_unique, Distinct, n_unique_sound, n_unique_complete}
use lp_0002_private_multisig.Core.Balance.{
  WrappedBalanceSum-discrete, u128_mod, from_balances, sum, IsU128, from_balances_sound,
  from_balances_total, eq_of_value,
}
use lp_0002_private_multisig.Core.Validate.{
  ids, pre_balances, post_balances, check_pair, check_pairs, validate_execution, ValidationError,
  not_unique, mismatched_length, balance_sum_overflow, mismatched_total_balance,
}

-- What a program may do to one account that it is given.
pub record IsAllowed (program : ProgramId) (pre : Account) (post : Account) : Type 0 where
  pub nonce_kept : pre.nonce ≡ post.nonce
  pub owner_kept : pre.program_owner ≡ post.program_owner
  pub debit : pre.program_owner ≢ program → pre.balance ≤ post.balance
  pub write : pre.content ≢ post.content → pre ≢ default_account → pre.program_owner ≡ program
  pub fresh : post.program_owner ≡ default_program_id → pre ≡ default_account

abbrev pub AllAllowed : ProgramId → List AccountWithMetadata → List AccountPostState → Type 0
AllAllowed program [] [] = Unit
AllAllowed program [] (post ∷ posts) = ⊥
AllAllowed program (pre ∷ pres) [] = ⊥
AllAllowed program (pre ∷ pres) (post ∷ posts) =
    IsAllowed program pre.account post.account × AllAllowed program pres posts

pub record IsWellBehaved (program : ProgramId) (pres : List AccountWithMetadata)
    (posts : List AccountPostState) : Type 0 where
  pub unique : Distinct (ids pres)
  pub allowed : AllAllowed program pres posts
  pub preserved : sum (pre_balances pres) ≡ sum (post_balances posts)

length-ids : (pres : List AccountWithMetadata) → length (ids pres) ≡ length pres
length-ids [] = refl
length-ids (p ∷ ps) = ap suc (length-ids ps)

length-pre_balances : (pres : List AccountWithMetadata) → length (pre_balances pres) ≡ length pres
length-pre_balances [] = refl
length-pre_balances (p ∷ ps) = ap suc (length-pre_balances ps)

length-post_balances : (posts : List AccountPostState) → length (post_balances posts) ≡ length posts
length-post_balances [] = refl
length-post_balances (p ∷ ps) = ap suc (length-post_balances ps)

module _ (program : ProgramId) where
  check_pair_sound :
      (pre : AccountWithMetadata) (post : AccountPostState) {u : Unit {0}}
      → check_pair program pre post ≡ ok u
      → IsAllowed program pre.account post.account
  unfolding check_pair
  check_pair_sound pre post h = ground arith

  check_pair_complete :
      (pre : AccountWithMetadata) (post : AccountPostState)
      → IsAllowed program pre.account post.account
      → check_pair program pre post ≡ ok tt
  unfolding check_pair
  check_pair_complete pre post h = ground arith

  check_pairs_sound :
      (pres : List AccountWithMetadata) (posts : List AccountPostState) {u : Unit {0}}
      → length pres ≡ length posts
      → check_pairs program pres posts ≡ ok u
      → AllAllowed program pres posts
  unfolding check_pairs
  check_pairs_sound [] [] len h = tt
  check_pairs_sound [] (post ∷ posts) len h = absurd (omega arith)
  check_pairs_sound (pre ∷ pres) [] len h = absurd (omega arith)
  check_pairs_sound (pre ∷ pres) (post ∷ posts) len h =
      let (u, one, rest) =
        >>=-eq-ok (check_pair program pre post) (λ _. check_pairs program pres posts) h in
      (check_pair_sound pre post one, check_pairs_sound pres posts (omega arith) rest)

  check_pairs_complete :
      (pres : List AccountWithMetadata) (posts : List AccountPostState)
      → AllAllowed program pres posts
      → (length pres ≡ length posts) × (check_pairs program pres posts ≡ ok tt)
  unfolding check_pairs
  check_pairs_complete [] [] h = (refl, refl)
  check_pairs_complete [] (post ∷ posts) h = absurd h
  check_pairs_complete (pre ∷ pres) [] h = absurd h
  check_pairs_complete (pre ∷ pres) (post ∷ posts) h =
      let (len, rest) = check_pairs_complete pres posts h.1 in
      (ap suc len, rw (check_pair_complete pre post h.0) rest)

  -- The end of `validate_execution`: the two totals.
  abbrev totals : List ℕ → List ℕ → Result ValidationError (Unit {0})
  totals before after = or_err (from_balances before) balance_sum_overflow >>= λ s.
      or_err (from_balances after) balance_sum_overflow >>= λ t.
      require (WrappedBalanceSum-discrete s t) (mismatched_total_balance s t)

  totals_sound :
      (before after : List ℕ) {u : Unit {0}}
      → All IsU128 before
      → All IsU128 after
      → totals before after ≡ ok u
      → sum before ≡ sum after
  totals_sound before after hb ha h =
      grind (arith, from_balances_sound before, from_balances_sound after)

  totals_complete :
      (before after : List ℕ)
      → All IsU128 before
      → All IsU128 after
      → length before < u128_mod
      → length after < u128_mod
      → sum before ≡ sum after
      → totals before after ≡ ok tt
  totals_complete before after hb ha lb la e =
      let (s, es) = from_balances_total before hb lb in
      let (t, et) = from_balances_total after ha la in
      let (vs, bs) = from_balances_sound before hb es in
      let (vt, bt) = from_balances_sound after ha et in
      let same : s ≡ t = eq_of_value s t bs bt (omega arith) in rw (es, et) (ground arith)

  -- What `validate_execution` accepts keeps all of the rules, if the balances are `u128`s:
  -- different ids, every account changed only as allowed, and the same exact sum of balances before
  -- and after.
  pub validate_execution_sound :
      (pres : List AccountWithMetadata) (posts : List AccountPostState) {u : Unit {0}}
      → All IsU128 (pre_balances pres)
      → All IsU128 (post_balances posts)
      → validate_execution program pres posts ≡ ok u
      → IsWellBehaved program pres posts
  unfolding validate_execution
  validate_execution_sound pres posts hb ha h =
      let (u, e, h₁) =
        >>=-eq-ok (require (ℕ_discrete (length pres) (n_unique (ids pres))) not_unique)
          (λ _.
            require (ℕ_discrete (length pres) (length posts))
              (mismatched_length (length pres) (length posts))
            >>= λ _. check_pairs program pres posts >>= λ _.
                totals (pre_balances pres) (post_balances posts))
          h in
      let (v, f, h₂) =
        >>=-eq-ok
          (require (ℕ_discrete (length pres) (length posts))
            (mismatched_length (length pres) (length posts)))
          (λ _. check_pairs program pres posts >>= λ _.
            totals (pre_balances pres) (post_balances posts))
          h₁ in
      let (w, g, h₃) =
        >>=-eq-ok (check_pairs program pres posts)
          (λ _. totals (pre_balances pres) (post_balances posts)) h₂ in
      let count : length pres ≡ n_unique (ids pres) = ground arith in
      let len : length pres ≡ length posts = ground arith in
      record {
        unique = n_unique_sound (ids pres) (omega (arith, length-ids pres));
        allowed = check_pairs_sound pres posts len g;
        preserved = totals_sound (pre_balances pres) (post_balances posts) hb ha h₃;
      }

  -- `validate_execution` accepts every output that keeps all of the rules, if the balances are
  -- `u128`s and there are fewer than 2 ^ 128 accounts.
  pub validate_execution_complete :
      (pres : List AccountWithMetadata) (posts : List AccountPostState)
      → All IsU128 (pre_balances pres)
      → All IsU128 (post_balances posts)
      → length pres < u128_mod
      → IsWellBehaved program pres posts
      → validate_execution program pres posts ≡ ok tt
  unfolding validate_execution
  validate_execution_complete pres posts hb ha small w =
      let (len, pairs) = check_pairs_complete pres posts w.allowed in
      let count = n_unique_complete (ids pres) w.unique in
      let done : totals (pre_balances pres) (post_balances posts) ≡ ok tt =
        totals_complete (pre_balances pres) (post_balances posts) hb ha
          (omega (arith, length-pre_balances pres)) (omega (arith, length-post_balances posts))
          w.preserved in
      let first : length pres ≡ n_unique (ids pres) = omega (arith, length-ids pres) in
      rw
        (
          require_of (ℕ_discrete (length pres) (n_unique (ids pres))) not_unique first,
          require_of (ℕ_discrete (length pres) (length posts))
              (mismatched_length (length pres) (length posts)) len,
          pairs,
        )
        done
