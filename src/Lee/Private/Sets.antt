-- ===== src/Lee/Private/Sets.antt =====
-- lee/state_machine/src/state.rs: the sets of a state only grow, and list nothing twice.
use mathlib.Core.Option.{some-injective}
use lp_0002_private_multisig.Prelude.{
  inl, inr, Bool-cases, Option-cases, ◌≡◌, refl, ap, true, Option, none, some, List, [], ◌∷◌,
  Result, ok, err, >>=-eq-ok, ok-injective, or_err, or_err-eq-some, if◌then◌else◌,
}
use lp_0002_private_multisig.Core.Bytes.{Bytes}
use lp_0002_private_multisig.Core.Hash.{Sha256}
use lp_0002_private_multisig.Core.Sets.{
  contains, Distinct, IsWithin, contains_head, contains_tail, contains-cases, contains_nil,
}
use lp_0002_private_multisig.Core.Maps.{members, put, put-IsWithin, put-added, put-Distinct}
use lp_0002_private_multisig.Lee.Accounts.{
  Accounts, keys, insert, apply_diff, bump_nonces, nonce_increment, get_account_by_id,
  keys-insert-Distinct,
}
use lp_0002_private_multisig.Lee.MerkleTree.{MerkleTree, TreePanic}
use lp_0002_private_multisig.Lee.MerkleTree as Tree
use lp_0002_private_multisig.Lee.Commitments.{
  CommitmentSet, insert_all, extend, digest, extend_nullifiers,
}
use lp_0002_private_multisig.Lee.State.{
  Program, Programs, insert_program, V03State, StateDiff, nonce_overflow, or_panic,
  apply_state_diff,
}

-- The nullifiers.
extend_nullifiers-IsWithin : (set new : List Bytes) → IsWithin set (extend_nullifiers set new)
unfolding extend_nullifiers
extend_nullifiers-IsWithin set [] x h = h
extend_nullifiers-IsWithin set (n ∷ ns) x h =
    extend_nullifiers-IsWithin (if contains set n then set else n ∷ set) ns x
      (elim (Bool-cases (contains set n)) [
        | inl y ↦ rw y h
        | inr y ↦ rw y (contains_tail n x set h)
      ])

added_nullifier :
    (set : List Bytes) (n : Bytes) → contains (if contains set n then set else n ∷ set) n ≡ true
added_nullifier set n = elim (Bool-cases (contains set n)) [
  | inl y ↦ rw y y
  | inr y ↦ rw y (contains_head n set)
]

pub extend_nullifiers-added : (set new : List Bytes) → IsWithin new (extend_nullifiers set new)
unfolding extend_nullifiers
extend_nullifiers-added set [] x h = contains_nil x h
extend_nullifiers-added set (n ∷ ns) x h = elim (contains-cases n x ns h) [
  | inl e ↦
      extend_nullifiers-IsWithin (if contains set n then set else n ∷ set) ns x
        (rw (← e) (added_nullifier set n))
  | inr later ↦ extend_nullifiers-added (if contains set n then set else n ∷ set) ns x later
]

pub extend_nullifiers-Distinct :
    (set new : List Bytes) → Distinct set → Distinct (extend_nullifiers set new)
unfolding extend_nullifiers
extend_nullifiers-Distinct set [] d = d
extend_nullifiers-Distinct set (n ∷ ns) d =
    extend_nullifiers-Distinct (if contains set n then set else n ∷ set) ns
      (elim (Bool-cases (contains set n)) [ inl y ↦ rw y d | inr y ↦ rw y (y, d) ])

-- What adding commitments does to the set.
pub record IsExtended (set : CommitmentSet) (new : List Bytes) (set' : CommitmentSet) : Type 0 where
  pub kept : IsWithin (members set.commitments) (members set'.commitments)
  pub added : IsWithin new (members set'.commitments)
  pub roots : IsWithin set.root_history set'.root_history
  pub once : Distinct (members set.commitments) → Distinct (members set'.commitments)

module _ (sha : Sha256) where
  insert_all-IsExtended :
      (set : CommitmentSet) (new : List Bytes) {set' : CommitmentSet}
      → insert_all sha set new ≡ ok set'
      → IsExtended set new set'
  unfolding insert_all
  insert_all-IsExtended set [] h =
      rw (← ok-injective h) (record {
        kept = λ x k. k;
        added = λ x k. contains_nil x k;
        roots = λ x k. k;
        once = λ d. d;
      })
  insert_all-IsExtended set (c ∷ cs) {set'} h =
      let (placed, e, h₁) = >>=-eq-ok (Tree.insert sha set.merkle_tree c) _ h in
      let next : CommitmentSet = record set {
        merkle_tree = placed.0;
        commitments = put c placed.1 set.commitments;
      } in
      let rest : IsExtended next cs set' = insert_all-IsExtended next cs h₁ in
      record {
        kept = λ x k. rest.kept x (put-IsWithin c placed.1 set.commitments x k);
        added = λ x k. elim (contains-cases c x cs k) [
          | inl same ↦ rest.kept x (rw (← same) (put-added c placed.1 set.commitments))
          | inr later ↦ rest.added x later
        ];
        roots = rest.roots;
        once = λ d. rest.once (put-Distinct c placed.1 set.commitments d);
      }

  pub extend-IsExtended :
      (set : CommitmentSet) (new : List Bytes) {set' : CommitmentSet}
      → extend sha set new ≡ ok set'
      → IsExtended set new set'
  unfolding extend
  extend-IsExtended set new h =
      let (filled, e, h₁) = >>=-eq-ok (insert_all sha set new) _ h in
      let (now, e', h₂) = >>=-eq-ok (digest filled) _ h₁ in
      let more = insert_all-IsExtended set new e in
      rw (← ok-injective h₂) (record {
        kept = more.kept;
        added = more.added;
        roots = λ x k. contains_tail now x filled.root_history (more.roots x k);
        once = more.once;
      })

  pub apply_diff-Distinct :
      (m diff : Accounts) → Distinct (keys m) → Distinct (keys (apply_diff m diff))
  unfolding apply_diff
  apply_diff-Distinct m [] d = d
  apply_diff-Distinct m ((k, a) ∷ diff) d =
      apply_diff-Distinct (insert k a m) diff (keys-insert-Distinct k a m d)

  bump_nonces-Distinct :
      (m : Accounts) (signers : List Bytes) {m' : Accounts}
      → bump_nonces m signers ≡ some m'
      → Distinct (keys m)
      → Distinct (keys m')
  unfolding bump_nonces
  bump_nonces-Distinct m [] h d = rw (← some-injective m _ h) d
  bump_nonces-Distinct m (s ∷ signers) h d =
      elim (Option-cases (nonce_increment (get_account_by_id m s))) [
        | inl e ↦ (let clash = rw (e, bump_nonces) at h in cc)
        | inr (a, e) ↦
            bump_nonces-Distinct (insert s a m) signers (rw (e, bump_nonces) at h)
              (keys-insert-Distinct s a m d)
      ]

  -- A state in which no account, commitment, nullifier or program is listed twice.
  pub record IsWellFormed (state : V03State) : Type 0 where
    pub accounts_once : Distinct (keys state.public_state)
    pub commitments_once : Distinct (members state.commitment_set.commitments)
    pub nullifiers_once : Distinct state.nullifier_set
    pub programs_once : Distinct (members state.programs)

  -- What the sets of one state hold, those of the other hold.
  pub record IsGrown (state state' : V03State) : Type 0 where
    pub commitments :
        IsWithin
          (members state.commitment_set.commitments)
          (members state'.commitment_set.commitments)
    pub roots : IsWithin state.commitment_set.root_history state'.commitment_set.root_history
    pub nullifiers : IsWithin state.nullifier_set state'.nullifier_set
    pub programs : IsWithin (members state.programs) (members state'.programs)

  insert_program-IsWithin :
      (programs : Programs) (p : Option Program)
      → IsWithin (members programs) (members (insert_program programs p))
  unfolding insert_program
  insert_program-IsWithin programs none x h = h
  insert_program-IsWithin programs (some p) x h = put-IsWithin p.id p programs x h

  pub insert_program-Distinct :
      (programs : Programs) (p : Option Program)
      → Distinct (members programs)
      → Distinct (members (insert_program programs p))
  unfolding insert_program
  insert_program-Distinct programs none d = d
  insert_program-Distinct programs (some p) d = put-Distinct p.id p programs d

  -- What applying a diff does to the sets.
  pub record IsApplied (state : V03State) (diff : StateDiff) (state' : V03State) : Type 0 where
    pub grown : IsGrown state state'
    pub extended : IsExtended state.commitment_set diff.new_commitments state'.commitment_set
    pub spent : IsWithin diff.new_nullifiers state'.nullifier_set
    pub listed : state'.programs ≡ insert_program state.programs diff.program
    pub bumped :
        bump_nonces (apply_diff state.public_state diff.public_diff) diff.signer_account_ids
        ≡ some state'.public_state
    pub formed : IsWellFormed state → IsWellFormed state'

  pub or_panic-eq-ok : {A : Type 0} (r : Result TreePanic A) {a : A} → or_panic r ≡ ok a → r ≡ ok a
  or_panic-eq-ok (ok b) h = ap ok (ok-injective h)
  or_panic-eq-ok (err e) h = cc

  pub apply_state_diff-IsApplied :
      (state : V03State) (diff : StateDiff) {state' : V03State}
      → apply_state_diff sha state diff ≡ ok state'
      → IsApplied state diff state'
  unfolding apply_state_diff
  apply_state_diff-IsApplied state diff h =
      let (accounts, ea, h₁) =
        >>=-eq-ok
          (or_err
            (bump_nonces (apply_diff state.public_state diff.public_diff) diff.signer_account_ids)
            nonce_overflow)
          _ h in
      let (set, es, h₂) =
        >>=-eq-ok (or_panic (extend sha state.commitment_set diff.new_commitments)) _ h₁ in
      let bumped =
        or_err-eq-some
          (bump_nonces (apply_diff state.public_state diff.public_diff) diff.signer_account_ids)
          nonce_overflow ea in
      let more =
        extend-IsExtended state.commitment_set diff.new_commitments
          (or_panic-eq-ok (extend sha state.commitment_set diff.new_commitments) es) in
      rw (← ok-injective h₂) (record {
        grown = record {
          commitments = more.kept;
          roots = more.roots;
          nullifiers = extend_nullifiers-IsWithin state.nullifier_set diff.new_nullifiers;
          programs = insert_program-IsWithin state.programs diff.program;
        };
        extended = more;
        spent = extend_nullifiers-added state.nullifier_set diff.new_nullifiers;
        listed = refl;
        bumped = bumped;
        formed = λ w. record {
          accounts_once =
              bump_nonces-Distinct (apply_diff state.public_state diff.public_diff)
                diff.signer_account_ids bumped
                (apply_diff-Distinct state.public_state diff.public_diff w.accounts_once);
          commitments_once = more.once w.commitments_once;
          nullifiers_once =
              extend_nullifiers-Distinct state.nullifier_set diff.new_nullifiers w.nullifiers_once;
          programs_once = insert_program-Distinct state.programs diff.program w.programs_once;
        };
      })
