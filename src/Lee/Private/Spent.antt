-- ===== src/Lee/Private/Spent.antt =====
-- lee/state_machine/src/validated_state_diff.rs: what a privacy-preserving transaction or a deployment needs of the
-- state it is checked against, and why no later state accepts it or its like again.
use mathlib.Core.Option.{some-injective}
use lp_0002_private_multisig.Prelude.{
  not-true, ℕ, ◌≡◌, inl, inr, sym, ◌∙◌, ap, true, false, not, some, List, [], ◌∷◌, Result, ok, err,
  ◌>>=◌, >>=-eq-ok, ok-injective, ensure-eq-ok, or_err-eq-ok,
}
use lp_0002_private_multisig.Core.Bytes.{Bytes}
use lp_0002_private_multisig.Core.Account.{ProgramId}
use lp_0002_private_multisig.Core.Hash.{Sha256}
use lp_0002_private_multisig.Core.Sets.{contains, IsWithin, contains-cases, contains_nil}
use lp_0002_private_multisig.Core.Maps.{members, put-added}
use lp_0002_private_multisig.Lee.Public.{
  Vm, Transaction, LeeError, nullifier_already_seen, unrecognized_digest, commitment_already_seen,
  invalid_program_bytecode, program_already_exists,
}
use lp_0002_private_multisig.Lee.Commitments.{has_commitment}
use lp_0002_private_multisig.Lee.State.{
  V03State, StateDiff, or_refused, check_commitments_are_new, check_nullifiers_are_valid,
  apply_state_diff, insert_program,
}
use lp_0002_private_multisig.Lee.Private.{
  Message, PrivateTransaction, Zkvm, nullifiers_of, zipped, check_sets, check_signers,
  check_privacy_preserving_circuit_proof_is_valid, from_privacy_preserving_transaction,
  from_program_deployment_transaction, public_state_diff, transition_from_public_transaction,
  transition_from_privacy_preserving_transaction, transition_from_program_deployment_transaction,
}
use lp_0002_private_multisig.Lee.Private.Sets.{
  IsWellFormed, IsGrown, IsApplied, apply_state_diff-IsApplied,
}

pub or_refused-eq-ok : {A : Type 0} (r : Result LeeError A) {a : A} → or_refused r ≡ ok a → r ≡ ok a
or_refused-eq-ok (ok b) h = ap ok (ok-injective h)
or_refused-eq-ok (err e) h = cc

-- A list none of whose members the other has.
abbrev IsApart : List Bytes → List Bytes → Type 0
IsApart xs ys = (x : Bytes) → contains xs x ≡ true → contains ys x ≡ false

check_commitments_are_new-IsApart :
    (state : V03State) (new : List Bytes) {u : Unit {0}}
    → check_commitments_are_new state new ≡ ok u
    → IsApart new (members state.commitment_set.commitments)
unfolding check_commitments_are_new has_commitment
check_commitments_are_new-IsApart state [] h x k = contains_nil x k
check_commitments_are_new-IsApart state (c ∷ cs) h x k =
    let (fresh, h₁) =
      ensure-eq-ok (not (contains (members state.commitment_set.commitments) c))
        commitment_already_seen _ h in
    elim (contains-cases c x cs k) [
      | inl same ↦
          rw (← same) (not-true (contains (members state.commitment_set.commitments) c) fresh)
      | inr later ↦ check_commitments_are_new-IsApart state cs h₁ x later
    ]

check_nullifiers_are_valid-IsApart :
    (state : V03State) (new : List (Bytes × Bytes)) {u : Unit {0}}
    → check_nullifiers_are_valid state new ≡ ok u
    → IsApart (nullifiers_of new) state.nullifier_set
unfolding check_nullifiers_are_valid
check_nullifiers_are_valid-IsApart state [] h x k = contains_nil x k
check_nullifiers_are_valid-IsApart state ((n, d) ∷ ns) h x k =
    let (fresh, h₁) =
      ensure-eq-ok (not (contains state.nullifier_set n)) nullifier_already_seen _ h in
    let (known, h₂) =
      ensure-eq-ok (contains state.commitment_set.root_history d) unrecognized_digest _ h₁ in
    elim (contains-cases n x (nullifiers_of ns) k) [
      | inl same ↦ rw (← same) (not-true (contains state.nullifier_set n) fresh)
      | inr later ↦ check_nullifiers_are_valid-IsApart state ns h₂ x later
    ]

-- The digests that nullifiers refer to.
abbrev pub digests_of : List (Bytes × Bytes) → List Bytes
digests_of [] = []
digests_of ((n, d) ∷ ns) = d ∷ digests_of ns

check_nullifiers_are_valid-digests :
    (state : V03State) (new : List (Bytes × Bytes)) {u : Unit {0}}
    → check_nullifiers_are_valid state new ≡ ok u
    → IsWithin (digests_of new) state.commitment_set.root_history
unfolding check_nullifiers_are_valid
check_nullifiers_are_valid-digests state [] h x k = contains_nil x k
check_nullifiers_are_valid-digests state ((n, d) ∷ ns) h x k =
    let (fresh, h₁) =
      ensure-eq-ok (not (contains state.nullifier_set n)) nullifier_already_seen _ h in
    let (known, h₂) =
      ensure-eq-ok (contains state.commitment_set.root_history d) unrecognized_digest _ h₁ in
    elim (contains-cases d x (digests_of ns) k) [
      | inl same ↦ rw (← same) known
      | inr later ↦ check_nullifiers_are_valid-digests state ns h₂ x later
    ]

-- What an accepted privacy-preserving transaction says of the state it was checked against.
pub record IsFresh (state : V03State) (m : Message) (diff : StateDiff) : Type 0 where
  pub unspent : IsApart (nullifiers_of m.new_nullifiers) state.nullifier_set
  pub unseen : IsApart m.new_commitments (members state.commitment_set.commitments)
  pub known_digests : IsWithin (digests_of m.new_nullifiers) state.commitment_set.root_history
  pub sets_checked : check_sets m ≡ ok tt
  pub spends : diff.new_nullifiers ≡ nullifiers_of m.new_nullifiers
  pub creates : diff.new_commitments ≡ m.new_commitments
  pub writes : diff.public_diff ≡ zipped m.public_account_ids m.public_post_states

module _ (sha : Sha256) where
  pub from_privacy_preserving_transaction-IsFresh :
      (vm : Vm) (zkvm : Zkvm) (state : V03State) (block_id timestamp : ℕ) (tx : PrivateTransaction)
      {diff : StateDiff}
      → from_privacy_preserving_transaction sha vm zkvm state block_id timestamp tx ≡ ok diff
      → IsFresh state tx.message diff
  unfolding from_privacy_preserving_transaction
  from_privacy_preserving_transaction-IsFresh vm zkvm state block_id timestamp tx h =
      let (a, ea, h₁) = >>=-eq-ok (check_sets tx.message) _ h in
      let (b, eb, h₂) = >>=-eq-ok (check_signers sha vm zkvm state block_id timestamp tx) _ h₁ in
      let (c, ec, h₃) =
        >>=-eq-ok
          (check_privacy_preserving_circuit_proof_is_valid sha vm zkvm state block_id timestamp tx)
          _ h₂ in
      let (d, ed, h₄) =
        >>=-eq-ok (check_commitments_are_new state tx.message.new_commitments) _ h₃ in
      let (e, ee, h₅) =
        >>=-eq-ok (check_nullifiers_are_valid state tx.message.new_nullifiers) _ h₄ in
      let made = ok-injective h₅ in
      record {
        unspent = check_nullifiers_are_valid-IsApart state tx.message.new_nullifiers ee;
        unseen = check_commitments_are_new-IsApart state tx.message.new_commitments ed;
        known_digests = check_nullifiers_are_valid-digests state tx.message.new_nullifiers ee;
        sets_checked = ea;
        spends = sym (ap (λ r. r.new_nullifiers) made);
        creates = sym (ap (λ r. r.new_commitments) made);
        writes = sym (ap (λ r. r.public_diff) made);
      }

  -- A transition of any of the three kinds, on any machine and in any block.
  pub data Step (state state' : V03State) : Type 0 where
    public :
        (vm : Vm) (zkvm : Zkvm) (block_id timestamp : ℕ) (tx : Transaction)
        → transition_from_public_transaction sha vm zkvm state block_id timestamp tx ≡ ok state'
        → Step state state'
    private :
        (vm : Vm) (zkvm : Zkvm) (block_id timestamp : ℕ) (tx : PrivateTransaction)
        → transition_from_privacy_preserving_transaction sha vm zkvm state block_id timestamp tx
          ≡ ok state'
        → Step state state'
    deployment :
        (vm : Vm) (zkvm : Zkvm) (block_id timestamp : ℕ) (bytecode : Bytes)
        → transition_from_program_deployment_transaction sha vm zkvm state block_id timestamp
            bytecode
          ≡ ok state'
        → Step state state'

  pub data Reaches (state : V03State) : V03State → Type 0 where
    here : Reaches state state
    next :
        {middle later : V03State} → Reaches state middle → Step middle later → Reaches state later

  pub applied :
      (state : V03State) (r : Result LeeError StateDiff) {state' : V03State}
      → (do diff ← or_refused r; apply_state_diff sha state diff) ≡ ok state'
      → (diff : StateDiff) × (r ≡ ok diff) × IsApplied sha state diff state'
  applied state r h =
      let (diff, e, h₁) = >>=-eq-ok (or_refused r) _ h in
      (diff, or_refused-eq-ok r e, apply_state_diff-IsApplied sha state diff h₁)

  Step-IsApplied :
      {state state' : V03State}
      → Step state state'
      → (diff : StateDiff) × IsApplied sha state diff state'
  unfolding transition_from_public_transaction transition_from_privacy_preserving_transaction
      transition_from_program_deployment_transaction
  Step-IsApplied {state} (public vm zkvm b t tx h) =
      let (diff, e, a) = applied state (public_state_diff sha vm zkvm state b t tx) h in (diff, a)
  Step-IsApplied {state} (private vm zkvm b t tx h) =
      let (diff, e, a) =
        applied state (from_privacy_preserving_transaction sha vm zkvm state b t tx) h in
      (diff, a)
  Step-IsApplied {state} (deployment vm zkvm b t bytecode h) =
      let (diff, e, a) =
        applied state (from_program_deployment_transaction sha vm zkvm state b t bytecode) h in
      (diff, a)

  Reaches-IsGrown : {state later : V03State} → Reaches state later → IsGrown sha state later
  Reaches-IsGrown here = record {
    commitments = λ x k. k;
    roots = λ x k. k;
    nullifiers = λ x k. k;
    programs = λ x k. k;
  }
  Reaches-IsGrown (next before last) =
      let g = Reaches-IsGrown before in
      let s = (Step-IsApplied last).1.grown in
      record {
        commitments = λ x k. s.commitments x (g.commitments x k);
        roots = λ x k. s.roots x (g.roots x k);
        nullifiers = λ x k. s.nullifiers x (g.nullifiers x k);
        programs = λ x k. s.programs x (g.programs x k);
      }

  -- No transition of whatever kind, and no sequence of them, makes a state list an account, a commitment, a
  -- nullifier or a program twice.
  pub Reaches-IsWellFormed :
      {state later : V03State}
      → IsWellFormed sha state
      → Reaches state later
      → IsWellFormed sha later
  Reaches-IsWellFormed w here = w
  Reaches-IsWellFormed w (next before last) =
      (Step-IsApplied last).1.formed (Reaches-IsWellFormed w before)

  apart :
      (xs ys : List Bytes) (x : Bytes)
      → IsApart xs ys
      → contains xs x ≡ true
      → contains ys x ≡ true
      → ⊥
  apart xs ys x a h k = (let clash : true ≡ false = sym k ∙ a x h in cc)

  private-IsApplied :
      (vm : Vm) (zkvm : Zkvm) (block_id timestamp : ℕ) (tx : PrivateTransaction) (state : V03State)
      {state' : V03State}
      → transition_from_privacy_preserving_transaction sha vm zkvm state block_id timestamp tx
        ≡ ok state'
      → (diff : StateDiff) × IsFresh state tx.message diff × IsApplied sha state diff state'
  unfolding transition_from_privacy_preserving_transaction
  private-IsApplied vm zkvm b t tx state h =
      let (diff, e, a) =
        applied state (from_privacy_preserving_transaction sha vm zkvm state b t tx) h in
      (diff, from_privacy_preserving_transaction-IsFresh vm zkvm state b t tx e, a)

  -- No double spending: once a privacy-preserving transaction has been applied, no state that transitions of any
  -- kind lead to accepts a privacy-preserving transaction, the same or another, with a proof or without, in
  -- whatever block and on whatever machine, that has one of its nullifiers.
  pub nullifier-no_reuse :
      (vm vm' : Vm) (zkvm zkvm' : Zkvm) (block_id timestamp block_id' timestamp' : ℕ)
      (tx tx' : PrivateTransaction) (nullifier : Bytes) (state state' later : V03State)
      → transition_from_privacy_preserving_transaction sha vm zkvm state block_id timestamp tx
        ≡ ok state'
      → Reaches state' later
      → contains (nullifiers_of tx.message.new_nullifiers) nullifier ≡ true
      → contains (nullifiers_of tx'.message.new_nullifiers) nullifier ≡ true
      → ¬ (
          (diff : StateDiff) × (from_privacy_preserving_transaction sha vm' zkvm' later block_id'
              timestamp' tx'
            ≡ ok diff))
  nullifier-no_reuse vm vm' zkvm zkvm' b t b' t' tx tx' nullifier state state' later h r mine yours
        (diff', again) =
      let (diff, fresh, done) = private-IsApplied vm zkvm b t tx state h in
      let fresh' = from_privacy_preserving_transaction-IsFresh vm' zkvm' later b' t' tx' again in
      let spent = done.spent nullifier (rw fresh.spends mine) in
      apart (nullifiers_of tx'.message.new_nullifiers) later.nullifier_set nullifier fresh'.unspent
        yours ((Reaches-IsGrown r).nullifiers nullifier spent)

  -- Once a privacy-preserving transaction has been applied, no state that transitions of any kind lead to accepts a
  -- privacy-preserving transaction that creates one of its commitments again.
  pub commitment-no_reuse :
      (vm vm' : Vm) (zkvm zkvm' : Zkvm) (block_id timestamp block_id' timestamp' : ℕ)
      (tx tx' : PrivateTransaction) (commitment : Bytes) (state state' later : V03State)
      → transition_from_privacy_preserving_transaction sha vm zkvm state block_id timestamp tx
        ≡ ok state'
      → Reaches state' later
      → contains tx.message.new_commitments commitment ≡ true
      → contains tx'.message.new_commitments commitment ≡ true
      → ¬ (
          (diff : StateDiff) × (from_privacy_preserving_transaction sha vm' zkvm' later block_id'
              timestamp' tx'
            ≡ ok diff))
  commitment-no_reuse vm vm' zkvm zkvm' b t b' t' tx tx' commitment state state' later h r mine
        yours (diff', again) =
      let (diff, fresh, done) = private-IsApplied vm zkvm b t tx state h in
      let fresh' = from_privacy_preserving_transaction-IsFresh vm' zkvm' later b' t' tx' again in
      let seen = done.extended.added commitment (rw fresh.creates mine) in
      apart tx'.message.new_commitments (members later.commitment_set.commitments) commitment
        fresh'.unseen yours ((Reaches-IsGrown r).commitments commitment seen)

  deployed_now :
      (vm : Vm) (zkvm : Zkvm) (block_id timestamp : ℕ) (bytecode : Bytes) (state : V03State)
      {diff : StateDiff}
      → from_program_deployment_transaction sha vm zkvm state block_id timestamp bytecode ≡ ok diff
      → (id : ProgramId) × (zkvm.image_id bytecode ≡ some id)
        × (contains (members state.programs) id ≡ false)
        × (contains (members (insert_program state.programs diff.program)) id ≡ true)
  unfolding from_program_deployment_transaction insert_program
  deployed_now vm zkvm b t bytecode state h =
      let (id, e, h₁) = or_err-eq-ok (zkvm.image_id bytecode) invalid_program_bytecode _ h in
      let (new, h₂) =
        ensure-eq-ok (not (contains (members state.programs) id)) program_already_exists _ h₁ in
      (
        id,
        e,
        not-true (contains (members state.programs) id) new,
        rw (← ok-injective h₂) (put-added id _ state.programs),
      )

  -- Once a program has been deployed, no state that transitions of any kind lead to accepts a deployment whose
  -- bytecode has the same image id: a deployed program is never replaced.
  pub deployment-no_replace :
      (vm vm' : Vm) (zkvm zkvm' : Zkvm) (block_id timestamp block_id' timestamp' : ℕ)
      (bytecode bytecode' : Bytes) (state state' later : V03State)
      → transition_from_program_deployment_transaction sha vm zkvm state block_id timestamp bytecode
        ≡ ok state'
      → Reaches state' later
      → zkvm.image_id bytecode ≡ zkvm'.image_id bytecode'
      → ¬ (
          (diff : StateDiff) × (from_program_deployment_transaction sha vm' zkvm' later block_id'
              timestamp' bytecode'
            ≡ ok diff))
  unfolding transition_from_program_deployment_transaction
  deployment-no_replace vm vm' zkvm zkvm' b t b' t' bytecode bytecode' state state' later h r same
        (diff', again) =
      let (diff, e, done) =
        applied state (from_program_deployment_transaction sha vm zkvm state b t bytecode) h in
      let (id, ei, new, held) = deployed_now vm zkvm b t bytecode state e in
      let (id', ei', new', held') = deployed_now vm' zkvm' b' t' bytecode' later again in
      let one : id ≡ id' = some-injective id id' (sym ei ∙ same ∙ ei') in
      let listed : contains (members state'.programs) id ≡ true = rw done.listed held in
      let absent : contains (members later.programs) id ≡ false = rw one new' in
      let clash : true ≡ false = sym ((Reaches-IsGrown r).programs id listed) ∙ absent in cc
