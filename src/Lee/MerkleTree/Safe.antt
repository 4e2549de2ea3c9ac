-- ===== src/Lee/MerkleTree/Safe.antt =====
-- lee/state_machine/src/merkle_tree/mod.rs: why inserting never panics.
use lp_0002_private_multisig.Prelude.{
  ℕ, Bool, false, zero, suc, ◌+◌, ◌-◌, ◌*◌, ◌/◌, ◌^◌, ◌≤◌, ◌<◌, ◌==◌, ◌≡◌, ◌≢◌, length-append,
  length-replicate, inl, inr, Bool-cases, refl, ap, ◌∙◌, true, List, [], ◌∷◌, ◌++◌, length,
  replicate, arith, if◌then◌else◌, Result, ok,
}
use lp_0002_private_multisig.Core.Bytes.{Bytes}
use lp_0002_private_multisig.Core.Hash.{Sha256}
use lp_0002_private_multisig.Lee.MerkleTree.{
  MerkleTree, TreePanic, trailing_zeros, prev_power_of_two, get_node, set_node, empty_levels,
  with_capacity, depth, root_index, root, embed, reallocate_to_double_capacity, hash_two,
  hash_value, rise, insert_leaf, insert,
}
use lp_0002_private_multisig.Lee.MerkleTree.Defaults.{default_values}
use lp_0002_private_multisig.Lee.MerkleTree.Powers.{
  power_double, power-positive, power_mono, next_power_of_two_lem, trailing_zeros_lem,
  prev_power_of_two-le, power-reflects,
}

-- A result without a panic, and what it is.
abbrev pub Returns : {A : Type 0} → Result TreePanic A → (A → Type 0) → Type 0
Returns {A} r P = (a : A) × (r ≡ ok a) × P a

get_node-Returns :
    (nodes : List Bytes) (i : ℕ) → i < length nodes → Returns (get_node nodes i) (λ n. Unit {0})
unfolding get_node
get_node-Returns [] i h = absurd (omega arith)
get_node-Returns (n ∷ nodes) zero h = (n, refl, tt)
get_node-Returns (n ∷ nodes) (suc i) h = get_node-Returns nodes i (omega arith)

set_node-Returns :
    (nodes : List Bytes) (i : ℕ) (v : Bytes)
    → i < length nodes
    → Returns (set_node nodes i v) (λ new. length new ≡ length nodes)
unfolding set_node
set_node-Returns [] i v h = absurd (omega arith)
set_node-Returns (n ∷ nodes) zero v h = (v ∷ nodes, refl, refl)
set_node-Returns (n ∷ nodes) (suc i) v h =
    let (new, e, same) = set_node-Returns nodes i v (omega arith) in
    (n ∷ new, rw e refl, ap suc same)

module _ (sha : Sha256) where
  -- The climb from a node stays in an array of an odd length, which it keeps.
  rise-Returns :
      (rounds node_index c : ℕ) (nodes : List Bytes)
      → 2 ^ rounds ≤ node_index + 1
      → node_index < length nodes
      → length nodes + 1 ≡ 2 * c
      → Returns (rise sha rounds node_index nodes) (λ new. length new ≡ length nodes)
  unfolding rise
  rise-Returns zero node_index c nodes up within odd = (nodes, refl, refl)
  rise-Returns (suc rounds) zero c nodes up within odd =
      absurd (omega (arith, power_double rounds, power-positive rounds))
  rise-Returns (suc rounds) (suc below) c nodes up within odd =
      let parent_index : ℕ = below / 2 in
      let (left, el, tl) = get_node-Returns nodes (2 * parent_index + 1) (omega arith) in
      let (right, er, tr) = get_node-Returns nodes (2 * parent_index + 2) (omega arith) in
      let (raised, es, same) =
        set_node-Returns nodes parent_index (hash_two sha left right) (omega arith) in
      let (new, en, kept) =
        rise-Returns rounds parent_index c raised (omega (arith, power_double rounds))
          (rw same (omega arith)) (rw same odd) in
      (new, rw (el, er, es) en, kept ∙ same)

-- The array of a tree of capacity `2 ^ d`, which has room for its leaves.
pub record IsWellFormed (t : MerkleTree) (d : ℕ) : Type 0 where
  pub shallow : d ≤ 31
  pub full : t.capacity ≡ 2 ^ d
  pub nodes_of : length t.nodes + 1 ≡ 2 * 2 ^ d
  pub room : t.size ≤ 2 ^ d

-- The depth in use is within that of the capacity.
depth_lem : (t : MerkleTree) (d : ℕ) → d ≤ 31 → t.size ≤ 2 ^ d → depth t ≤ d
unfolding depth
depth_lem t d shallow room =
    let (b, e, low, high) = next_power_of_two_lem t.size d room (omega arith) in
    rw (e, trailing_zeros_lem b (omega arith)) low

insert_leaf-Returns :
    (sha : Sha256) (t : MerkleTree) (d : ℕ) (value : Bytes)
    → IsWellFormed t d
    → t.size < 2 ^ d
    → Returns
        (insert_leaf sha t value)
        (λ r. (r.1 ≡ t.size) × (r.0.size ≡ t.size + 1) × IsWellFormed r.0 d)
unfolding insert_leaf
insert_leaf-Returns sha t d value w less =
    let node_index : ℕ = t.size + t.capacity - 1 in
    let (leaves, el, same) =
      set_node-Returns t.nodes node_index (hash_value sha value)
        (omega (arith, w.full, w.nodes_of)) in
    let grown : MerkleTree = record t { nodes = leaves; size = t.size + 1 } in
    let low : depth grown ≤ d = depth_lem grown d w.shallow (omega arith) in
    let (nodes, en, kept) =
      rise-Returns sha (depth grown) node_index (2 ^ d) leaves
        (omega (arith, w.full, power_mono (depth grown) d low))
        (rw same (omega (arith, w.full, w.nodes_of))) (rw same w.nodes_of) in
    (
      (record grown { nodes = nodes }, t.size),
      rw (el, en) refl,
      (
        refl,
        refl,
        record {
          shallow = w.shallow;
          full = w.full;
          nodes_of = rw (kept, same) w.nodes_of;
          room = omega arith;
        },
      ),
    )

empty_levels-Returns :
    (d width : ℕ)
    → d < 32
    → Returns (empty_levels d width) (λ nodes. length nodes + width ≡ width * 2 ^ suc d)
unfolding empty_levels
empty_levels-Returns zero width h =
    let (leaf, e, t) = get_node-Returns default_values 0 (omega arith) in
    (replicate width leaf, rw e refl, rw (length-replicate width leaf) (omega arith))
empty_levels-Returns (suc d) width h =
    let (node, e, t) = get_node-Returns default_values (suc d) (omega arith) in
    let (lower, el, sum) = empty_levels-Returns d (2 * width) (omega arith) in
    (
      replicate width node ++ lower,
      rw (e, el) refl,
      rw
          (
            length-append (replicate width node) lower,
            length-replicate width node,
            power_double (suc d),
          )
          (grind (arith, sum)),
    )

embed-Returns :
    (old : List Bytes) (index : ℕ) (nodes : List Bytes)
    → 2 * (index + length old) < length nodes + 1
    → Returns (embed old index nodes) (λ new. length new ≡ length nodes)
unfolding embed
embed-Returns [] index nodes h = (nodes, refl, refl)
embed-Returns (value ∷ old) index nodes h =
    let low = prev_power_of_two-le (index + 1) in
    let (moved, em, same) =
      set_node-Returns nodes (index + prev_power_of_two (index + 1)) value (omega arith) in
    let (new, en, kept) = embed-Returns old (index + 1) moved (rw same (omega arith)) in
    (new, rw em en, kept ∙ same)

-- An empty tree whose capacity is a power of two.
pub with_capacity-Returns :
    (d : ℕ)
    → d ≤ 31
    → Returns
        (with_capacity (2 ^ d))
        (λ t. (t.capacity ≡ 2 ^ d) × (length t.nodes + 1 ≡ 2 * 2 ^ d) × (t.size ≡ 0))
unfolding with_capacity
with_capacity-Returns d h =
    let (b, e, low, high) = next_power_of_two_lem (2 ^ d) d (omega arith) (omega arith) in
    let exact : 2 ^ b ≡ 2 ^ d = omega (arith, power_mono b d low) in
    let (nodes, en, sum) = empty_levels-Returns d 1 (omega arith) in
    (
      record { nodes = nodes; capacity = 2 ^ d; size = 0 },
      rw (e, exact, trailing_zeros_lem d (omega arith), en) refl,
      (refl, sum ∙ rw (power_double d) (omega arith), refl),
    )

reallocate-Returns :
    (t : MerkleTree) (d : ℕ)
    → IsWellFormed t d
    → d < 31
    → Returns (reallocate_to_double_capacity t) (λ t'. (t'.size ≡ t.size) × IsWellFormed t' (suc d))
unfolding reallocate_to_double_capacity
reallocate-Returns t d w h =
    let (this, et, (cap, len, unused)) = with_capacity-Returns (suc d) (omega arith) in
    let twice : t.capacity * 2 ≡ 2 ^ suc d = rw (power_double d, w.full) (omega arith) in
    let (nodes, en, same) =
      embed-Returns t.nodes 0 this.nodes (omega (arith, w.nodes_of, power_double d)) in
    (
      record this { nodes = nodes; size = t.size },
      rw (twice, et, en) refl,
      (
        refl,
        record {
          shallow = omega arith;
          full = cap;
          nodes_of = rw same len;
          room = omega (arith, w.room, power_double d);
        },
      ),
    )

-- A well-formed tree of fewer than `2 ^ 31` leaves takes another without a panic: the leaf's index is the number
-- of leaves before, which grows by one, and the tree stays well formed, at its capacity or at twice that.
pub insert-Returns :
    (sha : Sha256) (t : MerkleTree) (d : ℕ) (value : Bytes)
    → IsWellFormed t d
    → t.size < 2 ^ 31
    → (t' : MerkleTree) × (d' : ℕ) × (insert sha t value ≡ ok (t', t.size))
      × (t'.size ≡ t.size + 1)
      × IsWellFormed t' d'
unfolding insert
insert-Returns sha t d value w less = elim (Bool-cases (t.size == t.capacity)) [
  | inl y ↦
      (let all_used : t.size ≡ t.capacity = ground arith in
        let deeper : d < 31 = power-reflects d 31 (omega (arith, w.full)) in
        let (big, eb, (same, wb)) = reallocate-Returns t d w deeper in
        let (r, er, (at, grown, wr)) =
          insert_leaf-Returns sha big (suc d) value wb
            (rw same (omega (arith, w.room, power_double d, power-positive d))) in
        (
          r.0,
          suc d,
          rw (y, eb, er) (ap (λ i. ok (r.0, i)) (at ∙ same)),
          grown ∙ ap (λ n. n + 1) same,
          wr,
        ))
  | inr y ↦
      (let left : t.size ≢ t.capacity = ground arith in
        let (r, er, (at, grown, wr)) =
          insert_leaf-Returns sha t d value w (omega (arith, w.room, w.full, left)) in
        (r.0, d, rw (y, er) (ap (λ i. ok (r.0, i)) at), grown, wr))
]

root_within : (b : Bool) (x c l : ℕ) → x ≤ c → 0 < c → l + 1 ≡ 2 * c → (if b then 0 else x - 1) < l
root_within true x c l le pos e = omega arith
root_within false x c l le pos e = omega arith

-- The root of a well-formed tree is one of its nodes.
pub root-Returns : (t : MerkleTree) (d : ℕ) → IsWellFormed t d → (r : Bytes) × (root t ≡ ok r)
unfolding root root_index
root-Returns t d w =
    let low : depth t ≤ d = depth_lem t d w.shallow w.room in
    let least : 2 ^ (d - depth t) ≤ 2 ^ d = power_mono (d - depth t) d (omega arith) in
    let high : trailing_zeros t.capacity ≡ d =
      rw w.full (trailing_zeros_lem d (omega (arith, w.shallow))) in
    let (r, e, u) =
      get_node-Returns t.nodes
        (if depth t == trailing_zeros t.capacity
          then 0
          else 2 ^ (trailing_zeros t.capacity - depth t) - 1)
        (rw high (
          root_within (depth t == d) (2 ^ (d - depth t)) (2 ^ d) (length t.nodes) least
            (power-positive d) w.nodes_of)) in
    (r, e)
