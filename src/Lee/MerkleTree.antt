-- ===== src/Lee/MerkleTree.antt =====
-- lee/state_machine/src/merkle_tree/mod.rs: the growing binary tree of the commitments, its nodes in one array,
-- the children of node `i` at `2 i + 1` and `2 i + 2`. An index out of range is a panic, which is an `err`.
pub mod Defaults
pub mod Powers
pub mod Safe
use lp_0002_private_multisig.Prelude.{
  ℕ, zero, suc, ◌+◌, ◌-◌, ◌*◌, ◌/◌, ◌%◌, ◌^◌, ◌==◌, Option, none, some, List, [], ◌∷◌, ◌++◌, length,
  replicate, leb, ltb, if◌then◌else◌, Result, ok, err, ◌>>=◌, or_err,
}
use lp_0002_private_multisig.Core.Bytes.{Bytes}
use lp_0002_private_multisig.Core.Hash.{Sha256}
use lp_0002_private_multisig.Lee.MerkleTree.Defaults.{default_values}

pub record MerkleTree : Type 0 where
  pub nodes : List Bytes
  pub capacity : ℕ
  pub size : ℕ  -- `length`

pub data TreePanic : Type 0 where
  index_out_of_range : TreePanic

-- `usize::next_power_of_two`, by doubling.
unfoldable pub doubled_to : ℕ → ℕ → ℕ → ℕ
doubled_to zero p n = p
doubled_to (suc rounds) p n = let more = doubled_to rounds (2 * p) n in if leb n p then p else more

unfoldable pub next_power_of_two : ℕ → ℕ
next_power_of_two n = doubled_to 63 1 n

-- `usize::trailing_zeros`, for a power of two.
unfoldable pub zeros_of : ℕ → ℕ → ℕ
zeros_of zero n = 0
zeros_of (suc rounds) n = let more = zeros_of rounds (n / 2) in if n % 2 == 0 then suc more else 0

unfoldable pub trailing_zeros : ℕ → ℕ
trailing_zeros n = zeros_of 63 n

-- The greatest power of two that is not above, from one that is not.
unfoldable pub doubled_below : ℕ → ℕ → ℕ → ℕ
doubled_below zero p x = p
doubled_below (suc rounds) p x =
    let more = doubled_below rounds (2 * p) x in if leb (2 * p) x then more else p

unfoldable pub prev_power_of_two : ℕ → ℕ
prev_power_of_two x = if x == 0 then 0 else doubled_below 63 1 x

unfoldable pub get_node : List Bytes → ℕ → Result TreePanic Bytes
get_node [] i = err index_out_of_range
get_node (n ∷ nodes) zero = ok n
get_node (n ∷ nodes) (suc i) = get_node nodes i

unfoldable pub set_node : List Bytes → ℕ → Bytes → Result TreePanic (List Bytes)
set_node [] i node = err index_out_of_range
set_node (n ∷ nodes) zero node = ok (node ∷ nodes)
set_node (n ∷ nodes) (suc i) node = do rest ← set_node nodes i node; ok (n ∷ rest)

-- The levels of an empty tree from the one of `width` nodes down to the leaves.
unfoldable pub empty_levels : ℕ → ℕ → Result TreePanic (List Bytes)
empty_levels zero width = do leaf ← get_node default_values 0; ok (replicate width leaf)
empty_levels (suc depth) width = do
  node ← get_node default_values (suc depth)
  lower ← empty_levels depth (2 * width)
  ok (replicate width node ++ lower)

unfoldable pub with_capacity : ℕ → Result TreePanic MerkleTree
with_capacity wanted = do
  let capacity : ℕ = next_power_of_two wanted
  nodes ← empty_levels (trailing_zeros capacity) 1
  ok (record { nodes = nodes; capacity = capacity; size = 0 })

-- The levels that the leaves in use need.
unfoldable pub depth : MerkleTree → ℕ
depth t = trailing_zeros (next_power_of_two t.size)

unfoldable pub root_index : MerkleTree → ℕ
root_index t =
    let capacity_depth : ℕ = trailing_zeros t.capacity in
    if depth t == capacity_depth then 0 else 2 ^ (capacity_depth - depth t) - 1

unfoldable pub root : MerkleTree → Result TreePanic Bytes
root t = get_node t.nodes (root_index t)

-- The loop over the old nodes, each to its place in the left part of the greater tree.
unfoldable pub embed : List Bytes → ℕ → List Bytes → Result TreePanic (List Bytes)
embed [] index nodes = ok nodes
embed (value ∷ old) index nodes = do
  moved ← set_node nodes (index + prev_power_of_two (index + 1)) value
  embed old (index + 1) moved

unfoldable pub reallocate_to_double_capacity : MerkleTree → Result TreePanic MerkleTree
reallocate_to_double_capacity t = do
  this ← with_capacity (t.capacity * 2)
  nodes ← embed t.nodes 0 this.nodes
  ok (record this { nodes = nodes; size = t.size })

module _ (sha : Sha256) where
  open sha use {hash_bytes}

  unfoldable pub hash_two : Bytes → Bytes → Bytes
  hash_two left right = hash_bytes (left ++ right)

  unfoldable pub hash_value : Bytes → Bytes
  hash_value value = hash_bytes value

  -- The loop over the upper levels. The parent of node 0 has an index beyond every array.
  unfoldable pub rise : ℕ → ℕ → List Bytes → Result TreePanic (List Bytes)
  rise zero node_index nodes = ok nodes
  rise (suc rounds) zero nodes = err index_out_of_range
  rise (suc rounds) (suc below) nodes = do
    let parent_index : ℕ = below / 2
    left_child ← get_node nodes (2 * parent_index + 1)
    right_child ← get_node nodes (2 * parent_index + 2)
    raised ← set_node nodes parent_index (hash_two left_child right_child)
    rise rounds parent_index raised

  -- `insert` where there is room.
  unfoldable pub insert_leaf : MerkleTree → Bytes → Result TreePanic (MerkleTree × ℕ)
  insert_leaf t value = do
    let node_index : ℕ = t.size + t.capacity - 1
    leaves ← set_node t.nodes node_index (hash_value value)
    let grown : MerkleTree = record t { nodes = leaves; size = t.size + 1 }
    nodes ← rise (depth grown) node_index leaves
    ok (record grown { nodes = nodes }, t.size)

  unfoldable pub insert : MerkleTree → Bytes → Result TreePanic (MerkleTree × ℕ)
  insert t value = do
    roomy ← if t.size == t.capacity then reallocate_to_double_capacity t else ok t
    insert_leaf roomy value

-- The `while` loop up to the root, by as many rounds as the node's index, which every round lowers.
unfoldable pub siblings : List Bytes → ℕ → ℕ → ℕ → Result TreePanic (List Bytes)
siblings nodes root_at zero node_index =
    if node_index == root_at then ok [] else err index_out_of_range
siblings nodes root_at (suc rounds) node_index =
    let above = siblings nodes root_at rounds ((node_index - 1) / 2) in
    if node_index == root_at then ok [] else if node_index == 0 then err index_out_of_range else (do
      node ← get_node nodes (if node_index % 2 == 1 then node_index + 1 else node_index - 1)
      rest ← above
      ok (node ∷ rest))

unfoldable pub get_authentication_path_for : MerkleTree → ℕ → Result TreePanic (Option (List Bytes))
get_authentication_path_for t index = if leb t.size index then ok none else (do
  let node_index : ℕ = t.capacity + index - 1
  path ← siblings t.nodes (root_index t) node_index node_index
  ok (some path))
