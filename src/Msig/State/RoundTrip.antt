-- ===== src/Msig/State/RoundTrip.antt =====
-- What is written into a layout is read back from it.
use lp_0002_private_multisig.Prelude.{
  ℕ, ◌+◌, ◌-◌, ◌*◌, ◌^◌, ◌<◌, ◌≡◌, refl, sym, true, ap, some, List, [], ◌∷◌, ◌++◌, leb, le→leb,
  length, length-append, take-append, drop-append, All, arith,
}
use mathlib.Core.List.{append_assoc}
use lp_0002_private_multisig.Core.Bytes.{Bytes, to_le_bytes, from_le_bytes-to_le_bytes}
use lp_0002_private_multisig.Msig.Scheme.{prepend, IsDigest}
use lp_0002_private_multisig.Msig.State.{
  slice, field, has_header, read_entries, concat, header_count, encode_proposal, encode_registry,
}

pub length-concat : (xs : List Bytes) → All IsDigest xs → length (concat xs) ≡ 32 * length xs
length-concat [] h = refl
length-concat (x ∷ xs) h = omega (arith, length-append x (concat xs), length-concat xs h.1, h.0)

-- A slice that starts where a known prefix ends.
slice-append :
    (pre x rest : Bytes) (n m : ℕ)
    → length pre ≡ n
    → n + length x ≡ m
    → slice (pre ++ (x ++ rest)) n m ≡ some x
unfolding slice
slice-append pre x rest n m hp hx =
    let room : leb m (length (pre ++ (x ++ rest))) ≡ true =
      le→leb m (length (pre ++ (x ++ rest)))
        (omega (arith, length-append pre (x ++ rest), length-append x rest)) in
    let width : m - n ≡ length x = omega arith in
    rw (room, drop-append pre (x ++ rest) n hp) (ap some (take-append x rest (m - n) (omega arith)))

-- The entries behind a header of `n` bytes are read back one by one.
read_entries-append :
    (xs : List Bytes) (pre : Bytes) (n : ℕ)
    → length pre ≡ n
    → All IsDigest xs
    → read_entries (pre ++ concat xs) n (length xs) ≡ some xs
unfolding read_entries
read_entries-append [] pre n hp h = refl
read_entries-append (x ∷ xs) pre n hp h =
    let shifted : length (pre ++ x) ≡ n + 32 = omega (arith, length-append pre x, h.0) in
    let rest = read_entries-append xs (pre ++ x) (n + 32) shifted h.1 in
    let here = slice-append pre x (concat xs) n (n + 32) hp (omega (arith, h.0)) in
    rw here (ap (prepend (some x)) (rw (append_assoc pre x (concat xs)) at rest))

pub length-encode_proposal :
    (root pid : Bytes) (count : ℕ) (ns : List Bytes)
    → IsDigest root
    → IsDigest pid
    → All IsDigest ns
    → length (encode_proposal root pid count ns) ≡ 68 + 32 * length ns
unfolding encode_proposal
length-encode_proposal root pid count ns hr hp hn =
    let word : Bytes = to_le_bytes 4 count in
    omega (
      arith,
      length-append root (pid ++ (word ++ concat ns)),
      length-append pid (word ++ concat ns),
      length-append word (concat ns),
      length-concat ns hn,
    )

-- What `approve` and `execute` read from a `ProposalState` with this content.
pub record Proposal (content root proposal_id : Bytes) (nullifiers : List Bytes) : Type 0 where
  pub size : has_header 68 content ≡ true
  pub root_read : field content 0 32 ≡ root
  pub id_read : field content 32 64 ≡ proposal_id
  pub count_read : header_count content 64 68 ≡ length nullifiers
  pub entries_read : read_entries content 68 (length nullifiers) ≡ some nullifiers

-- A `ProposalState` that is written with a root, an id and the nullifiers that it counts, all of 32
-- bytes and fewer than 2 ^ 32, reads back as those.
pub encode_proposal-Proposal :
    (root pid : Bytes) (ns : List Bytes)
    → IsDigest root
    → IsDigest pid
    → All IsDigest ns
    → length ns < 2 ^ 32
    → Proposal (encode_proposal root pid (length ns) ns) root pid ns
unfolding encode_proposal has_header field header_count
encode_proposal-Proposal root pid ns hr hp hn small = record {
  size =
      le→leb 68 (length (root ++ (pid ++ (word ++ rest))))
        (omega (arith, length-encode_proposal root pid (length ns) ns hr hp hn));
  root_read = take-append root (pid ++ (word ++ rest)) 32 hr;
  id_read =
      rw (drop-append root (pid ++ (word ++ rest)) 32 hr) (take-append pid (word ++ rest) 32 hp);
  count_read =
      rw (regroup, drop-append (root ++ pid) (word ++ rest) 64 two)
        (from_le_bytes-to_le_bytes (length ns) small);
  entries_read =
      rw (regroup, ← append_assoc (root ++ pid) word rest)
        (read_entries-append ns ((root ++ pid) ++ word) 68
          (omega (arith, two, length-append (root ++ pid) word)) hn);
}
  where
    word : Bytes
    word = to_le_bytes 4 (length ns)

    rest : Bytes
    rest = concat ns

    two : length (root ++ pid) ≡ 64
    two = omega (arith, length-append root pid)

    regroup : root ++ (pid ++ (word ++ rest)) ≡ (root ++ pid) ++ (word ++ rest)
    regroup = sym (append_assoc root pid (word ++ rest))

-- What `enroll` reads from a `MembersRegistry` with this content.
pub record Registry (content root : Bytes) (leaves : List Bytes) : Type 0 where
  pub size : has_header 36 content ≡ true
  pub root_read : field content 0 32 ≡ root
  pub count_read : header_count content 32 36 ≡ length leaves
  pub entries_read : read_entries content 36 (length leaves) ≡ some leaves

pub length-encode_registry :
    (root : Bytes) (count : ℕ) (leaves : List Bytes)
    → IsDigest root
    → All IsDigest leaves
    → length (encode_registry root count leaves) ≡ 36 + 32 * length leaves
unfolding encode_registry
length-encode_registry root count leaves hr hl =
    let word : Bytes = to_le_bytes 4 count in
    omega (
      arith,
      length-append root (word ++ concat leaves),
      length-append word (concat leaves),
      length-concat leaves hl,
    )

-- A `MembersRegistry` that is written with a root and the leaves that it counts, all of 32 bytes
-- and fewer than 2 ^ 32, reads back as those.
pub encode_registry-Registry :
    (root : Bytes) (leaves : List Bytes)
    → IsDigest root
    → All IsDigest leaves
    → length leaves < 2 ^ 32
    → Registry (encode_registry root (length leaves) leaves) root leaves
unfolding encode_registry has_header field header_count
encode_registry-Registry root leaves hr hl small = record {
  size =
      le→leb 36 (length (root ++ (word ++ rest)))
        (omega (arith, length-encode_registry root (length leaves) leaves hr hl));
  root_read = take-append root (word ++ rest) 32 hr;
  count_read =
      rw (drop-append root (word ++ rest) 32 hr) (from_le_bytes-to_le_bytes (length leaves) small);
  entries_read =
      rw (← append_assoc root word rest)
        (read_entries-append leaves (root ++ word) 36 (omega (arith, length-append root word)) hl);
}
  where
    word : Bytes
    word = to_le_bytes 4 (length leaves)

    rest : Bytes
    rest = concat leaves
