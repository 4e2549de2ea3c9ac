-- ===== src/Msig/State.antt =====
-- The byte layouts of `ProposalState` and `MembersRegistry` (programs/msig/core/src/lib.rs), and how
-- test_program_methods/guest/src/bin/msig.rs reads and writes them.
pub mod RoundTrip
use lp_0002_private_multisig.Prelude.{
  ℕ, zero, suc, ◌+◌, ◌-◌, ◌^◌, ◌%◌, ◌≤◌, Bool, Option, none, some, List, [], ◌∷◌, ◌++◌, leb,
  if◌then◌else◌, length, take, drop,
}
use lp_0002_private_multisig.Core.Bytes.{Bytes, to_le_bytes, from_le_bytes}
use lp_0002_private_multisig.Msig.Scheme.{prepend}

abbrev pub proposal_header_len : ℕ
proposal_header_len = 68

abbrev pub registry_header_len : ℕ
registry_header_len = 36

-- `data.len() >= n`
unfoldable pub has_header : ℕ → Bytes → Bool
has_header n content = leb n (length content)

-- `data[from..to]`, where it is in range.
unfoldable pub field : Bytes → ℕ → ℕ → Bytes
field content from to = take (to - from) (drop from content)

-- `data[from..to]`, which panics past the end.
unfoldable pub slice : Bytes → ℕ → ℕ → Option Bytes
unfolding field
slice content from to = if leb to (length content) then some (field content from to) else none

-- The loop `for _ in 0..count` that reads 32 bytes at a time from `offset`.
unfoldable pub read_entries : Bytes → ℕ → ℕ → Option (List Bytes)
read_entries content offset zero = some []
read_entries content offset (suc count) =
    prepend (slice content offset (offset + 32)) (read_entries content (offset + 32) count)

-- The loops of `extend_from_slice` over a list of 32-byte entries.
abbrev pub concat : List Bytes → Bytes
concat [] = []
concat (x ∷ xs) = x ++ concat xs

-- `u32::from_le_bytes(data[from..to])`
unfoldable pub header_count : Bytes → ℕ → ℕ → ℕ
unfolding field
header_count content from to = from_le_bytes (field content from to)

-- `ProposalState`: root, proposal id, `u32` count, and the vote nullifiers.
unfoldable pub encode_proposal : Bytes → Bytes → ℕ → List Bytes → Bytes
encode_proposal member_root proposal_id count nullifiers =
    member_root ++ (proposal_id ++ (to_le_bytes 4 count ++ concat nullifiers))

-- `MembersRegistry`: root, `u32` count, and the leaves.
unfoldable pub encode_registry : Bytes → ℕ → List Bytes → Bytes
encode_registry root count leaves = root ++ (to_le_bytes 4 count ++ concat leaves)
