-- ===== src/Msig/Guest/Enroll.antt =====
-- `enroll`: the registry after a sequence of enrolments.
use lp_0002_private_multisig.Prelude.{
  ◌≤◌, ◌≡◌, ap, false, List, [], ◌++◌, length, get_or, resize-append_past,
}
use lp_0002_private_multisig.Core.Bytes.{Bytes}
use lp_0002_private_multisig.Core.Hash.{Sha256}
use lp_0002_private_multisig.Msig.Scheme.{merkle_root, empty_leaf, fold_levels}
use lp_0002_private_multisig.Msig.State.{has_header}
use lp_0002_private_multisig.Msig.State.RoundTrip.{Registry}

-- The content holds these leaves: no header at all and no leaf, or a registry whose root is theirs.
pub data Holds (sha : Sha256) (content : Bytes) : List Bytes → Type 0 where
  blank : has_header 36 content ≡ false → Holds sha content []
  filled :
      {leaves : List Bytes}
      → Registry content (merkle_root sha leaves) leaves
      → Holds sha content leaves

-- Leaves behind at least 32 others do not change the root: `resize` cuts them off.
pub merkle_root-append_full :
    (sha : Sha256) (leaves more : List Bytes)
    → 32 ≤ length leaves
    → merkle_root sha (leaves ++ more) ≡ merkle_root sha leaves
unfolding merkle_root
merkle_root-append_full sha leaves more h =
    ap (λ xs. get_or (fold_levels sha 5 xs) 0 empty_leaf)
      (resize-append_past 32 empty_leaf leaves more h)
