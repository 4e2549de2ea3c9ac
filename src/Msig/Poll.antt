-- ===== src/Msig/Poll.antt =====
-- A proposal over its life: any sequence of `approve` transactions against it, in the order in which
-- they are executed. One that panics leaves the account as it was.
pub mod Tally
pub mod Release
use lp_0002_private_multisig.Prelude.{List, [], ◌∷◌, Bool, true, false, ◌≡◌, ok, err, Result}
use lp_0002_private_multisig.Core.Bytes.{Bytes}
use lp_0002_private_multisig.Core.Account.{AccountWithMetadata}
use lp_0002_private_multisig.Core.Hash.{Sha256}
use lp_0002_private_multisig.Core.Program.{AccountPostState}
use lp_0002_private_multisig.Msig.Scheme.{MerkleProof}
use lp_0002_private_multisig.Msig.Guest.{Fault, approve}

pub record Ballot : Type 0 where
  pub rider : AccountWithMetadata
  pub secret : Bytes
  pub path : MerkleProof
  pub id : Bytes

-- The first post state is the proposal's.
unfoldable pub settle :
    AccountWithMetadata → Result Fault (List AccountPostState) → AccountWithMetadata
settle p (ok (post ∷ rest)) = record p { account = post.account }
settle p (ok []) = p
settle p (err e) = p

module _ (sha : Sha256) where
  unfoldable pub cast : AccountWithMetadata → Ballot → AccountWithMetadata
  cast p b = settle p (approve sha p b.rider b.secret b.path b.id)

  unfoldable pub poll : AccountWithMetadata → List Ballot → AccountWithMetadata
  poll p [] = p
  poll p (b ∷ bs) = poll (cast p b) bs
