-- ===== src/Msig/Poll/Release.antt =====
-- From `create_proposal` over any ballots to `execute`: a release rests on as many votes.
use lp_0002_private_multisig.Prelude.{ℕ, ◌≤◌, ◌≡◌, List, [], ◌∷◌, length, true, ok}
use lp_0002_private_multisig.Core.Bytes.{Bytes}
use lp_0002_private_multisig.Core.Account.{Account, AccountWithMetadata}
use lp_0002_private_multisig.Core.Sets.{IsWithin}
use lp_0002_private_multisig.Core.Hash.{Sha256}
use lp_0002_private_multisig.Core.Program.{InstructionData, new_post, new_claimed, authorized}
use lp_0002_private_multisig.AuthTransfer.Types as Transfer
use lp_0002_private_multisig.Msig.Scheme.{IsDigest}
use lp_0002_private_multisig.Msig.Guest.{Posts, create_proposal, execute}
use lp_0002_private_multisig.Msig.Guest.Execute.{execute_sound}
use lp_0002_private_multisig.Msig.Poll.{Ballot, poll}
use lp_0002_private_multisig.Msig.Poll.Tally.{
  IsTally, ballot_nullifiers, create_proposal-IsTally, poll-IsTally,
}

module _ (sha : Sha256) (to_vec : Transfer.Instruction → InstructionData) where
  -- If `execute` with some threshold accepts a proposal that `create_proposal` began with a root and an id of 32 bytes
  -- and that any ballots have followed, then the data of the proposal's account are that root, that id and at least
  -- so many, and at most one for each ballot, pairwise different nullifiers, which are their count; each is that of
  -- a ballot's secret and of a secret with a membership proof for the root. The posts leave the three accounts as
  -- they are, and the one call is the transfer of the treasury's whole balance to the recipient, with the treasury
  -- authorized by the seed.
  pub execute-poll :
      (fresh treasury recipient : AccountWithMetadata) (root pid seed : Bytes) (account : Account)
      (ballots : List Ballot) (threshold : ℕ) {out : Posts}
      → IsDigest root
      → IsDigest pid
      → create_proposal fresh root pid ≡ ok (new_claimed account authorized ∷ [])
      → execute to_vec
          (poll sha (record fresh { account = account }) ballots)
          treasury
          recipient
          threshold
          seed
        ≡ ok out
      → (votes : List Bytes) × IsTally sha root pid
          (poll sha (record fresh { account = account }) ballots).account.content
          votes
        × (threshold ≤ length votes)
        × (length votes ≤ length ballots)
        × IsWithin votes (ballot_nullifiers sha pid ballots)
        × (out ≡ (
          new_post (poll sha (record fresh { account = account }) ballots).account
              ∷ new_post treasury.account
              ∷ new_post recipient.account
              ∷ [],
          record {
            program_id = treasury.account.program_owner;
            pre_states = record treasury { is_authorized = true } ∷ recipient ∷ [];
            instruction_data = to_vec (Transfer.transfer treasury.account.balance);
            pda_seeds = seed ∷ [];
          }
              ∷ [],
        ))
  execute-poll fresh treasury recipient root pid seed account ballots threshold hr hp made h =
      let (a, same, start, rest) = create_proposal-IsTally sha root pid hr hp fresh made in
      let e : account ≡ a = cc in
      let (votes, t, bound, own, owner, balance) =
        poll-IsTally sha root pid hr hp (record fresh { account = account }) ballots []
          (rw e start) in
      let (long, enough, shape) =
        execute_sound to_vec (poll sha (record fresh { account = account }) ballots) treasury
          recipient threshold seed h in
      (votes, t, rw t.view.count_read at enough, bound, own, shape)
