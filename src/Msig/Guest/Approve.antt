-- ===== src/Msig/Guest/Approve.antt =====
-- `approve`: what it demands, and the state that it leaves.
use lp_0002_private_multisig.Prelude.{
  ◌+◌, ◌%◌, ◌^◌, ◌≤◌, ◌≡◌, ◌≢◌, ◌∙◌, false, some, List, [], ◌∷◌, ◌++◌, arith, length, >>=-eq-ok, ok,
  err, Result, sym, ◌>>=◌,
}
use lp_0002_private_multisig.Core.Bytes.{Bytes, Bytes-discrete}
use lp_0002_private_multisig.Core.Account.{
  AccountWithMetadata, default_account, data_max_length, to_data-some, to_data-fits,
}
use lp_0002_private_multisig.Core.Sets.{contains}
use lp_0002_private_multisig.Core.Hash.{Sha256}
use lp_0002_private_multisig.Core.Program.{AccountPostState, new_post}
use lp_0002_private_multisig.Msig.Scheme.{MerkleProof, member_leaf, vote_nullifier, root_from_path}
use lp_0002_private_multisig.Msig.State.{read_entries, encode_proposal}
use lp_0002_private_multisig.Msig.State.RoundTrip.{Proposal}
use lp_0002_private_multisig.Msig.Guest.{
  Fault, id_mismatch, voting_account, check_voter, record_vote, approve,
}

module _ (sha : Sha256) where
  -- What a vote must satisfy on a proposal with this root, id and set of nullifiers.
  pub record IsVote (root pid : Bytes) (ns : List Bytes) (rider : AccountWithMetadata)
      (secret : Bytes) (path : MerkleProof) : Type 0 where
    pub rider_bound : rider.account_id ≡ voting_account sha secret
    pub rider_live : rider.account ≢ default_account
    pub enrolled : root_from_path sha (member_leaf sha secret) path ≡ root
    pub first_vote : contains ns (vote_nullifier sha secret pid) ≡ false

  -- The content of the proposal after a vote.
  abbrev pub voted : Bytes → Bytes → List Bytes → Bytes → Bytes
  voted root pid ns secret =
      encode_proposal root pid ((length ns + 1) % 2 ^ 32) (ns ++ vote_nullifier sha secret pid ∷ [])

  check_voter_sound :
      (rider : AccountWithMetadata) (secret : Bytes) (path : MerkleProof) (root : Bytes)
      {u : Unit {0}}
      → check_voter sha rider secret path root ≡ ok u
      → (rider.account_id ≡ voting_account sha secret)
        × (rider.account ≢ default_account)
        × (root_from_path sha (member_leaf sha secret) path ≡ root)
  unfolding check_voter
  check_voter_sound rider secret path root h = ground arith

  record_vote_sound :
      (content root pid nullifier : Bytes) (ns : List Bytes) {new_data : Bytes}
      → read_entries content 68 (length ns) ≡ some ns
      → record_vote sha content root pid (length ns) nullifier ≡ ok new_data
      → (contains ns nullifier ≡ false)
        × (new_data ≡ encode_proposal root pid ((length ns + 1) % 2 ^ 32) (ns ++ nullifier ∷ []))
        × (length new_data ≤ data_max_length)
  unfolding record_vote
  record_vote_sound content root pid nullifier ns view h = grind (arith, to_data-some)

  module _ (proposal rider : AccountWithMetadata) (secret : Bytes) (path : MerkleProof) where
    abbrev posts_of : Bytes → List AccountPostState
    posts_of new_data =
        new_post (record proposal.account { content = new_data }) ∷ new_post rider.account ∷ []

    -- `approve` behind the reads of the header.
    abbrev rest_of : Bytes → Bytes → List Bytes → Result Fault (List AccountPostState)
    rest_of root pid ns = check_voter sha rider secret path root >>= λ _.
        record_vote sha proposal.account.content root pid (length ns)
          (vote_nullifier sha secret pid)
        >>= λ d. ok (posts_of d)

    approve-eq :
        (id root pid : Bytes) (ns : List Bytes)
        → Proposal proposal.account.content root pid ns
        → id ≡ pid
        → approve sha proposal rider secret path id ≡ rest_of root pid ns
    unfolding approve
    approve-eq id root pid ns view e = ground arith

    approve_mismatch :
        (id root pid : Bytes) (ns : List Bytes)
        → Proposal proposal.account.content root pid ns
        → id ≢ pid
        → approve sha proposal rider secret path id ≡ err id_mismatch
    unfolding approve
    approve_mismatch id root pid ns view e = ground arith

    -- An approval of a well-formed proposal that succeeds names its id, comes with the voter's live
    -- account, a membership proof and a nullifier that is not yet recorded; it records that nullifier,
    -- within the limit on data, and passes the voter's account through.
    pub approve_sound :
        (id root pid : Bytes) (ns : List Bytes) {posts : List AccountPostState}
        → Proposal proposal.account.content root pid ns
        → approve sha proposal rider secret path id ≡ ok posts
        → (id ≡ pid)
          × IsVote root pid ns rider secret path
          × (posts ≡ posts_of (voted root pid ns secret))
          × (length (voted root pid ns secret) ≤ data_max_length)
    approve_sound id root pid ns {posts} view h = elim (Bytes-discrete id pid) [
      | no ne ↦ (let clash = sym (approve_mismatch id root pid ns view ne) ∙ h in cc)
      | yes e ↦
          let (u, c, h₁) =
            >>=-eq-ok (check_voter sha rider secret path root)
              (λ _. record_vote sha proposal.account.content root pid (length ns) nullifier >>= λ d.
                ok (posts_of d))
              (sym (approve-eq id root pid ns view e) ∙ h) in
          let (d, r, h₂) =
            >>=-eq-ok (record_vote sha proposal.account.content root pid (length ns) nullifier)
              (λ d. ok (posts_of d)) h₁ in
          let (bound, live, enrolled) = check_voter_sound rider secret path root c in
          let (fresh, new, fits) =
            record_vote_sound proposal.account.content root pid nullifier ns view.entries_read r in
          (
            e,
            record {
              rider_bound = bound;
              rider_live = live;
              enrolled = enrolled;
              first_vote = fresh;
            },
            ground arith,
            rw new at fits,
          )
    ]
      where
        nullifier : Bytes
        nullifier = vote_nullifier sha secret pid

  -- An approval of a well-formed proposal under its id succeeds if the vote meets the conditions and
  -- the data with its nullifier is within the limit.
  pub approve_complete :
      (proposal rider : AccountWithMetadata) (secret : Bytes) (path : MerkleProof)
      (root pid : Bytes) (ns : List Bytes)
      → Proposal proposal.account.content root pid ns
      → IsVote root pid ns rider secret path
      → length (voted root pid ns secret) ≤ data_max_length
      → approve sha proposal rider secret path pid
        ≡ ok (
            new_post (record proposal.account { content = voted root pid ns secret })
            ∷ new_post rider.account
            ∷ [])
  unfolding approve check_voter record_vote
  approve_complete proposal rider secret path root pid ns view v room =
      ground (arith, to_data-fits (voted root pid ns secret))
