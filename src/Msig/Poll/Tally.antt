-- ===== src/Msig/Poll/Tally.antt =====
-- The count of a proposal is the number of distinct nullifiers of proven members.
use mathlib.Core.List.{append-nil, append_assoc}
use lp_0002_private_multisig.Prelude.{
  ◌+◌, ◌%◌, ◌^◌, ◌≤◌, ◌≡◌, refl, ◌∙◌, true, inl, inr, List, [], ◌∷◌, ◌++◌, arith, length,
  length-append, All, All-append, ok, Result-cases, >>=-eq-ok, or_err,
}
use lp_0002_private_multisig.Core.Bytes.{Bytes}
use lp_0002_private_multisig.Core.Account.{
  Account, AccountWithMetadata, data_max_length, to_data, to_data-some,
}
use lp_0002_private_multisig.Core.Sets.{
  contains, contains-append_self, contains_nil, IsWithin, IsWithin-cons, Distinct, Distinct-append,
}
use lp_0002_private_multisig.Core.Hash.{Sha256}
use lp_0002_private_multisig.Core.Program.{AccountPostState, new_claimed, authorized}
use lp_0002_private_multisig.Msig.Scheme.{
  MerkleProof, IsDigest, member_leaf, vote_nullifier, root_from_path,
}
use lp_0002_private_multisig.Msig.State.{encode_proposal}
use lp_0002_private_multisig.Msig.State.RoundTrip.{
  Proposal, encode_proposal-Proposal, length-encode_proposal,
}
use lp_0002_private_multisig.Msig.Guest.{data_too_big, create_proposal, approve}
use lp_0002_private_multisig.Msig.Guest.Approve.{IsVote, voted, approve_sound}
use lp_0002_private_multisig.Msig.Poll.{Ballot, settle, cast, poll}

module _ (sha : Sha256) where
  open sha use {hash_bytes, length-hash_bytes}

  -- The nullifier belongs to a secret whose leaf has a membership proof for the root.
  pub record IsProven (root pid : Bytes) (nullifier : Bytes) : Type 0 where
    pub secret : Bytes
    pub path : MerkleProof
    pub made : nullifier ≡ vote_nullifier sha secret pid
    pub enrolled : root_from_path sha (member_leaf sha secret) path ≡ root

  -- The content of a proposal whose recorded votes are `ns`.
  pub record IsTally (root pid content : Bytes) (ns : List Bytes) : Type 0 where
    pub view : Proposal content root pid ns
    pub digests : All IsDigest ns
    pub distinct : Distinct ns
    pub proven : All (IsProven root pid) ns

  -- The nullifiers that ballots would leave.
  abbrev pub ballot_nullifiers : Bytes → List Ballot → List Bytes
  ballot_nullifiers pid [] = []
  ballot_nullifiers pid (b ∷ bs) = vote_nullifier sha b.secret pid ∷ ballot_nullifiers pid bs

  vote_nullifier-IsDigest : (s pid : Bytes) → IsDigest (vote_nullifier sha s pid)
  unfolding vote_nullifier
  vote_nullifier-IsDigest s pid = length-hash_bytes _

  voted-IsTally :
      (root pid content : Bytes) (ns : List Bytes) (rider : AccountWithMetadata) (secret : Bytes)
      (path : MerkleProof)
      → IsDigest root
      → IsDigest pid
      → IsTally root pid content ns
      → IsVote sha root pid ns rider secret path
      → length (voted sha root pid ns secret) ≤ data_max_length
      → IsTally root pid (voted sha root pid ns secret) (ns ++ vote_nullifier sha secret pid ∷ [])
  voted-IsTally root pid content ns rider secret path hr hp t v fits =
      let n : Bytes = vote_nullifier sha secret pid in
      let all : All IsDigest (ns ++ n ∷ []) =
        All-append IsDigest ns (n ∷ []) t.digests (vote_nullifier-IsDigest secret pid, tt) in
      let longer : length (ns ++ n ∷ []) ≡ length ns + 1 = length-append ns (n ∷ []) in
      let size =
        length-encode_proposal root pid ((length ns + 1) % 2 ^ 32) (ns ++ n ∷ []) hr hp all in
      let count : (length ns + 1) % 2 ^ 32 ≡ length (ns ++ n ∷ []) = omega (arith, size, longer) in
      record {
        view = rw count (
            encode_proposal-Proposal root pid (ns ++ n ∷ []) hr hp all
              (omega (arith, size, longer)));
        digests = all;
        distinct = Distinct-append ns n t.distinct v.first_vote;
        proven =
            All-append (IsProven root pid) ns (n ∷ []) t.proven
              (record { secret = secret; path = path; made = refl; enrolled = v.enrolled }, tt);
      }

  -- What one `approve` transaction may do to a proposal and its recorded votes.
  record Moved (root pid : Bytes) (b : Ballot) (p p' : AccountWithMetadata) (ns : List Bytes)
      : Type 0 where
    added : List Bytes
    tally : IsTally root pid p'.account.content (ns ++ added)
    at_most_one : length added ≤ 1
    own : IsWithin added (vote_nullifier sha b.secret pid ∷ [])
    owner_kept : p'.account.program_owner ≡ p.account.program_owner
    balance_kept : p'.account.balance ≡ p.account.balance

  module _ (root pid : Bytes) (hr : IsDigest root) (hp : IsDigest pid) where
    cast-Moved :
        (p : AccountWithMetadata) (b : Ballot) (ns : List Bytes)
        → IsTally root pid p.account.content ns
        → Moved root pid b p (cast sha p b) ns
    unfolding cast settle
    cast-Moved p b ns t = elim (Result-cases (approve sha p b.rider b.secret b.path b.id)) [
      | inr (e, h) ↦ rw h (record {
        added = [];
        tally = rw (append-nil ns) t;
        at_most_one = omega arith;
        own = λ x h. contains_nil x h;
        owner_kept = refl;
        balance_kept = refl;
      })
      | inl (posts, h) ↦
          let (same, v, shape, fits) =
            approve_sound sha p b.rider b.secret b.path b.id root pid ns t.view h in
          rw (h, shape)
            (record {
              added = vote_nullifier sha b.secret pid ∷ [];
              tally =
                  voted-IsTally root pid p.account.content ns b.rider b.secret b.path hr hp t v
                    fits;
              at_most_one = omega arith;
              own = λ x h. h;
              owner_kept = refl;
              balance_kept = refl;
            })
    ]

    -- If a proposal with a root and an id of 32 bytes records distinct, proven nullifiers, then after any ballots it
    -- records these, in their places, and behind them at most one for each ballot, each the nullifier of a ballot's
    -- secret; all are distinct and proven and the count is their number. The owner and the balance of the account
    -- do not change.
    pub poll-IsTally :
        (p : AccountWithMetadata) (bs : List Ballot) (ns : List Bytes)
        → IsTally root pid p.account.content ns
        → (added : List Bytes) × IsTally root pid (poll sha p bs).account.content (ns ++ added)
          × (length added ≤ length bs)
          × IsWithin added (ballot_nullifiers pid bs)
          × ((poll sha p bs).account.program_owner ≡ p.account.program_owner)
          × ((poll sha p bs).account.balance ≡ p.account.balance)
    unfolding poll
    poll-IsTally p [] ns t = ([], rw (append-nil ns) t, omega arith, λ x h. h, refl, refl)
    poll-IsTally p (b ∷ bs) ns t =
        let m = cast-Moved p b ns t in
        let (later, t', bound, own, owner, balance) =
          poll-IsTally (cast sha p b) bs (ns ++ m.added) m.tally in
        (
          m.added ++ later,
          rw (← append_assoc ns m.added later) t',
          omega (arith, length-append m.added later, m.at_most_one, bound),
          IsWithin-cons m.added later (vote_nullifier sha b.secret pid) (ballot_nullifiers pid bs)
              m.own own,
          owner ∙ m.owner_kept,
          balance ∙ m.balance_kept,
        )

    -- With a root and an id of 32 bytes, a successful `create_proposal` claims its account with the
    -- authorization of the account, changes only its data, and starts a proposal that has no vote.
    pub create_proposal-IsTally :
        (p : AccountWithMetadata) {posts : List AccountPostState}
        → create_proposal p root pid ≡ ok posts
        → (account : Account) × (posts ≡ new_claimed account authorized ∷ [])
          × IsTally root pid account.content []
          × (account ≡ record p.account { content = account.content })
    unfolding create_proposal
    create_proposal-IsTally p {posts} h =
        let (d, e, h₁) =
          >>=-eq-ok (or_err (to_data (encode_proposal root pid 0 [])) data_too_big)
            (λ d. ok (new_claimed (record p.account { content = d }) authorized ∷ [])) h in
        let whole : d ≡ encode_proposal root pid 0 [] = grind (arith, to_data-some) in
        let start = encode_proposal-Proposal root pid [] hr hp tt (omega arith) in
        (
          record p.account { content = d },
          ground arith,
          record { view = rw whole start; digests = tt; distinct = tt; proven = tt },
          refl,
        )

  -- Once a secret's approval of a proposal, which has a root and an id of 32 bytes and counts
  -- distinct, proven nullifiers, has succeeded and is recorded, no approval by the same secret
  -- succeeds on it, with whatever rider, path and id.
  pub approve_once :
      (p rider rider' : AccountWithMetadata) (secret : Bytes) (path path' : MerkleProof)
      (id id' root pid : Bytes) (ns : List Bytes) {posts : List AccountPostState}
      → IsDigest root
      → IsDigest pid
      → IsTally root pid p.account.content ns
      → approve sha p rider secret path id ≡ ok posts
      → ¬ (
          (posts' : List AccountPostState) × (approve sha
              (settle p (ok posts))
              rider'
              secret
              path'
              id'
            ≡ ok posts'))
  unfolding settle contains
  approve_once p rider rider' secret path path' id id' root pid ns hr hp t h (posts', h') =
      let (same, v, shape, fits) = approve_sound sha p rider secret path id root pid ns t.view h in
      let next = voted-IsTally root pid p.account.content ns rider secret path hr hp t v fits in
      let n : Bytes = vote_nullifier sha secret pid in
      let (same', v', shape', fits') =
        approve_sound sha
          (record p { account = record p.account { content = voted sha root pid ns secret } })
          rider' secret path' id' root pid (ns ++ n ∷ []) next.view (rw shape at h') in
      let there : contains (ns ++ n ∷ []) n ≡ true = contains-append_self ns n in
      let gone = v'.first_vote in cc
