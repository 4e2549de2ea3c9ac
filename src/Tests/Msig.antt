-- ===== src/Tests/Msig.antt =====
-- One member, one proposal, one vote and its release, with stand-ins for SHA-256.
use lp_0002_private_multisig.Prelude.{
  ◌≤◌, ◌≡◌, refl, ap, true, some, List, [], ◌∷◌, ◌++◌, arith, length, All, replicate, resize,
  length-resize, false, ok,
}
use lp_0002_private_multisig.Core.Bytes.{Bytes}
use lp_0002_private_multisig.Core.Account.{
  Account, AccountWithMetadata, default_account, data_max_length, to_data,
}
use lp_0002_private_multisig.Core.Hash.{Sha256}
use lp_0002_private_multisig.Core.Sets.{contains}
use lp_0002_private_multisig.Core.Program.{
  ChainedCall, InstructionData, AccountPostState, new_claimed, new_post, authorized,
}
use lp_0002_private_multisig.AuthTransfer.Types as Transfer
use lp_0002_private_multisig.Msig.Scheme.{
  MerkleProof, IsDigest, empty_leaf, hash_pair, member_leaf, vote_nullifier, merkle_root,
  merkle_path, root_from_path,
}
use lp_0002_private_multisig.Msig.State.{
  has_header, header_count, encode_proposal, encode_registry, field,
}
use lp_0002_private_multisig.Msig.State.RoundTrip.{
  Proposal, Registry, encode_proposal-Proposal, encode_registry-Registry,
}
use lp_0002_private_multisig.Msig.Tree.Complete.{root_from_path-merkle_path}
use lp_0002_private_multisig.Msig.Tree.Deep.{root_from_path_deep}
use lp_0002_private_multisig.Msig.Guest.{
  voting_account, approve, enrolled, create_proposal, execute,
}
use lp_0002_private_multisig.AuthTransfer.Guest.{run}
use lp_0002_private_multisig.Tests.Vault.{serde}
use lp_0002_private_multisig.Msig.Guest.Payout.{paid_out, execute-run}
use lp_0002_private_multisig.Msig.Guest.Approve.{IsVote, voted, approve_sound, approve_complete}
use lp_0002_private_multisig.Msig.Guest.Enroll.{merkle_root-append_full}
use lp_0002_private_multisig.Msig.Guest.Execute.{release, execute_complete}
use lp_0002_private_multisig.Msig.Poll.{Ballot, cast, settle, poll}
use lp_0002_private_multisig.Msig.Poll.Tally.{
  IsTally, ballot_nullifiers, poll-IsTally, approve_once,
}
use lp_0002_private_multisig.Core.Sets.{IsWithin}
use lp_0002_private_multisig.Msig.Poll.Release.{execute-poll}

-- The first 32 bytes of a message: quick to compute, and enough to run the program.
abbrev cut : Sha256
cut = record { hash_bytes = resize 32 0; length-hash_bytes = length-resize 32 0 }

abbrev secret : Bytes
secret = replicate 32 167

abbrev pid : Bytes
pid = replicate 32 17

abbrev leaves : List Bytes
leaves = member_leaf cut secret ∷ []

abbrev root : Bytes
root = merkle_root cut leaves

abbrev path : MerkleProof
path = (0, replicate 5 empty_leaf)

path_built : merkle_path cut leaves 0 ≡ some path
unfolding merkle_path member_leaf
path_built = refl

path_leads : root_from_path cut (member_leaf cut secret) path ≡ root
unfolding merkle_root root_from_path member_leaf
path_leads = refl

root_digest : IsDigest root
unfolding merkle_root member_leaf
root_digest = refl

-- A live voting account: owned by some program.
abbrev rider : AccountWithMetadata
rider = record {
  account = record default_account { program_owner = replicate 8 1 };
  is_authorized = false;
  account_id = voting_account cut secret;
}

abbrev fresh : AccountWithMetadata
fresh = record { account = default_account; is_authorized = true; account_id = replicate 32 2 }

abbrev proposal : AccountWithMetadata
proposal = record fresh {
  account = record default_account { content = encode_proposal root pid 0 [] };
}

start : Proposal proposal.account.content root pid []
start = encode_proposal-Proposal root pid [] root_digest refl tt (omega arith)

first : IsTally cut root pid proposal.account.content []
first = record { view = start; digests = tt; distinct = tt; proven = tt }

vote : IsVote cut root pid [] rider secret path
unfolding contains
vote = record {
  rider_bound = refl;
  rider_live = λ e. cc (ap (λ (a : Account). a.program_owner) e);
  enrolled = path_leads;
  first_vote = refl;
}

abbrev posts : List AccountPostState
posts =
    new_post (record proposal.account { content = voted cut root pid [] secret })
    ∷ new_post rider.account
    ∷ []

voted_fits : length (voted cut root pid [] secret) ≤ data_max_length
unfolding encode_proposal vote_nullifier merkle_root member_leaf
voted_fits = omega arith

accepted : approve cut proposal rider secret path pid ≡ ok posts
accepted = approve_complete cut proposal rider secret path root pid [] start vote voted_fits

approve_complete_example : approve cut proposal rider secret path pid ≡ ok posts
approve_complete_example =
    approve_complete cut proposal rider secret path root pid [] start vote voted_fits

approve_sound_example :
    (pid ≡ pid)
    × IsVote cut root pid [] rider secret path
    × (posts ≡ posts)
    × (length (voted cut root pid [] secret) ≤ data_max_length)
approve_sound_example = approve_sound cut proposal rider secret path pid root pid [] start accepted

approve_once_example : ¬ (
    (posts' : List AccountPostState) × (approve cut
        (settle proposal (ok posts))
        rider
        secret
        path
        pid
      ≡ ok posts'))
approve_once_example =
    approve_once cut proposal rider rider secret path path pid pid root pid [] root_digest refl
      first accepted

ballot : Ballot
ballot = record { rider = rider; secret = secret; path = path; id = pid }

poll-IsTally_example :
    (added : List Bytes) × IsTally cut root pid
      (poll cut proposal (ballot ∷ ballot ∷ [])).account.content
      added
    × (length added ≤ 2)
    × IsWithin added (ballot_nullifiers cut pid (ballot ∷ ballot ∷ []))
    × ((poll cut proposal (ballot ∷ ballot ∷ [])).account.program_owner ≡ replicate 8 0)
    × ((poll cut proposal (ballot ∷ ballot ∷ [])).account.balance ≡ 0)
poll-IsTally_example =
    poll-IsTally cut root pid root_digest refl proposal (ballot ∷ ballot ∷ []) [] first

created : create_proposal fresh root pid ≡ ok (new_claimed proposal.account authorized ∷ [])
unfolding create_proposal to_data encode_proposal merkle_root member_leaf
created = refl

abbrev to_vec : Transfer.Instruction → InstructionData
to_vec = serde.to_vec

abbrev treasury : AccountWithMetadata
treasury = record {
  account = record default_account { program_owner = replicate 8 3; balance = 500 };
  is_authorized = false;
  account_id = replicate 32 3;
}

abbrev recipient : AccountWithMetadata
recipient = record { account = default_account; is_authorized = false; account_id = replicate 32 4 }

-- The proposal after the vote, as the first post state has it.
abbrev polled : AccountWithMetadata
polled = poll cut proposal (ballot ∷ [])

polled_content : polled.account.content ≡ voted cut root pid [] secret
unfolding poll cast settle ballot
polled_content = rw accepted

polled_size : has_header 68 polled.account.content ≡ true
polled_size =
    rw polled_content
      (unfold has_header encode_proposal vote_nullifier merkle_root member_leaf in refl)

polled_count : header_count polled.account.content 64 68 ≡ 1
polled_count =
    rw polled_content
      (unfold header_count field encode_proposal vote_nullifier merkle_root member_leaf in refl)

executed :
    execute to_vec polled treasury recipient 1 pid
    ≡ ok (release to_vec polled treasury recipient 1 pid)
executed =
    execute_complete to_vec polled treasury recipient 1 pid polled_size
      (omega (arith, polled_count))

execute-poll_example :
    (votes : List Bytes) × IsTally cut root pid polled.account.content votes
    × (1 ≤ length votes)
    × (length votes ≤ 1)
    × IsWithin votes (ballot_nullifiers cut pid (ballot ∷ []))
    × (release to_vec polled treasury recipient 1 pid
        ≡ release to_vec polled treasury recipient 1 pid)
execute-poll_example =
    execute-poll cut to_vec fresh treasury recipient root pid pid proposal.account (ballot ∷ []) 1
      root_digest refl created executed

leaves_digests : All IsDigest leaves
unfolding member_leaf
leaves_digests = (refl, tt)

pair_digests : All IsDigest (hash_pair cut (member_leaf cut secret) (member_leaf cut pid) ∷ [])
unfolding hash_pair
pair_digests = (length-resize 32 0 _, tt)

root_from_path-merkle_path_example :
    (proof : MerkleProof) × (merkle_path cut leaves 0 ≡ some proof)
    × (proof.0 ≡ 0)
    × (length proof.1 ≡ 5)
    × All IsDigest proof.1
    × (root_from_path cut (member_leaf cut secret) proof ≡ root)
root_from_path-merkle_path_example =
    root_from_path-merkle_path cut leaves 0 (omega arith) leaves_digests

root_from_path_deep_example :
    (p q : MerkleProof) × (length p.1 ≡ 6)
    × (length q.1 ≡ 6)
    × (root_from_path cut (member_leaf cut secret) p
        ≡ merkle_root cut (hash_pair cut (member_leaf cut secret) (member_leaf cut pid) ∷ []))
    × (root_from_path cut (member_leaf cut pid) q
        ≡ merkle_root cut (hash_pair cut (member_leaf cut secret) (member_leaf cut pid) ∷ []))
root_from_path_deep_example =
    root_from_path_deep cut (hash_pair cut (member_leaf cut secret) (member_leaf cut pid) ∷ []) 0
      secret pid (omega arith) pair_digests refl

merkle_root-append_full_example :
    merkle_root cut (replicate 32 secret ++ pid ∷ []) ≡ merkle_root cut (replicate 32 secret)
merkle_root-append_full_example =
    merkle_root-append_full cut (replicate 32 secret) (pid ∷ []) (omega arith)

encode_proposal-Proposal_example :
    Proposal (encode_proposal root pid 1 (pid ∷ [])) root pid (pid ∷ [])
encode_proposal-Proposal_example =
    encode_proposal-Proposal root pid (pid ∷ []) root_digest refl (refl, tt) (omega arith)

encode_registry-Registry_example :
    Registry (encode_registry root 1 (secret ∷ [])) root (secret ∷ [])
encode_registry-Registry_example =
    encode_registry-Registry root (secret ∷ []) root_digest (refl, tt) (omega arith)

execute-run_example :
    (call : ChainedCall) × (instruction : Transfer.Instruction) × ((release serde.to_vec polled
        treasury recipient 1 pid).1
      ≡ call ∷ [])
    × (call.program_id ≡ replicate 8 3)
    × (call.pda_seeds ≡ pid ∷ [])
    × (serde.from_vec call.instruction_data ≡ some instruction)
    × (run instruction call.pre_states ≡ ok (paid_out treasury recipient))
execute-run_example = execute-run serde polled treasury recipient 1 pid executed (omega arith)
