-- ===== src/Lee/Public/Diff.antt =====
-- What the loops of `from_public_transaction` do to the diff.
use lp_0002_private_multisig.Prelude.{
  ℕ, ◌+◌, ◌≡◌, ◌≢◌, refl, sym, ◌∙◌, false, Option, List, [], ◌∷◌, arith, All, ok, ◌>>=◌, >>=-eq-ok,
  ok-injective, ap,
}
use lp_0002_private_multisig.Core.Bytes.{Bytes, Bytes-discrete}
use lp_0002_private_multisig.Core.Account.{
  ProgramId, AccountId, Account, AccountWithMetadata, default_program_id,
}
use lp_0002_private_multisig.Core.Sets.{Distinct, contains, contains_ne}
use lp_0002_private_multisig.Core.Hash.{Sha256}
use lp_0002_private_multisig.Core.Balance.{sum}
use lp_0002_private_multisig.Core.Program.{Claim, AccountPostState}
use lp_0002_private_multisig.Core.Validate.{ids, pre_balances, post_balances}
use lp_0002_private_multisig.Core.Validate.Rules.{IsAllowed, AllAllowed}
use lp_0002_private_multisig.Lee.Accounts.{
  Accounts, lookup, insert, get_account_by_id, lookup-insert_ne, keys, keys-insert-Distinct,
}
use lp_0002_private_multisig.Lee.Public.{
  CallerData, view, check_pres, claim_post, check_claim, claim_posts, update_diff,
}

-- The balances that a diff writes.
abbrev pub written : Accounts → ℕ
written [] = 0
written ((k, a) ∷ diff) = a.balance + written diff

module _ (sha : Sha256) (state : Accounts) where
  -- The balances that a diff replaces.
  abbrev pub replaced : Accounts → ℕ
  replaced [] = 0
  replaced ((k, a) ∷ diff) = (get_account_by_id state k).balance + replaced diff

  insert_balance :
      (k : AccountId) (a : Account) (diff : Accounts)
      → written (insert k a diff) + replaced diff + (view sha state diff k).balance
        ≡ written diff + replaced (insert k a diff) + a.balance
  unfolding insert view lookup
  insert_balance k a [] = ground arith
  insert_balance k a ((j, b) ∷ diff) = ground (arith, insert_balance k a diff)

  -- An account that may stand for `k` in a diff: with the nonce of the state, and with its owner,
  -- unless nobody owned it.
  pub record Keeps (k : AccountId) (a : Account) : Type 0 where
    pub nonce_kept : a.nonce ≡ (get_account_by_id state k).nonce
    pub owner_kept :
        (get_account_by_id state k).program_owner ≢ default_program_id
        → a.program_owner ≡ (get_account_by_id state k).program_owner

  abbrev pub AllKept : Accounts → Type 0
  AllKept [] = Unit
  AllKept ((k, a) ∷ diff) = Keeps k a × AllKept diff

  insert-AllKept :
      (k : AccountId) (a : Account) (diff : Accounts)
      → Keeps k a
      → AllKept diff
      → AllKept (insert k a diff)
  unfolding insert
  insert-AllKept k a [] h hs = (h, tt)
  insert-AllKept k a ((j, b) ∷ diff) h hs =
      elim (Bytes-discrete k j)
        as (λ d. AllKept (elim d [ yes p ↦ (k, a) ∷ diff | no p ↦ (j, b) ∷ insert k a diff ])) [
          | yes p ↦ (h, hs.1)
          | no p ↦ (hs.0, insert-AllKept k a diff h hs.1)
        ]

  view-Keeps : (k : AccountId) (diff : Accounts) → AllKept diff → Keeps k (view sha state diff k)
  unfolding view lookup
  view-Keeps k [] h = record { nonce_kept = refl; owner_kept = λ n. refl }
  view-Keeps k ((j, b) ∷ diff) h = elim (Bytes-discrete k j) [
    | yes p ↦ rw p (ground arith)
    | no p ↦ (let rest = view-Keeps k diff h.1 in ground arith)
  ]

  abbrev pub Matches : Accounts → AccountWithMetadata → Type 0
  Matches diff pre = pre.account ≡ view sha state diff pre.account_id

  pub check_pres_sound :
      (diff : Accounts) (caller : CallerData) (seeds : List Bytes) (pres : List AccountWithMetadata)
      {u : Unit {0}}
      → check_pres sha state diff caller seeds pres ≡ ok u
      → All (Matches diff) pres
  unfolding check_pres
  check_pres_sound diff caller seeds [] h = tt
  check_pres_sound diff caller seeds (pre ∷ pres) h = grind (
    arith,
    λ (e : check_pres sha state diff caller seeds pres ≡ ok tt).
        check_pres_sound diff caller seeds pres e,
  )

  -- What the claims leave of a post-state: its balance and nonce, and its owner unless that is new.
  abbrev pub AllSettled : List AccountWithMetadata → List Account → Type 0
  AllSettled [] [] = Unit
  AllSettled [] (a ∷ as') = ⊥
  AllSettled (p ∷ ps) [] = ⊥
  AllSettled (p ∷ ps) (a ∷ as') =
      (a.nonce ≡ p.account.nonce)
      × (p.account.program_owner ≢ default_program_id → a.program_owner ≡ p.account.program_owner)
      × AllSettled ps as'

  abbrev pub total : List Account → ℕ
  total [] = 0
  total (a ∷ rest) = a.balance + total rest

  claim_post_sound :
      (program : ProgramId) (pre : AccountWithMetadata) (post : Account) (claim : Option Claim)
      {a : Account}
      → IsAllowed program pre.account post
      → claim_post sha state program pre post claim ≡ ok a
      → (a.nonce ≡ pre.account.nonce)
        × (pre.account.program_owner ≢ default_program_id
            → a.program_owner ≡ pre.account.program_owner)
        × (a.balance ≡ post.balance)
  unfolding claim_post check_claim
  claim_post_sound program pre post claim w h = ground arith

  pub claim_posts_sound :
      (program : ProgramId) (pres : List AccountWithMetadata) (posts : List AccountPostState)
      {accounts : List Account}
      → AllAllowed program pres posts
      → claim_posts sha state program pres posts ≡ ok accounts
      → AllSettled pres accounts × (total accounts ≡ sum (post_balances posts))
  unfolding claim_posts
  claim_posts_sound program [] [] w h = rw (← ok-injective h) (tt, refl)
  claim_posts_sound program [] (post ∷ posts) w h = absurd w
  claim_posts_sound program (pre ∷ pres) [] w h = absurd w
  claim_posts_sound program (pre ∷ pres) (post ∷ posts) w h =
      let (a, e, h₁) =
        >>=-eq-ok (claim_post sha state program pre post.account post.claim)
          (λ a. claim_posts sha state program pres posts >>= λ rest. ok (a ∷ rest)) h in
      let (rest, f, h₂) =
        >>=-eq-ok (claim_posts sha state program pres posts) (λ rest. ok (a ∷ rest)) h₁ in
      let (nonce, owner, balance) = claim_post_sound program pre post.account post.claim w.0 e in
      let (settled, sums) = claim_posts_sound program pres posts w.1 f in
      rw (← ok-injective h₂) ((nonce, owner, settled), omega arith)

  view-insert_ne :
      (k j : AccountId) (a : Account) (diff : Accounts)
      → k ≢ j
      → view sha state (insert k a diff) j ≡ view sha state diff j
  unfolding view
  view-insert_ne k j a diff ne = ground (arith, lookup-insert_ne k j a diff)

  Matches-insert :
      (k : AccountId) (a : Account) (diff : Accounts) (pres : List AccountWithMetadata)
      → contains (ids pres) k ≡ false
      → All (Matches diff) pres
      → All (Matches (insert k a diff)) pres
  Matches-insert k a diff [] c h = tt
  Matches-insert k a diff (pre ∷ pres) c h =
      let (ne, later) = contains_ne (ids pres) pre.account_id k c in
      (
        h.0 ∙ sym (view-insert_ne k pre.account_id a diff (λ e. ne (sym e))),
        Matches-insert k a diff pres later h.1,
      )

  -- What a diff has at any time.
  pub record IsFair (diff : Accounts) : Type 0 where
    pub balanced : written diff ≡ replaced diff
    pub kept : AllKept diff
    pub unique : Distinct (keys diff)

  pub update_diff-kept :
      (diff : Accounts) (pres : List AccountWithMetadata) (accounts : List Account)
      → Distinct (ids pres)
      → All (Matches diff) pres
      → AllSettled pres accounts
      → AllKept diff
      → AllKept (update_diff sha state diff pres accounts)
        × (written (update_diff sha state diff pres accounts)
              + replaced diff
              + sum (pre_balances pres)
            ≡ written diff + replaced (update_diff sha state diff pres accounts) + total accounts)
  unfolding update_diff
  update_diff-kept diff [] [] d m s k = (k, omega arith)
  update_diff-kept diff [] (a ∷ rest) d m s k = absurd s
  update_diff-kept diff (pre ∷ pres) [] d m s k = absurd s
  update_diff-kept diff (pre ∷ pres) (a ∷ rest) d m s k =
      let id : AccountId = pre.account_id in
      let seen = view-Keeps id diff k in
      let same : pre.account ≡ view sha state diff id = m.0 in
      let keeps : Keeps id a = record {
        nonce_kept = s.0 ∙ ap (λ (x : Account). x.nonce) same ∙ seen.nonce_kept;
        owner_kept = λ owned.
            let back = ap (λ (x : Account). x.program_owner) same ∙ seen.owner_kept owned in
            s.1 (λ e. owned (sym back ∙ e)) ∙ back;
      } in
      let (kept, sums) =
        update_diff-kept (insert id a diff) pres rest d.1 (Matches-insert id a diff pres d.0 m.1)
          s.2 (insert-AllKept id a diff keeps k) in
      let step = insert_balance id a diff in
      let read : pre.account.balance ≡ (view sha state diff id).balance =
        ap (λ (x : Account). x.balance) same in
      (kept, omega arith)

  pub update_diff-Distinct :
      (diff : Accounts) (pres : List AccountWithMetadata) (accounts : List Account)
      → Distinct (keys diff)
      → Distinct (keys (update_diff sha state diff pres accounts))
  unfolding update_diff
  update_diff-Distinct diff [] accounts d = d
  update_diff-Distinct diff (pre ∷ pres) [] d = d
  update_diff-Distinct diff (pre ∷ pres) (a ∷ rest) d =
      update_diff-Distinct (insert pre.account_id a diff) pres rest
        (keys-insert-Distinct pre.account_id a diff d)
