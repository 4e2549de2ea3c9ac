-- ===== src/Lee/Transition/Total.antt =====
-- The sum of all public balances across transitions.
use mathlib.Core.Option.{some-injective}
use lp_0002_private_multisig.Prelude.{
  ℕ, ◌+◌, ◌≡◌, ◌≢◌, refl, sym, ◌∙◌, false, some, List, [], ◌∷◌, arith, All, ok,
}
use lp_0002_private_multisig.Core.Account.{AccountId, Account}
use lp_0002_private_multisig.Core.Hash.{Sha256}
use lp_0002_private_multisig.Core.Sets.{Distinct, contains, contains_ne}
use lp_0002_private_multisig.Lee.Accounts.{
  Accounts, lookup, insert, get_account_by_id, apply_diff, bump_nonces, keys, lookup-insert_ne,
}
use lp_0002_private_multisig.Lee.Public.{Vm, Transaction}
use lp_0002_private_multisig.Lee.Public.Conserve.{from_public_transaction-IsFair}
use lp_0002_private_multisig.Lee.Public.Diff.{written, replaced}
use lp_0002_private_multisig.Lee.Transition.{transition_from_public_transaction}
use lp_0002_private_multisig.Lee.Transition.Nonces.{bump_nonces-step}
use lp_0002_private_multisig.Lee.Transition.Replay.{Reaches, here, step, transition_parts}

balance_at : Accounts → AccountId → ℕ
balance_at m k = (get_account_by_id m k).balance

written-insert :
    (k : AccountId) (a : Account) (m : Accounts)
    → written (insert k a m) + balance_at m k ≡ written m + a.balance
unfolding insert balance_at get_account_by_id lookup
written-insert k a [] = ground arith
written-insert k a ((j, b) ∷ m) = ground (arith, written-insert k a m)

balance_at-insert_ne :
    (k j : AccountId) (a : Account) (m : Accounts)
    → k ≢ j
    → balance_at (insert k a m) j ≡ balance_at m j
unfolding balance_at get_account_by_id
balance_at-insert_ne k j a m ne =
    rw (lookup-insert_ne k j a m ne, balance_at, get_account_by_id) refl

module _ (sha : Sha256) (state : Accounts) where
  abbrev Agrees : Accounts → AccountId → Type 0
  Agrees m k = balance_at m k ≡ balance_at state k

  Agrees-insert :
      (k : AccountId) (a : Account) (m : Accounts) (ks : List AccountId)
      → contains ks k ≡ false
      → All (Agrees m) ks
      → All (Agrees (insert k a m)) ks
  Agrees-insert k a m [] fresh h = tt
  Agrees-insert k a m (j ∷ ks) fresh h =
      let (ne, later) = contains_ne ks j k fresh in
      (balance_at-insert_ne k j a m (λ e. ne (sym e)) ∙ h.0, Agrees-insert k a m ks later h.1)

  -- A diff without a key twice takes away what it replaces and adds what it writes.
  written-apply_diff :
      (m diff : Accounts)
      → Distinct (keys diff)
      → All (Agrees m) (keys diff)
      → written (apply_diff m diff) + replaced sha state diff ≡ written m + written diff
  unfolding apply_diff
  written-apply_diff m [] d h = omega arith
  written-apply_diff m ((k, a) ∷ diff) d h =
      let read : balance_at state k ≡ (get_account_by_id state k).balance =
        unfold balance_at in refl in
      omega (
        arith,
        h.0,
        read,
        written-insert k a m,
        written-apply_diff (insert k a m) diff d.1 (Agrees-insert k a m (keys diff) d.0 h.1),
      )

  All-Agrees : (ks : List AccountId) → All (Agrees state) ks
  All-Agrees [] = tt
  All-Agrees (k ∷ ks) = (refl, All-Agrees ks)

written-bump_nonces :
    (m : Accounts) (signers : List AccountId) {m' : Accounts}
    → bump_nonces m signers ≡ some m'
    → written m' ≡ written m
written-bump_nonces m [] h = unfold bump_nonces in (rw (some-injective _ _ h) refl)
written-bump_nonces m (s ∷ signers) h =
    let (a, up, kept, rest) = bump_nonces-step m s signers h in
    let read : balance_at m s ≡ (get_account_by_id m s).balance = unfold balance_at in refl in
    omega (arith, kept, read, written-insert s a m, written-bump_nonces (insert s a m) signers rest)

written-transition :
    (sha : Sha256) (vm : Vm) (block_id timestamp : ℕ) (tx : Transaction) (state : Accounts)
    {state' : Accounts}
    → transition_from_public_transaction sha vm state block_id timestamp tx ≡ ok state'
    → written state' ≡ written state
written-transition sha vm block_id timestamp tx state h =
    let (diff, made, bumped, same) = transition_parts sha vm block_id timestamp state tx h in
    let fair = from_public_transaction-IsFair sha state vm block_id timestamp tx made in
    omega (
      arith,
      fair.balanced,
      written-apply_diff sha state state diff fair.unique (All-Agrees sha state (keys diff)),
      written-bump_nonces (apply_diff state diff) tx.signer_account_ids bumped,
    )

-- The native balances of all public accounts add up to the same number in every state that public
-- transactions lead to, whatever programs they run.
pub Reaches-written :
    (sha : Sha256) {state state' : Accounts}
    → Reaches sha state state'
    → written state' ≡ written state
Reaches-written sha (here state) = refl
Reaches-written sha (step vm block_id timestamp tx state state' state'' h rest) =
    Reaches-written sha rest ∙ written-transition sha vm block_id timestamp tx state h
