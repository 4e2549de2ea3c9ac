-- ===== src/Lee/Accounts.antt =====
-- lee/state_machine/src/state.rs: the map from account ids to accounts, and its update by a diff.
use lp_0002_private_multisig.Prelude.{
  ◌+◌, ◌≡◌, ◌≢◌, refl, false, Option, none, some, List, [], ◌∷◌, arith, ltb, if◌then◌else◌,
}
use lp_0002_private_multisig.Core.Bytes.{Bytes-discrete}
use lp_0002_private_multisig.Core.Account.{AccountId, Account, default_account}
use lp_0002_private_multisig.Core.Sets.{contains, Distinct}
use lp_0002_private_multisig.Core.Balance.{u128_mod}

-- `HashMap<AccountId, Account>`
abbrev pub Accounts : Type 0
Accounts = List (AccountId × Account)

unfoldable pub lookup : AccountId → Accounts → Option Account
lookup k [] = none
lookup k ((j, a) ∷ m) = elim (Bytes-discrete k j) [ yes p ↦ some a | no p ↦ lookup k m ]

unfoldable pub insert : AccountId → Account → Accounts → Accounts
insert k a [] = (k, a) ∷ []
insert k a ((j, b) ∷ m) = elim (Bytes-discrete k j) [
  | yes p ↦ (k, a) ∷ m
  | no p ↦ (j, b) ∷ insert k a m
]

abbrev pub or_else : Option Account → Account → Account
or_else none d = d
or_else (some a) d = a

-- `get_account_by_id`
unfoldable pub get_account_by_id : Accounts → AccountId → Account
get_account_by_id m k = or_else (lookup k m) default_account

-- `public_account_nonce_increment`, which panics at the end of the `u128` range.
unfoldable pub nonce_increment : Account → Option Account
nonce_increment a =
    if ltb (a.nonce + 1) u128_mod then some (record a { nonce = a.nonce + 1 }) else none

unfoldable pub apply_diff : Accounts → Accounts → Accounts
apply_diff public_state [] = public_state
apply_diff public_state ((k, a) ∷ diff) = apply_diff (insert k a public_state) diff

-- The loop over the signers.
unfoldable pub bump_nonces : Accounts → List AccountId → Option Accounts
bump_nonces public_state [] = some public_state
bump_nonces public_state (s ∷ signers) = elim (nonce_increment (get_account_by_id public_state s)) [
  | none ↦ none
  | some a ↦ bump_nonces (insert s a public_state) signers
]

pub lookup-insert_self :
    (k : AccountId) (a : Account) (m : Accounts) → lookup k (insert k a m) ≡ some a
unfolding lookup insert
lookup-insert_self k a [] = ground arith
lookup-insert_self k a ((j, b) ∷ m) = ground (arith, lookup-insert_self k a m)

pub lookup-insert_ne :
    (k j : AccountId) (a : Account) (m : Accounts) → k ≢ j → lookup j (insert k a m) ≡ lookup j m
unfolding lookup insert
lookup-insert_ne k j a [] h = ground arith
lookup-insert_ne k j a ((i, b) ∷ m) h = ground (arith, lookup-insert_ne k j a m h)

abbrev pub keys : Accounts → List AccountId
keys [] = []
keys ((k, a) ∷ m) = k ∷ keys m

pub contains-keys-insert :
    (k j : AccountId) (a : Account) (m : Accounts)
    → k ≢ j
    → contains (keys m) j ≡ false
    → contains (keys (insert k a m)) j ≡ false
unfolding insert contains
contains-keys-insert k j a [] ne h = ground arith
contains-keys-insert k j a ((i, b) ∷ m) ne h = ground (arith, contains-keys-insert k j a m)

-- An insertion does not list a key twice.
pub keys-insert-Distinct :
    (k : AccountId) (a : Account) (m : Accounts)
    → Distinct (keys m)
    → Distinct (keys (insert k a m))
unfolding insert
keys-insert-Distinct k a [] d = (unfold contains in refl, tt)
keys-insert-Distinct k a ((j, b) ∷ m) d =
    elim (Bytes-discrete k j)
      as (λ e. Distinct (keys (elim e [ yes p ↦ (k, a) ∷ m | no p ↦ (j, b) ∷ insert k a m ]))) [
        | yes p ↦ (rw p d.0, d.1)
        | no p ↦ (contains-keys-insert k j a m p d.0, keys-insert-Distinct k a m d.1)
      ]
