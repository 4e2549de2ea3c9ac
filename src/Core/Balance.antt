-- ===== src/Core/Balance.antt =====
-- lee/state_machine/core/src/program.rs: `WrappedBalanceSum`, a sum of `u128`s as `lo + hi * 2^128`.
use lp_0002_private_multisig.Prelude.{
  ℕ, ◌+◌, ◌*◌, ◌%◌, ◌^◌, ◌<◌, ◌≡◌, refl, Option, none, some, List, [], ◌∷◌, arith, ltb,
  Option-cases, Bool-cases, inl, inr, if◌then◌else◌, length, All, ℕ_discrete,
}

abbrev pub u128_mod : ℕ
u128_mod = 2 ^ 128

pub record WrappedBalanceSum : Type 0 where
  pub lo : ℕ
  pub hi : ℕ

unfoldable pub WrappedBalanceSum-discrete : Discrete WrappedBalanceSum
unfolding ℕ_discrete
WrappedBalanceSum-discrete = hlevel ℕ_discrete

-- One round: `overflowing_add`, and `checked_add(1)` on the carry.
unfoldable pub add_balance : WrappedBalanceSum → ℕ → Option WrappedBalanceSum
add_balance w balance =
    let lo : ℕ = (w.lo + balance) % u128_mod in
    if ltb (w.lo + balance) u128_mod
    then some (record { lo = lo; hi = w.hi })
    else if ltb (w.hi + 1) u128_mod
    then some (record { lo = lo; hi = w.hi + 1 })
    else none

unfoldable pub add_balances : WrappedBalanceSum → List ℕ → Option WrappedBalanceSum
add_balances w [] = some w
add_balances w (b ∷ bs) = elim (add_balance w b) [ none ↦ none | some w' ↦ add_balances w' bs ]

unfoldable pub from_balances : List ℕ → Option WrappedBalanceSum
from_balances = add_balances (record { lo = 0; hi = 0 })

abbrev pub sum : List ℕ → ℕ
sum [] = 0
sum (b ∷ bs) = b + sum bs

-- The number that a wrapped sum stands for.
abbrev pub value : WrappedBalanceSum → ℕ
value w = w.lo + w.hi * u128_mod

abbrev pub IsU128 : ℕ → Type 0
IsU128 n = n < u128_mod

add_balance_lem :
    (w : WrappedBalanceSum) (b : ℕ) {w' : WrappedBalanceSum}
    → IsU128 w.lo
    → IsU128 b
    → add_balance w b ≡ some w'
    → (value w' ≡ value w + b) × IsU128 w'.lo
unfolding add_balance
add_balance_lem w b hw hb h = ground arith

add_balances_lem :
    (bs : List ℕ) (w : WrappedBalanceSum) {s : WrappedBalanceSum}
    → IsU128 w.lo
    → All IsU128 bs
    → add_balances w bs ≡ some s
    → (value s ≡ value w + sum bs) × IsU128 s.lo
unfolding add_balances
add_balances_lem [] w hw hs h = ground arith
add_balances_lem (b ∷ bs) w {s} hw hs h = elim (Option-cases (add_balance w b)) [
  | inl e ↦ (let gone : none ≡ some s = rw (e, add_balances) at h in cc)
  | inr (w', e) ↦
      let (v, small) = add_balance_lem w b hw hs.0 e in
      let (total, bound) = add_balances_lem bs w' small hs.1 (rw (e, add_balances) at h) in
      (omega arith, bound)
]

-- A wrapped sum of `u128`s stands for their sum, and its low half is a `u128`.
pub from_balances_sound :
    (bs : List ℕ) {s : WrappedBalanceSum}
    → All IsU128 bs
    → from_balances bs ≡ some s
    → (value s ≡ sum bs) × IsU128 s.lo
unfolding from_balances
from_balances_sound bs {s} hs h =
    omega (arith, add_balances_lem bs (record { lo = 0; hi = 0 }) (omega arith) hs h)

add_balances_total :
    (bs : List ℕ) (w : WrappedBalanceSum)
    → IsU128 w.lo
    → All IsU128 bs
    → w.hi + length bs < u128_mod
    → (s : WrappedBalanceSum) × (add_balances w bs ≡ some s)
unfolding add_balances
add_balances_total [] w hw hs small = (w, refl)
add_balances_total (b ∷ bs) w hw hs small = elim (Bool-cases (ltb (w.lo + b) u128_mod)) [
  | inl fits ↦
      (let w' : WrappedBalanceSum = record { lo = (w.lo + b) % u128_mod; hi = w.hi } in
        let (s, e) = add_balances_total bs w' (omega arith) hs.1 (omega arith) in
        let one : add_balance w b ≡ some w' = unfold add_balance in ground arith in
        (s, rw (one, add_balances) e))
  | inr over ↦
      (let w' : WrappedBalanceSum = record { lo = (w.lo + b) % u128_mod; hi = w.hi + 1 } in
        let (s, e) = add_balances_total bs w' (omega arith) hs.1 (omega arith) in
        let one : add_balance w b ≡ some w' = unfold add_balance in ground arith in
        (s, rw (one, add_balances) e))
]

-- Fewer than 2 ^ 128 balances always have a wrapped sum.
pub from_balances_total :
    (bs : List ℕ)
    → All IsU128 bs
    → length bs < u128_mod
    → (s : WrappedBalanceSum) × (from_balances bs ≡ some s)
unfolding from_balances
from_balances_total bs hs small =
    add_balances_total bs (record { lo = 0; hi = 0 }) (omega arith) hs (omega arith)

-- Two wrapped sums with low halves in range are equal when they stand for the same number.
pub eq_of_value : (s t : WrappedBalanceSum) → IsU128 s.lo → IsU128 t.lo → value s ≡ value t → s ≡ t
eq_of_value s t hs ht h = ground arith
