-- ===== src/Core/Sets.antt =====
-- `HashSet`s of byte strings, as far as the code uses them: membership and the number of members.
use lp_0002_private_multisig.Prelude.{
  ◌⊎◌, inl, inr, ℕ, suc, ◌≤◌, ◌≡◌, ◌≢◌, refl, sym, Bool, true, false, List, [], ◌∷◌, ◌++◌, holds,
  if◌then◌else◌, length, arith,
}
use lp_0002_private_multisig.Core.Bytes.{Bytes, Bytes-discrete}

unfoldable pub contains : List Bytes → Bytes → Bool
contains [] x = false
contains (y ∷ ys) x = if holds (Bytes-discrete y x) then true else contains ys x

-- `xs.iter().collect::<HashSet<_>>().len()`
unfoldable pub n_unique : List Bytes → ℕ
n_unique [] = 0
n_unique (x ∷ xs) = let rest = n_unique xs in if contains xs x then rest else suc rest

-- No entry occurs twice.
abbrev pub Distinct : List Bytes → Type 0
Distinct [] = Unit
Distinct (x ∷ xs) = (contains xs x ≡ false) × Distinct xs

pub contains-append_self : (xs : List Bytes) (y : Bytes) → contains (xs ++ y ∷ []) y ≡ true
unfolding contains
contains-append_self [] y = ground arith
contains-append_self (z ∷ xs) y = ground (arith, contains-append_self xs y)

pub contains-append :
    (xs : List Bytes) (y x : Bytes)
    → contains xs x ≡ false
    → y ≢ x
    → contains (xs ++ y ∷ []) x ≡ false
unfolding contains
contains-append [] y x h ne = ground arith
contains-append (z ∷ xs) y x h ne = ground (arith, contains-append xs y x)

pub contains_ne :
    (xs : List Bytes) (z x : Bytes)
    → contains (z ∷ xs) x ≡ false
    → (z ≢ x) × (contains xs x ≡ false)
unfolding contains
contains_ne xs z x h = ground arith

pub Distinct-append :
    (xs : List Bytes) (y : Bytes) → Distinct xs → contains xs y ≡ false → Distinct (xs ++ y ∷ [])
unfolding contains
Distinct-append [] y d h = (refl, tt)
Distinct-append (x ∷ xs) y d h =
    let (ne, later) = contains_ne xs x y h in
    (contains-append xs y x d.0 (λ e. ne (sym e)), Distinct-append xs y d.1 later)

n_unique-le : (xs : List Bytes) → n_unique xs ≤ length xs
unfolding n_unique
n_unique-le [] = omega arith
n_unique-le (x ∷ xs) = ground (arith, n_unique-le xs)

-- As many members as entries means that no entry repeats, and the other way round.
pub n_unique_sound : (xs : List Bytes) → n_unique xs ≡ length xs → Distinct xs
unfolding n_unique
n_unique_sound [] h = tt
n_unique_sound (x ∷ xs) h = ground (arith, n_unique-le xs, n_unique_sound xs)

pub n_unique_complete : (xs : List Bytes) → Distinct xs → n_unique xs ≡ length xs
unfolding n_unique
n_unique_complete [] h = refl
n_unique_complete (x ∷ xs) h = ground (arith, n_unique_complete xs h.1)

-- Every member of the one is a member of the other.
abbrev pub IsWithin : List Bytes → List Bytes → Type 0
IsWithin xs ys = (x : Bytes) → contains xs x ≡ true → contains ys x ≡ true

pub contains_head : (y : Bytes) (ys : List Bytes) → contains (y ∷ ys) y ≡ true
unfolding contains
contains_head y ys = ground arith

pub contains_tail :
    (y x : Bytes) (ys : List Bytes) → contains ys x ≡ true → contains (y ∷ ys) x ≡ true
unfolding contains
contains_tail y x ys h = ground arith

pub contains-cases :
    (y x : Bytes) (ys : List Bytes) → contains (y ∷ ys) x ≡ true → (y ≡ x) ⊎ (contains ys x ≡ true)
unfolding contains
contains-cases y x ys h = ground arith

pub contains_nil : {A : Type 0} (x : Bytes) → contains [] x ≡ true → A
unfolding contains
contains_nil x h = cc

contains-append_split :
    (xs ys : List Bytes) (x : Bytes)
    → contains (xs ++ ys) x ≡ true
    → (contains xs x ≡ true) ⊎ (contains ys x ≡ true)
unfolding contains
contains-append_split [] ys x h = inr h
contains-append_split (z ∷ xs) ys x h = ground (arith, contains-append_split xs ys x)

-- What is in two lists of which the first has one member at most.
pub IsWithin-cons :
    (xs ys : List Bytes) (y : Bytes) (zs : List Bytes)
    → IsWithin xs (y ∷ [])
    → IsWithin ys zs
    → IsWithin (xs ++ ys) (y ∷ zs)
IsWithin-cons xs ys y zs first rest x h = elim (contains-append_split xs ys x h) [
  | inl left ↦ elim (contains-cases y x [] (first x left)) [
    | inl e ↦ rw (← e) (contains_head y zs)
    | inr none_left ↦ contains_nil x none_left
  ]
  | inr right ↦ contains_tail y x zs (rest x right)
]
