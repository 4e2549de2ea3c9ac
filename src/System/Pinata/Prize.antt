-- ===== src/System/Pinata/Prize.antt =====
-- program_methods/guest/src/bin/pinata.rs: what a solution is worth.
use lp_0002_private_multisig.Prelude.{
  ℕ, ◌+◌, ◌-◌, ◌≤◌, ◌<◌, ◌≡◌, inl, inr, Bool-cases, true, Option, some, [], ◌∷◌, ok, >>=-eq-ok,
  ok-injective, or_err, or_err-eq-some, arith,
}
use lp_0002_private_multisig.Core.Account.{
  ProgramId, Account, AccountWithMetadata, to_data, to_data-some,
}
use lp_0002_private_multisig.Core.Balance.{u128_mod}
use lp_0002_private_multisig.Core.Hash.{Sha256}
use lp_0002_private_multisig.Core.Program.{
  InstructionData, ProgramOutput, authorized, new_post, new_claimed_if_default, new_output,
}
use lp_0002_private_multisig.System.Pinata.{
  not_enough_balance, prize_overflow, data_too_big, prize, Challenge, new_challenge, checked_sub,
  checked_add, validate_solution, next_data, prize_posts, pinata_main,
}

checked_sub-some : (a b : ℕ) {c : ℕ} → checked_sub a b ≡ some c → (b ≤ a) × (c ≡ a - b)
unfolding checked_sub
checked_sub-some a b h = ground arith

checked_add-some : (a b : ℕ) {c : ℕ} → checked_add a b ≡ some c → (c ≡ a + b) × (c < u128_mod)
unfolding checked_add
checked_add-some a b h = ground arith

module _ (sha : Sha256) where
  -- What a solved challenge does to the two accounts.
  pub record IsPaid (c : Challenge) (solution : ℕ) (pinata winner pinata' winner' : Account)
      : Type 0 where
    pub solved : validate_solution sha c solution ≡ true
    pub paid : winner'.balance ≡ winner.balance + prize
    pub conserved : pinata'.balance + winner'.balance ≡ pinata.balance + winner.balance
    pub bounded : winner'.balance < u128_mod
    pub renewed : pinata'.content ≡ next_data sha c

  prize_posts-IsPaid :
      (c : Challenge) (solution : ℕ) (pinata winner : Account) {posts : Account × Account}
      → validate_solution sha c solution ≡ true
      → prize_posts sha c pinata winner ≡ ok posts
      → IsPaid c solution pinata winner posts.0 posts.1
  unfolding prize_posts
  prize_posts-IsPaid c solution pinata winner solved h =
      let (left, el, h₁) =
        >>=-eq-ok (or_err (checked_sub pinata.balance prize) not_enough_balance) _ h in
      let (content, ec, h₂) = >>=-eq-ok (or_err (to_data (next_data sha c)) data_too_big) _ h₁ in
      let (won, ew, h₃) =
        >>=-eq-ok (or_err (checked_add winner.balance prize) prize_overflow) _ h₂ in
      let (enough, rest) =
        checked_sub-some pinata.balance prize
          (or_err-eq-some (checked_sub pinata.balance prize) not_enough_balance el) in
      let (sum, small) =
        checked_add-some winner.balance prize
          (or_err-eq-some (checked_add winner.balance prize) prize_overflow ew) in
      let whole =
        (to_data-some (next_data sha c)
          (or_err-eq-some (to_data (next_data sha c)) data_too_big ec)).0 in
      rw (← ok-injective h₃) (record {
        solved = solved;
        paid = sum;
        conserved = omega (arith, enough, rest, sum);
        bounded = small;
        renewed = whole;
      })

  -- A run of the pinata that has an output has a solution of the pinata's challenge, moves the prize of 150 from the
  -- pinata to the winner without an overflow or a change of their sum, and leaves the next challenge.
  pub pinata_main-IsPaid :
      (self : ProgramId) (caller : Option ProgramId) (words : InstructionData)
      (pinata winner : AccountWithMetadata) (solution : ℕ) {out : ProgramOutput}
      → pinata_main sha self caller words (pinata ∷ winner ∷ []) solution ≡ ok (some out)
      → (c : Challenge) × (pinata' : Account) × (winner' : Account) × (new_challenge
            pinata.account.content
          ≡ ok c)
        × (out
            ≡ new_output self caller words
                (pinata ∷ winner ∷ [])
                (new_claimed_if_default pinata' authorized ∷ new_post winner' ∷ []))
        × IsPaid c solution pinata.account winner.account pinata' winner'
  unfolding pinata_main
  pinata_main-IsPaid self caller words pinata winner solution h =
      let (c, ec, h₁) = >>=-eq-ok (new_challenge pinata.account.content) _ h in
      elim (Bool-cases (validate_solution sha c solution)) [
        | inl y ↦
            (let (posts, ep, h₂) =
                >>=-eq-ok (prize_posts sha c pinata.account winner.account) _ (rw y at h₁) in
              (
                c,
                posts.0,
                posts.1,
                ec,
                (let e = ok-injective h₂ in cc),
                prize_posts-IsPaid c solution pinata.account winner.account y ep,
              ))
        | inr n ↦ (let clash = rw n at h₁ in cc)
      ]
