-- ===== src/System/Clock/Ticks.antt =====
-- program_methods/guest/src/bin/clock.rs: what the three clocks show, block after block.
use mathlib.Core.Option.{some-injective}
use lp_0002_private_multisig.Prelude.{
  ℕ, ◌+◌, ◌-◌, ◌%◌, ◌^◌, ◌<◌, ◌==◌, ◌≡◌, inl, inr, Bool-cases, refl, sym, ◌∙◌, ap, true, false,
  some, List, [], ◌∷◌, ok, ◌>>=◌, >>=-eq-ok, ok-injective, or_err, or_err-eq-some, arith,
}
use lp_0002_private_multisig.Core.Bytes.{Bytes}
use lp_0002_private_multisig.Core.Account.{Account, to_data, to_data-some}
use lp_0002_private_multisig.Core.Program.{AccountPostState, new_post}
use lp_0002_private_multisig.System.Clock.{
  ClockAccountData, ClockBorsh, not_clock_data, data_too_big, update_if_multiple, next_block_id,
  tick,
}

-- The latest multiple of `divisor` that is not above `n`.
abbrev pub latest : ℕ → ℕ → ℕ
latest divisor n = n - n % divisor

next_block_id-ok : (n : ℕ) {m : ℕ} → next_block_id n ≡ ok m → (m ≡ n + 1) × (m < 2 ^ 64)
unfolding next_block_id
next_block_id-ok n h = ground arith

module _ (borsh : ClockBorsh) where
  open borsh use {to_bytes, from_bytes, from_bytes-to_bytes}

  -- The account shows a block id.
  abbrev pub Shows : Account → ℕ → Type 0
  Shows a block_id =
      (c : ClockAccountData) × (from_bytes a.content ≡ some c) × (c.block_id ≡ block_id)

  -- Three accounts that show the block, the latest tenth block and the latest fiftieth.
  pub record IsClock (a_01 a_10 a_50 : Account) (block_id : ℕ) : Type 0 where
    pub every : Shows a_01 block_id
    pub tenth : Shows a_10 (latest 10 block_id)
    pub fiftieth : Shows a_50 (latest 50 block_id)

  updated :
      (pre : Account) (divisor block_id timestamp : ℕ) {post : AccountPostState}
      → (block_id % divisor == 0) ≡ true
      → update_if_multiple pre divisor block_id
          (to_bytes (record { block_id = block_id; timestamp = timestamp }))
        ≡ ok post
      → Shows post.account block_id
  unfolding update_if_multiple
  updated pre divisor block_id timestamp {post} y h =
      let shown : ClockAccountData = record { block_id = block_id; timestamp = timestamp } in
      let (content, e, h₁) =
        >>=-eq-ok (or_err (to_data (to_bytes shown)) data_too_big) _ (rw y at h) in
      let whole =
        (to_data-some (to_bytes shown)
          (or_err-eq-some (to_data (to_bytes shown)) data_too_big e)).0 in
      rw (← ok-injective h₁, whole) (shown, from_bytes-to_bytes shown, refl)

  not_updated :
      (pre : Account) (divisor block_id timestamp : ℕ) {post : AccountPostState}
      → (block_id % divisor == 0) ≡ false
      → update_if_multiple pre divisor block_id
          (to_bytes (record { block_id = block_id; timestamp = timestamp }))
        ≡ ok post
      → post ≡ new_post pre
  unfolding update_if_multiple
  not_updated pre divisor block_id timestamp {post} n h = sym (ok-injective (rw n at h))

  slow_clock_10 :
      (pre : Account) (n timestamp : ℕ) {post : AccountPostState}
      → Shows pre (latest 10 n)
      → update_if_multiple pre 10
          (n + 1)
          (to_bytes (record { block_id = n + 1; timestamp = timestamp }))
        ≡ ok post
      → Shows post.account (latest 10 (n + 1))
  slow_clock_10 pre n timestamp {post} (c, read, shown) h = elim (Bool-cases ((n + 1) % 10 == 0)) [
    | inl y ↦
        (let (d, e, same) = updated pre 10 (n + 1) timestamp y h in
          let zero_rest : (n + 1) % 10 ≡ 0 = ground arith in
          (d, e, same ∙ omega (arith, zero_rest)))
    | inr y ↦
        (let some_rest : ¬ ((n + 1) % 10 ≡ 0) = ground arith in
          rw (not_updated pre 10 (n + 1) timestamp y h) (c, read, shown ∙ omega (arith, some_rest)))
  ]

  slow_clock_50 :
      (pre : Account) (n timestamp : ℕ) {post : AccountPostState}
      → Shows pre (latest 50 n)
      → update_if_multiple pre 50
          (n + 1)
          (to_bytes (record { block_id = n + 1; timestamp = timestamp }))
        ≡ ok post
      → Shows post.account (latest 50 (n + 1))
  slow_clock_50 pre n timestamp {post} (c, read, shown) h = elim (Bool-cases ((n + 1) % 50 == 0)) [
    | inl y ↦
        (let (d, e, same) = updated pre 50 (n + 1) timestamp y h in
          let zero_rest : (n + 1) % 50 ≡ 0 = ground arith in
          (d, e, same ∙ omega (arith, zero_rest)))
    | inr y ↦
        (let some_rest : ¬ ((n + 1) % 50 ≡ 0) = ground arith in
          rw (not_updated pre 50 (n + 1) timestamp y h) (c, read, shown ∙ omega (arith, some_rest)))
  ]

  divisible : (n : ℕ) → (n % 1 == 0) ≡ true
  divisible n = (let z : n % 1 ≡ 0 = omega arith in rw z refl)

  -- The posts of a block, from its id on.
  posts_of :
      (a_01 a_10 a_50 : Account) (n m timestamp : ℕ) {posts : List AccountPostState}
      → m ≡ n + 1
      → IsClock a_01 a_10 a_50 n
      → (do
        post_01 ←
            update_if_multiple a_01 1 m (to_bytes (record { block_id = m; timestamp = timestamp }))
        post_10 ←
            update_if_multiple a_10 10 m (to_bytes (record { block_id = m; timestamp = timestamp }))
        post_50 ←
            update_if_multiple a_50 50 m (to_bytes (record { block_id = m; timestamp = timestamp }))
        ok (post_01 ∷ post_10 ∷ post_50 ∷ []))
        ≡ ok posts
      → (p_01 : AccountPostState) × (p_10 : AccountPostState) × (p_50 : AccountPostState) × (posts
          ≡ p_01 ∷ p_10 ∷ p_50 ∷ [])
        × IsClock p_01.account p_10.account p_50.account (n + 1)
  posts_of a_01 a_10 a_50 n m timestamp now clock h =
      let written : Bytes = to_bytes (record { block_id = n + 1; timestamp = timestamp }) in
      let (p_01, e_01, h₁) =
        >>=-eq-ok (update_if_multiple a_01 1 (n + 1) written) _ (rw now at h) in
      let (p_10, e_10, h₂) = >>=-eq-ok (update_if_multiple a_10 10 (n + 1) written) _ h₁ in
      let (p_50, e_50, h₃) = >>=-eq-ok (update_if_multiple a_50 50 (n + 1) written) _ h₂ in
      (
        p_01,
        p_10,
        p_50,
        sym (ok-injective h₃),
        record {
          every = updated a_01 1 (n + 1) timestamp (divisible (n + 1)) e_01;
          tenth = slow_clock_10 a_10 n timestamp clock.tenth e_10;
          fiftieth = slow_clock_50 a_50 n timestamp clock.fiftieth e_50;
        },
      )

  -- Where three clock accounts show a block, the latest tenth block and the latest fiftieth, a successful run of the
  -- clock leaves three accounts that show the next block, and the latest tenth and fiftieth blocks as of it.
  pub tick-IsClock :
      (a_01 a_10 a_50 : Account) (n timestamp : ℕ) {posts : List AccountPostState}
      → IsClock a_01 a_10 a_50 n
      → tick borsh a_01 a_10 a_50 timestamp ≡ ok posts
      → (p_01 : AccountPostState) × (p_10 : AccountPostState) × (p_50 : AccountPostState) × (posts
          ≡ p_01 ∷ p_10 ∷ p_50 ∷ [])
        × IsClock p_01.account p_10.account p_50.account (n + 1)
  unfolding tick
  tick-IsClock a_01 a_10 a_50 n timestamp clock h =
      let (prev, e₀, h₁) = >>=-eq-ok (or_err (from_bytes a_01.content) not_clock_data) _ h in
      let (c, read, shown) = clock.every in
      let same : prev ≡ c =
        some-injective prev c
          (sym (or_err-eq-some (from_bytes a_01.content) not_clock_data e₀) ∙ read) in
      let (m, e₁, h₂) = >>=-eq-ok (next_block_id prev.block_id) _ h₁ in
      let now : m ≡ n + 1 =
        (next_block_id-ok prev.block_id e₁).0
        ∙ ap (λ d. d.block_id + 1) same
        ∙ ap (λ k. k + 1) shown in
      posts_of a_01 a_10 a_50 n m timestamp now clock h₂
