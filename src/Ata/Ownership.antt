-- ===== src/Ata/Ownership.antt =====
-- programs/associated_token_account: whose tokens a transfer or a burn takes.
use lp_0002_private_multisig.Prelude.{
  ℕ, ◌⊎◌, inl, inr, ◌≡◌, refl, sym, ◌∙◌, ap, true, List, [], ◌∷◌, ◌++◌, length, halves, ok,
  >>=-eq-ok, ok-injective, or_err-eq-ok, ensure-eq-ok, require-eq-ok, some,
}
use lp_0002_private_multisig.Core.Bytes.{Bytes-discrete}
use lp_0002_private_multisig.Core.Account.{ProgramId, AccountWithMetadata}
use lp_0002_private_multisig.Core.Hash.{Sha256, IsCollisionFree, for_public_pda-injective}
use lp_0002_private_multisig.Core.Program.{
  PdaSeed, InstructionData, AccountPostState, ChainedCall, new_post,
}
use lp_0002_private_multisig.Token.Types as Token
use lp_0002_private_multisig.Token.Types.{TokenHolding, Borsh}
use lp_0002_private_multisig.Ata.{
  AtaInstruction, create_call, wrong_ata, owner_unauthorized, invalid_holding, transfer_call,
  burn_call, compute_ata_seed, get_associated_token_account_id, verify_ata_and_get_seed, owned_seed,
  transfer_from_associated_token_account, burn_from_associated_token_account, ata_run,
}

-- The account is the one of the owner for a token, and the owner has signed.
pub record IsOwned (sha : Sha256) (borsh : Borsh) (ata_program_id : ProgramId)
    (owner ata : AccountWithMetadata) (seed : PdaSeed) : Type 0 where
  pub signed : owner.is_authorized ≡ true
  pub holding : TokenHolding
  pub read : borsh.decode_holding ata.account.content ≡ some holding
  pub seeded : seed ≡ compute_ata_seed sha owner.account_id (Token.definition_id holding)
  pub derived : ata.account_id ≡ get_associated_token_account_id sha ata_program_id seed

-- The call takes the amount out of the holding, which it authorizes: to the other account for a transfer, out of the
-- supply of the token for a burn.
abbrev pub IsTaking :
    (Token.Instruction → InstructionData)
    → AtaInstruction
    → AccountWithMetadata
    → AccountWithMetadata
    → ChainedCall
    → Type 0
IsTaking to_vec (create_call p) ata other call = ⊥
IsTaking to_vec (transfer_call p amount) ata other call =
    (call.pre_states ≡ record ata { is_authorized = true } ∷ other ∷ [])
    × (call.instruction_data ≡ to_vec (Token.transfer amount))
IsTaking to_vec (burn_call p amount) ata other call =
    (call.pre_states ≡ other ∷ record ata { is_authorized = true } ∷ [])
    × (call.instruction_data ≡ to_vec (Token.burn amount))

module _ (sha : Sha256) (borsh : Borsh) (to_vec : Token.Instruction → InstructionData) where
  owned_seed-IsOwned :
      (owner ata : AccountWithMetadata) (ata_program_id : ProgramId) {seed : PdaSeed}
      → owned_seed sha borsh to_vec owner ata ata_program_id ≡ ok seed
      → IsOwned sha borsh ata_program_id owner ata seed
  unfolding owned_seed verify_ata_and_get_seed
  owned_seed-IsOwned owner ata ata_program_id h =
      let (signed, h₁) = ensure-eq-ok owner.is_authorized owner_unauthorized _ h in
      let (holding, read, h₂) =
        or_err-eq-ok (borsh.decode_holding ata.account.content) invalid_holding _ h₁ in
      let seed : PdaSeed = compute_ata_seed sha owner.account_id (Token.definition_id holding) in
      let (at, h₃) =
        require-eq-ok
          (Bytes-discrete ata.account_id (get_associated_token_account_id sha ata_program_id seed))
          wrong_ata _ h₂ in
      rw (← ok-injective h₃)
        (record { signed = signed; holding = holding; read = read; seeded = refl; derived = at })

  -- A transfer or a burn by the program, which changes no account itself, calls the program that owns the first
  -- holding once, to take the amount from that holding: to the other account, or out of the supply of the other
  -- account's token. The holding is derived from the owner, who has signed, and from the token it holds, and the
  -- call authorizes no other account and lends the seed of the holding alone.
  pub ata_run-IsOwned :
      (instruction : AtaInstruction) (owner ata other : AccountWithMetadata)
      (ata_program_id : ProgramId) (amount : ℕ) {r : List AccountPostState × List ChainedCall}
      → (instruction ≡ transfer_call ata_program_id amount)
        ⊎ (instruction ≡ burn_call ata_program_id amount)
      → ata_run sha borsh to_vec instruction (owner ∷ ata ∷ other ∷ []) ≡ ok r
      → (seed : PdaSeed) × (call : ChainedCall) × (r.1 ≡ call ∷ [])
        × (r.0 ≡ new_post owner.account ∷ new_post ata.account ∷ new_post other.account ∷ [])
        × (call.program_id ≡ ata.account.program_owner)
        × (call.pda_seeds ≡ seed ∷ [])
        × IsTaking to_vec instruction ata other call
        × IsOwned sha borsh ata_program_id owner ata seed
  unfolding ata_run transfer_from_associated_token_account burn_from_associated_token_account
  ata_run-IsOwned instruction owner ata other ata_program_id amount (inl e) ran =
      let h = rw e at ran in
      let (seed, es, h₁) = >>=-eq-ok (owned_seed sha borsh to_vec owner ata ata_program_id) _ h in
      (
        seed,
        _,
        sym (ap (λ r. r.1) (ok-injective h₁)),
        sym (ap (λ r. r.0) (ok-injective h₁)),
        refl,
        refl,
        rw e (refl, refl),
        owned_seed-IsOwned owner ata ata_program_id es,
      )
  ata_run-IsOwned instruction owner ata other ata_program_id amount (inr e) ran =
      let h = rw e at ran in
      let (seed, es, h₁) = >>=-eq-ok (owned_seed sha borsh to_vec owner ata ata_program_id) _ h in
      (
        seed,
        _,
        sym (ap (λ r. r.1) (ok-injective h₁)),
        sym (ap (λ r. r.0) (ok-injective h₁)),
        refl,
        refl,
        rw e (refl, refl),
        owned_seed-IsOwned owner ata ata_program_id es,
      )

  -- With a collision-free hash, no two owners of identifiers of one length can take from the same account.
  pub one_owner :
      (ata_program_id : ProgramId) (owner owner' ata ata' : AccountWithMetadata)
      (seed seed' : PdaSeed)
      → IsCollisionFree sha
      → length owner.account_id ≡ length owner'.account_id
      → ata.account_id ≡ ata'.account_id
      → owned_seed sha borsh to_vec owner ata ata_program_id ≡ ok seed
      → owned_seed sha borsh to_vec owner' ata' ata_program_id ≡ ok seed'
      → owner.account_id ≡ owner'.account_id
  unfolding get_associated_token_account_id compute_ata_seed
  one_owner ata_program_id owner owner' ata ata' seed seed' free len same h h' =
      let o = owned_seed-IsOwned owner ata ata_program_id h in
      let o' = owned_seed-IsOwned owner' ata' ata_program_id h' in
      let seeds =
        for_public_pda-injective sha free ata_program_id seed seed'
          (sym o.derived ∙ same ∙ o'.derived) in
      let digests = sym o.seeded ∙ seeds ∙ o'.seeded in
      (halves owner.account_id (Token.definition_id o.holding) owner'.account_id
        (Token.definition_id o'.holding) len
        (free (owner.account_id ++ Token.definition_id o.holding)
          (owner'.account_id ++ Token.definition_id o'.holding) digests)).0
