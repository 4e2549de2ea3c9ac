-- ===== src/Token/Program/Supply.antt =====
-- What the operations of the token program do to the units of a token.
use lp_0002_private_multisig.Prelude.{
  ℕ, ◌+◌, ◌≡◌, sym, ◌∙◌, ap, true, some, List, [], ◌∷◌, arith, ok, >>=-eq-ok, ok-injective, or_err,
  ensure, require,
}
use lp_0002_private_multisig.Core.Bytes.{Bytes, Bytes-discrete}
use lp_0002_private_multisig.Core.Account.{Account, AccountWithMetadata, to_data, to_data-some}
use lp_0002_private_multisig.Core.Program.{
  AccountPostState, authorized, new_post, new_claimed_if_default,
}
use lp_0002_private_multisig.Token.Types.{
  TokenDefinition, TokenHolding, Borsh, zeroized_clone_from, zeroized_from_definition,
  definition_id,
}
use lp_0002_private_multisig.Token.Program.{
  move_holding, mint_holding, burn_holding, store, holding_or, transfer, mint, burn, unauthorized,
  invalid_data, id_mismatch, data_too_big,
}
use lp_0002_private_multisig.Token.Program.Holdings.{
  units, supply, move_holding_lem, mint_holding_lem, burn_holding_lem,
}

module _ (borsh : Borsh) where
  open borsh use {
    encode_definition, decode_definition, decode-encode_definition, encode_holding, decode_holding,
    decode-encode_holding,
  }

  store_lem :
      (a : Account) (bytes : Bytes) {post : Account}
      → store borsh a bytes ≡ ok post
      → post ≡ record a { content = bytes }
  unfolding store
  store_lem a bytes h =
      let (content, e, h₁) = >>=-eq-ok (or_err (to_data bytes) data_too_big) _ h in
      let whole : content ≡ bytes = grind (arith, to_data-some) in
      sym (ok-injective h₁) ∙ ap (λ c. record a { content = c }) whole

  stored_holding :
      (a : Account) (h : TokenHolding) {post : Account}
      → store borsh a (encode_holding h) ≡ ok post
      → decode_holding post.content ≡ some h
  stored_holding a h e =
      ap (λ (x : Account). decode_holding x.content) (store_lem a (encode_holding h) e)
      ∙ decode-encode_holding h

  stored_definition :
      (a : Account) (d : TokenDefinition) {post : Account}
      → store borsh a (encode_definition d) ≡ ok post
      → decode_definition post.content ≡ some d
  stored_definition a d e =
      ap (λ (x : Account). decode_definition x.content) (store_lem a (encode_definition d) e)
      ∙ decode-encode_definition d

  -- The accounts after a transfer, and the holdings before and after it.
  pub record IsTransfer (sender recipient : AccountWithMetadata) (amount : ℕ)
      (posts : List AccountPostState) : Type 0 where
    pub sent : Account
    pub received : Account
    pub shape : posts ≡ new_post sent ∷ new_claimed_if_default received authorized ∷ []
    pub from : TokenHolding
    pub to : TokenHolding
    pub from' : TokenHolding
    pub to' : TokenHolding
    pub signed : sender.is_authorized ≡ true
    pub before_from : decode_holding sender.account.content ≡ some from
    pub before_to : holding_or borsh recipient.account (zeroized_clone_from from) ≡ ok to
    pub after_from : decode_holding sent.content ≡ some from'
    pub after_to : decode_holding received.content ≡ some to'
    pub one_token : definition_id from ≡ definition_id to
    pub from_kept : definition_id from' ≡ definition_id from
    pub to_kept : definition_id to' ≡ definition_id to
    pub debited : units from ≡ units from' + amount
    pub credited : units to' ≡ units to + amount

  -- A transfer that succeeds is authorized by the sender, is between two holdings of one token, and moves
  -- exactly the amount from the one to the other: for balances, master copies and printed copies.
  pub transfer-IsTransfer :
      (sender recipient : AccountWithMetadata) (amount : ℕ) {posts : List AccountPostState}
      → transfer borsh sender recipient amount ≡ ok posts
      → IsTransfer sender recipient amount posts
  unfolding transfer
  transfer-IsTransfer sender recipient amount h =
      let (u, a, h₁) = >>=-eq-ok (ensure sender.is_authorized unauthorized) _ h in
      let (s, ds, h₂) =
        >>=-eq-ok (or_err (decode_holding sender.account.content) invalid_data) _ h₁ in
      let (r, dr, h₃) =
        >>=-eq-ok (holding_or borsh recipient.account (zeroized_clone_from s)) _ h₂ in
      let (v, same, h₄) =
        >>=-eq-ok (require (Bytes-discrete (definition_id s) (definition_id r)) id_mismatch) _ h₃ in
      let (moved, m, h₅) = >>=-eq-ok (move_holding s r amount) _ h₄ in
      let (sent, es, h₆) = >>=-eq-ok (store borsh sender.account (encode_holding moved.0)) _ h₅ in
      let (received, er, h₇) =
        >>=-eq-ok (store borsh recipient.account (encode_holding moved.1)) _ h₆ in
      let (debit, credit, from_id, to_id) = move_holding_lem s r amount m in
      record {
        sent = sent;
        received = received;
        shape = sym (ok-injective h₇);
        from = s;
        to = r;
        from' = moved.0;
        to' = moved.1;
        signed = ground arith;
        before_from = ground arith;
        before_to = dr;
        after_from = stored_holding sender.account moved.0 es;
        after_to = stored_holding recipient.account moved.1 er;
        one_token = ground arith;
        from_kept = from_id;
        to_kept = to_id;
        debited = debit;
        credited = credit;
      }

  -- The definition and the holding before and after an operation that changes the supply.
  pub record IsIssue (definition holding : AccountWithMetadata) (posts : List AccountPostState)
      : Type 0 where
    pub defined : Account
    pub held : Account
    pub token : TokenDefinition
    pub token' : TokenDefinition
    pub before : TokenHolding
    pub after : TokenHolding
    pub token_read : decode_definition definition.account.content ≡ some token
    pub token_written : decode_definition defined.content ≡ some token'
    pub held_written : decode_holding held.content ≡ some after
    pub of_token : definition_id after ≡ definition.account_id

  -- A mint that succeeds is authorized by the definition, and raises the supply and the balance of one
  -- holding of that token by the amount.
  pub mint-IsIssue :
      (definition holding : AccountWithMetadata) (amount : ℕ) {posts : List AccountPostState}
      → mint borsh definition holding amount ≡ ok posts
      → (i : IsIssue definition holding posts) × (posts
          ≡ new_post i.defined ∷ new_claimed_if_default i.held authorized ∷ [])
        × (definition.is_authorized ≡ true)
        × (holding_or borsh holding.account (zeroized_from_definition definition.account_id i.token)
            ≡ ok i.before)
        × (supply i.token' ≡ supply i.token + amount)
        × (units i.after ≡ units i.before + amount)
  unfolding mint
  mint-IsIssue definition holding amount h =
      let (u, a, h₁) = >>=-eq-ok (ensure definition.is_authorized unauthorized) _ h in
      let (d, dd, h₂) =
        >>=-eq-ok (or_err (decode_definition definition.account.content) invalid_data) _ h₁ in
      let (b, db, h₃) =
        >>=-eq-ok
          (holding_or borsh holding.account (zeroized_from_definition definition.account_id d)) _
          h₂ in
      let (v, same, h₄) =
        >>=-eq-ok (require (Bytes-discrete definition.account_id (definition_id b)) id_mismatch) _
          h₃ in
      let (made, m, h₅) = >>=-eq-ok (mint_holding d b amount) _ h₄ in
      let (defined, ed, h₆) =
        >>=-eq-ok (store borsh definition.account (encode_definition made.0)) _ h₅ in
      let (held, eh, h₇) = >>=-eq-ok (store borsh holding.account (encode_holding made.1)) _ h₆ in
      let (raised, credited, id_kept) = mint_holding_lem d b amount m in
      let one : definition.account_id ≡ definition_id b = ground arith in
      (
        record {
          defined = defined;
          held = held;
          token = d;
          token' = made.0;
          before = b;
          after = made.1;
          token_read = ground arith;
          token_written = stored_definition definition.account made.0 ed;
          held_written = stored_holding holding.account made.1 eh;
          of_token = id_kept ∙ sym one;
        },
        sym (ok-injective h₇),
        ground arith,
        db,
        raised,
        credited,
      )

  -- A burn that succeeds is authorized by the holder, and lowers the supply and the units of one holding
  -- of that token by the amount, which neither falls below: for balances, prints and printed copies.
  pub burn-IsIssue :
      (definition holding : AccountWithMetadata) (amount : ℕ) {posts : List AccountPostState}
      → burn borsh definition holding amount ≡ ok posts
      → (i : IsIssue definition holding posts) × (posts ≡ new_post i.defined ∷ new_post i.held ∷ [])
        × (holding.is_authorized ≡ true)
        × (decode_holding holding.account.content ≡ some i.before)
        × (supply i.token ≡ supply i.token' + amount)
        × (units i.before ≡ units i.after + amount)
  unfolding burn
  burn-IsIssue definition holding amount h =
      let (u, a, h₁) = >>=-eq-ok (ensure holding.is_authorized unauthorized) _ h in
      let (d, dd, h₂) =
        >>=-eq-ok (or_err (decode_definition definition.account.content) invalid_data) _ h₁ in
      let (b, db, h₃) =
        >>=-eq-ok (or_err (decode_holding holding.account.content) invalid_data) _ h₂ in
      let (v, same, h₄) =
        >>=-eq-ok (require (Bytes-discrete definition.account_id (definition_id b)) id_mismatch) _
          h₃ in
      let (made, m, h₅) = >>=-eq-ok (burn_holding d b amount) _ h₄ in
      let (defined, ed, h₆) =
        >>=-eq-ok (store borsh definition.account (encode_definition made.0)) _ h₅ in
      let (held, eh, h₇) = >>=-eq-ok (store borsh holding.account (encode_holding made.1)) _ h₆ in
      let (lowered, debited, id_kept) = burn_holding_lem d b amount m in
      let one : definition.account_id ≡ definition_id b = ground arith in
      (
        record {
          defined = defined;
          held = held;
          token = d;
          token' = made.0;
          before = b;
          after = made.1;
          token_read = ground arith;
          token_written = stored_definition definition.account made.0 ed;
          held_written = stored_holding holding.account made.1 eh;
          of_token = id_kept ∙ sym one;
        },
        sym (ok-injective h₇),
        ground arith,
        ground arith,
        lowered,
        debited,
      )
