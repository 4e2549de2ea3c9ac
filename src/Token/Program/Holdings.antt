-- ===== src/Token/Program/Holdings.antt =====
-- What the matches of programs/token/src do to the units of a token.
use lp_0002_private_multisig.Prelude.{ℕ, ◌+◌, ◌≤◌, ◌≡◌, arith, if◌then◌else◌, ok}
use lp_0002_private_multisig.Token.Types.{TokenDefinition, TokenHolding, definition_id}
use lp_0002_private_multisig.Token.Program.{move_holding, mint_holding, burn_holding, print_holding}

-- Units that a holding stands for: its balance, its prints, or the one copy that it owns.
abbrev pub units : TokenHolding → ℕ
units (TokenHolding.fungible i b) = b
units (TokenHolding.nft_master i p) = p
units (TokenHolding.nft_printed_copy i owned) = if owned then 1 else 0

abbrev pub supply : TokenDefinition → ℕ
supply (TokenDefinition.fungible n s m) = s
supply (TokenDefinition.non_fungible n s m) = s

pub move_holding_lem :
    (s r : TokenHolding) (amount : ℕ) {s' r' : TokenHolding}
    → move_holding s r amount ≡ ok (s', r')
    → (units s ≡ units s' + amount)
      × (units r' ≡ units r + amount)
      × (definition_id s' ≡ definition_id s)
      × (definition_id r' ≡ definition_id r)
unfolding move_holding definition_id
move_holding_lem (TokenHolding.fungible i s) (TokenHolding.fungible j r) amount h = ground arith
move_holding_lem (TokenHolding.nft_master i s) (TokenHolding.nft_master j r) amount h = ground arith
move_holding_lem (TokenHolding.nft_printed_copy i s) (TokenHolding.nft_printed_copy j r) amount h =
    ground arith
move_holding_lem _ _ amount h = cc

pub mint_holding_lem :
    (d : TokenDefinition) (h : TokenHolding) (amount : ℕ) {d' : TokenDefinition} {h' : TokenHolding}
    → mint_holding d h amount ≡ ok (d', h')
    → (supply d' ≡ supply d + amount)
      × (units h' ≡ units h + amount)
      × (definition_id h' ≡ definition_id h)
unfolding mint_holding definition_id
mint_holding_lem (TokenDefinition.fungible n s m) (TokenHolding.fungible j r) amount h =
    ground arith
mint_holding_lem (TokenDefinition.non_fungible n s m) (TokenHolding.nft_master j r) amount h = cc
mint_holding_lem _ _ amount h = cc

pub burn_holding_lem :
    (d : TokenDefinition) (h : TokenHolding) (amount : ℕ) {d' : TokenDefinition} {h' : TokenHolding}
    → burn_holding d h amount ≡ ok (d', h')
    → (supply d ≡ supply d' + amount)
      × (units h ≡ units h' + amount)
      × (definition_id h' ≡ definition_id h)
unfolding burn_holding definition_id
burn_holding_lem (TokenDefinition.fungible n s m) (TokenHolding.fungible j r) amount h =
    ground arith
burn_holding_lem (TokenDefinition.non_fungible n s m) (TokenHolding.nft_master j r) amount h =
    ground arith
burn_holding_lem (TokenDefinition.non_fungible n s m) (TokenHolding.nft_printed_copy j o) amount h =
    ground arith
burn_holding_lem _ _ amount h = cc

pub print_holding_lem :
    (m : TokenHolding) {m' c : TokenHolding}
    → print_holding m ≡ ok (m', c)
    → (units m ≡ units m' + units c)
      × (units c ≡ 1)
      × (1 ≤ units m')
      × (definition_id m' ≡ definition_id m)
      × (definition_id c ≡ definition_id m)
unfolding print_holding definition_id
print_holding_lem (TokenHolding.nft_master j r) h = ground arith
print_holding_lem _ h = cc
