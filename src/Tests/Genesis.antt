-- ===== src/Tests/Genesis.antt =====
-- Genesis with one public and one private account.
use lp_0002_private_multisig.Prelude.{◌≡◌, [], ◌∷◌, ok, replicate, arith}
use lp_0002_private_multisig.Lee.State.{V03State}
use lp_0002_private_multisig.Lee.Genesis.{Builtins, new_with_genesis_accounts}
use lp_0002_private_multisig.Lee.Genesis.Formed.{IsGenesis, new_with_genesis_accounts-Returns}
use lp_0002_private_multisig.Tests.Vault.{short_sha}
use lp_0002_private_multisig.Tests.System.{clock_codec}

abbrev built : Builtins
built = record {
  clock = record { id = replicate 8 1; elf = 1 ∷ [] };
  authenticated_transfer = record { id = replicate 8 2; elf = 2 ∷ [] };
  token = record { id = replicate 8 3; elf = 3 ∷ [] };
  amm = record { id = replicate 8 4; elf = 4 ∷ [] };
  ata = record { id = replicate 8 5; elf = 5 ∷ [] };
  vault = record { id = replicate 8 6; elf = 6 ∷ [] };
  faucet = record { id = replicate 8 7; elf = 7 ∷ [] };
  bridge = record { id = replicate 8 8; elf = 8 ∷ [] };
  pinata = record { id = replicate 8 9; elf = 9 ∷ [] };
  pinata_token = record { id = replicate 8 10; elf = 10 ∷ [] };
}

new_with_genesis_accounts-Returns_example :
    (state : V03State) × (new_with_genesis_accounts short_sha built clock_codec
        ((replicate 32 5, 100) ∷ [])
        ((replicate 32 9, replicate 32 8) ∷ [])
        1000
      ≡ ok state)
    × IsGenesis short_sha built clock_codec ((replicate 32 9, replicate 32 8) ∷ []) 1000 state
new_with_genesis_accounts-Returns_example =
    new_with_genesis_accounts-Returns short_sha built clock_codec ((replicate 32 5, 100) ∷ [])
      ((replicate 32 9, replicate 32 8) ∷ []) 1000 (omega arith) (omega arith)
