-- ===== src/Ledgers.antt =====
-- The hash prefixes of the ledgers' trees: staking-ledger.ts, voting-ledger.ts and
-- nullifier-ledger.ts under packages/sdk/src/ledgers.
mod Tests
use Prim.Native.String.{◌++◌ as concat}
use decentralised_treasury.Prelude.{
  ℕ, zero, suc, ◌+◌, ◌/◌, ◌%◌, List, [], ◌∷◌, String, ◌==◌, if◌then◌else◌,
}

digit : ℕ → String
digit n =
    if n == 0
    then "0"
    else if n == 1
    then "1"
    else if n == 2
    then "2"
    else if n == 3
    then "3"
    else if n == 4
    then "4"
    else if n == 5
    then "5"
    else if n == 6
    then "6"
    else if n == 7
    then "7"
    else if n == 8
    then "8"
    else "9"

-- The name, the level in three digits, and six stars.
level_prefix : String → ℕ → String
unfolding digit
level_prefix name level = concat name (
    concat (digit (level / 100))
      (concat (digit (level / 10 % 10)) (concat (digit (level % 10)) "******")))

level_prefixes : String → ℕ → ℕ → List String
unfolding level_prefix
level_prefixes name zero level = []
level_prefixes name (suc n) level = level_prefix name level ∷ level_prefixes name n (level + 1)

-- From `MinaMklTree000******` to `MinaMklTree034******`.
pub account_ledger_hash_prefixes : List String
unfolding level_prefixes
account_ledger_hash_prefixes = level_prefixes "MinaMklTree" 35 0

-- From `TreasuryMklTree000******` to `TreasuryMklTree254******`.
pub voting_account_ledger_hash_prefixes : List String
unfolding level_prefixes
voting_account_ledger_hash_prefixes = level_prefixes "TreasuryMklTree" 255 0

pub nullifier_ledger_hash_prefixes : List String
unfolding level_prefixes
nullifier_ledger_hash_prefixes = level_prefixes "TreasuryMklTree" 255 0

abbrev pub voting_account_hash_prefix : String
voting_account_hash_prefix = "MinaVotingAccount*********"

abbrev pub nullifier_hash_prefix : String
nullifier_hash_prefix = "MinaNullifier*************"
