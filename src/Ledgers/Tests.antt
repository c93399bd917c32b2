-- ===== src/Ledgers/Tests.antt =====
-- The first and the last entries of the prefix lists.
use decentralised_treasury.Prelude.{◌≡◌, refl, some, get_elem?, length}
use decentralised_treasury.Ledgers.{
  account_ledger_hash_prefixes, voting_account_ledger_hash_prefixes, nullifier_ledger_hash_prefixes,
}

staking_levels : length account_ledger_hash_prefixes ≡ 35
unfolding account_ledger_hash_prefixes
staking_levels = refl

last_staking_prefix : get_elem? account_ledger_hash_prefixes 34 ≡ some "MinaMklTree034******"
unfolding account_ledger_hash_prefixes
last_staking_prefix = refl

last_voting_prefix :
    get_elem? voting_account_ledger_hash_prefixes 254 ≡ some "TreasuryMklTree254******"
unfolding voting_account_ledger_hash_prefixes
last_voting_prefix = refl

first_nullifier_prefix :
    get_elem? nullifier_ledger_hash_prefixes 0 ≡ some "TreasuryMklTree000******"
unfolding nullifier_ledger_hash_prefixes
first_nullifier_prefix = refl
