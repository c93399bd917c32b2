-- ===== src/Account/Tests.antt =====
-- The packing of small values, and the empty account.
use decentralised_treasury.Prelude.{◌≡◌, refl, [], ◌∷◌}
use decentralised_treasury.Circuit.Sample.{sample_o1js}
use decentralised_treasury.Hashing.{hash_with_prefix}
use decentralised_treasury.Account.{
  empty_account, account_leaf, account_hash_prefix, account_hash_input,
}
use decentralised_treasury.Account.Packing.{field, packed, append_all, pack_to_fields}

-- Three values of 3, 2 and 4 bits share one field element, after the full one.
shared_element :
    pack_to_fields sample_o1js (
      append_all sample_o1js (
        packed sample_o1js 5 3
        ∷ field sample_o1js 77
        ∷ packed sample_o1js 2 2
        ∷ packed sample_o1js 9 4
        ∷ []))
    ≡ 77 ∷ 361 ∷ []
unfolding field packed append_all pack_to_fields
shared_element = refl

-- The empty account has a vesting period of one slot and no balance.
empty_leaf :
    account_leaf sample_o1js (empty_account sample_o1js)
    ≡ hash_with_prefix sample_o1js account_hash_prefix
        (pack_to_fields sample_o1js (account_hash_input sample_o1js (empty_account sample_o1js)))
unfolding account_leaf
empty_leaf = refl

empty_timing : (empty_account sample_o1js).timing.vesting_period ≡ 1
unfolding empty_account
empty_timing = refl
