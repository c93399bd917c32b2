-- ===== src/StakingToVoting/Tests.antt =====
-- A batch of one account that delegates 30 to key 1, which has the weight 50.
use decentralised_treasury.Prelude.{
  ℕ, ◌+◌, ◌≡◌, refl, [], ◌∷◌, true, false, if◌then◌else◌, ◌==◌, arith,
}
use decentralised_treasury.Circuit.{ok}
use decentralised_treasury.Circuit.Integers.{ℤ, pos, ◌==ℤ◌, ==ℤ-iff}
use decentralised_treasury.Circuit.Lawful.{lawful_o1js, lawful}
use decentralised_treasury.Hashing.{hash_with_prefix}
use decentralised_treasury.Account.{Account, account_leaf, permission_none, permission_signature}
use decentralised_treasury.Merkle.Witness.{
  hash_pair, calculate_root, calculate_index, prefixed_merkle_witness,
}
use decentralised_treasury.Merkle.Complete.{tree_root, parents}
use decentralised_treasury.VoteReducer.Types.{voting_leaf}
use decentralised_treasury.VoteReducer.Refinement.Sample.{
  pairs_collision_free, leaves_collision_free,
}
use decentralised_treasury.StakingToVoting.Types.{
  ProgramInput, ProgramOutput, LedgersContext, LedgerTrees,
}
use decentralised_treasury.StakingToVoting.Digest.{
  digest, digest_loop, digest_account, check_staking, raise_delegate, balance_to_add,
}
use decentralised_treasury.StakingToVoting.Digest.Opened.{WellSized, Credits}
use decentralised_treasury.StakingToVoting.Digest.Weights.{LeavesAt, delegated, digest_sound}

abbrev trees : LedgerTrees
trees = record {
  staking_height = 1;
  staking_prefixes = [];
  voting_height = 2;
  voting_prefixes = "voting" ∷ [];
}

trees-WellSized : WellSized trees 0 1
trees-WellSized = record {
  staking_height = refl;
  voting_height = refl;
  small_staking = omega arith;
  small_voting = omega arith;
  staking_prefixes = omega arith;
  voting_prefixes = omega arith;
}

abbrev delegator : Account lawful_o1js
delegator = record {
  pk = 3;
  token_id = pos 1;
  token_symbol = pos 0;
  balance = 30;
  nonce = 0;
  receipt_chain_hash = pos 0;
  delegate = 1;
  voting_for = pos 0;
  timing = record {
    is_timed = false;
    initial_minimum_balance = 0;
    cliff_time = 0;
    cliff_amount = 0;
    vesting_period = 1;
    vesting_increment = 0;
  };
  permissions = record {
    edit_state = permission_signature;
    send = permission_signature;
    receive = permission_none;
    access = permission_none;
    set_delegate = permission_signature;
    set_permissions = permission_signature;
    set_verification_key = (permission_signature, 4);
    set_zkapp_uri = permission_signature;
    edit_action_state = permission_signature;
    set_token_symbol = permission_signature;
    increment_nonce = permission_signature;
    set_voting_for = permission_signature;
    set_timing = permission_signature;
  };
  zkapp = record {
    app_state = [];
    verification_key_hash = pos 0;
    zkapp_version = pos 0;
    action_state = [];
    last_action_slot = pos 0;
    proved_state = false;
    zkapp_uri = pos 0;
  };
}

abbrev weight : ℕ → ℕ
weight key = if key == 1 then 50 else 0

abbrev weighed : ℕ → ℤ
weighed i = voting_leaf lawful_o1js (record { balance = weight i })

abbrev ledgers : LedgersContext lawful_o1js
ledgers = record {
  Store = ℕ → ℕ;
  get_staking_witness = λ store index. [];
  get_voting_account = λ store key. record { balance = store key };
  get_voting_witness = λ store key. (key == 0, weighed (if key == 0 then 1 else 0)) ∷ [];
  set_voting_account = λ store key account k. if k == key then account.balance else store k;
  set_voting_leaf = λ store key account. store;
}

abbrev staking : ℕ → ℤ
staking i = account_leaf lawful_o1js delegator

abbrev input : ProgramInput lawful_o1js
input = record {
  index = 0;
  staking_ledger_root = account_leaf lawful_o1js delegator;
  voting_ledger_root = tree_root lawful_o1js 1 ("voting" ∷ []) weighed;
}

abbrev output : ProgramOutput lawful_o1js
output = record {
  index = 0;
  voting_ledger_root =
      hash_pair lawful_o1js "voting" (weighed 0, voting_leaf lawful_o1js (record { balance = 80 }));
  exhausted = false;
}

abbrev raised : ℕ → ℕ
raised k = if k == 1 then 80 else weight k

staking_root : tree_root lawful_o1js 0 [] staking ≡ input.staking_ledger_root
unfolding tree_root
staking_root = refl

voting-Credits :
    Credits lawful_o1js lawful pairs_collision_free leaves_collision_free trees 0 1 trees-WellSized
      ledgers input.voting_ledger_root weight
voting-Credits = record {
  nodes = weighed;
  is_root = refl;
  leaf = λ key i slot. let same : i ≡ key = ground (arith, slot.1) in rw same refl;
}

digested : digest lawful_o1js trees ledgers input (delegator ∷ []) weight ≡ ok (output, raised)
unfolding digest digest_loop digest_account check_staking raise_delegate balance_to_add
    prefixed_merkle_witness calculate_index calculate_root tree_root parents voting_leaf
    hash_with_prefix
digested =
    let leaf = account_leaf lawful_o1js delegator in
    let same : (leaf ==ℤ leaf) ≡ true = (==ℤ-iff leaf leaf).1 refl in rw same refl

digest_sound_example :
    Credits lawful_o1js lawful pairs_collision_free leaves_collision_free trees 0 1 trees-WellSized
      ledgers output.voting_ledger_root
      (λ key. weight key + delegated lawful_o1js (delegator ∷ []) key)
    × LeavesAt lawful_o1js staking 0 (delegator ∷ [])
    × (output.index + 1 ≡ 1)
digest_sound_example =
    digest_sound lawful_o1js lawful pairs_collision_free leaves_collision_free trees 0 1
      trees-WellSized ledgers input (delegator ∷ []) weight output raised staking weight
      staking_root voting-Credits digested
