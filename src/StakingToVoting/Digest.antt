-- ===== src/StakingToVoting/Digest.antt =====
-- `StakingLedgerToVotingLedger.digest`.
pub mod Opened
pub mod Weights
use decentralised_treasury.Prelude.{ℕ, List, [], ◌∷◌, false, if◌then◌else◌}
use decentralised_treasury.Circuit.{
  O1js, Result, ok, ◌>>=◌, ◌>>◌, require, checked, staking_index_mismatch, staking_root_mismatch,
  voting_account_index_mismatch, voting_ledger_root_mismatch,
}
use decentralised_treasury.Account.{Account, account_leaf}
use decentralised_treasury.Merkle.Witness.{prefixed_merkle_witness, calculate_root, calculate_index}
use decentralised_treasury.VoteReducer.Types.{VotingAccount, voting_leaf}
use decentralised_treasury.StakingToVoting.Types.{
  ProgramInput, ProgramOutput, LedgersContext, LedgerTrees,
}

module _ (o : O1js) (trees : LedgerTrees) (context : LedgersContext o) where
  open o use {Field, of_nat, equals, poseidon_hash, key_fields, default_token, uint64}
  open context use {Store}

  -- The variables that roll through the loop.
  pub record Rolling : Type 0 where
    pub index : ℕ
    pub voting_root : Field

  -- The account stands in the staking ledger at the index.
  unfoldable pub check_staking : Field → Store → ℕ → Account o → Result (Unit {0})
  check_staking staking_root store index account = do
    witness ←
        prefixed_merkle_witness o trees.staking_height (context.get_staking_witness store index)
    let root = calculate_root o witness (account_leaf o account) trees.staking_prefixes
    require (equals (calculate_index o witness) (of_nat index)) staking_index_mismatch
    require (equals root staking_root) staking_root_mismatch

  -- The balance counts for the delegate if it is in the default token.
  unfoldable pub balance_to_add : Account o → ℕ
  balance_to_add account = if equals account.token_id default_token then account.balance else 0

  -- The delegate's voting account is opened, raised, and the new root is computed.
  unfoldable pub raise_delegate : Field → Store → Account o → Result (VotingAccount × Field)
  unfolding balance_to_add
  raise_delegate voting_root store account = do
    let delegate = account.delegate
    let voting_account = context.get_voting_account store delegate
    witness ←
        prefixed_merkle_witness o trees.voting_height (context.get_voting_witness store delegate)
    let root = calculate_root o witness (voting_leaf o voting_account) trees.voting_prefixes
    require (equals (calculate_index o witness) (poseidon_hash (key_fields delegate)))
        voting_account_index_mismatch
    require (equals root voting_root) voting_ledger_root_mismatch
    balance ← checked (uint64.add voting_account.balance (balance_to_add account))
    let updated : VotingAccount = record { balance = balance }
    ok (updated, calculate_root o witness (voting_leaf o updated) trees.voting_prefixes)

  -- One round of the loop.
  unfoldable pub digest_account : Field → Account o → Rolling × Store → Result (Rolling × Store)
  unfolding check_staking raise_delegate
  digest_account staking_root account (r, store) = do
    check_staking staking_root store r.index account
    (updated, voting_root) ← raise_delegate r.voting_root store account
    let delegate = account.delegate
    let store' =
        context.set_voting_leaf (context.set_voting_account store delegate updated) delegate updated
    next ← checked (uint64.add r.index 1)
    ok (record { index = next; voting_root = voting_root }, store')

  unfoldable pub digest_loop : Field → List (Account o) → Rolling × Store → Result (Rolling × Store)
  unfolding digest_account
  digest_loop staking_root [] state = ok state
  digest_loop staking_root (account ∷ accounts) state =
      digest_account staking_root account state >>= digest_loop staking_root accounts

  -- The method, on a batch of the fixed size. The index is that of the last account.
  unfoldable pub digest :
      ProgramInput o → List (Account o) → Store → Result (ProgramOutput o × Store)
  unfolding digest_loop
  digest input accounts store = do
    (r, store') ←
        digest_loop input.staking_ledger_root accounts
          (record { index = input.index; voting_root = input.voting_ledger_root }, store)
    last ← checked (uint64.sub r.index 1)
    ok (record { index = last; voting_ledger_root = r.voting_root; exhausted = false }, store')
