-- ===== src/StakingToVoting/Merge.antt =====
-- `StakingLedgerToVotingLedger.merge` and `StakingLedgerToVotingLedger.exhaust`.
use decentralised_treasury.Prelude.{Bool, true, false, ◌==◌}
use decentralised_treasury.Circuit.{
  O1js, Result, ok, ◌>>=◌, ◌>>◌, require, checked, proof_not_verified, merge_input_mismatch,
  merge_staking_root_mismatch, merge_index_mismatch, merge_voting_root_mismatch,
  staking_index_mismatch, staking_root_mismatch,
}
use decentralised_treasury.Account.{empty_account, account_leaf}
use decentralised_treasury.Merkle.Witness.{prefixed_merkle_witness, calculate_root, calculate_index}
use decentralised_treasury.StakingToVoting.Types.{
  ProgramInput, ProgramOutput, LedgerProof, LedgersContext, LedgerTrees, program_input_fields,
}

module _ (o : O1js) (verify : LedgerProof o → Bool) where
  open o use {equals, of_nat, poseidon_hash, uint64}

  -- The public input of the method is that of the inner proof.
  unfoldable pub same_input : ProgramInput o → ProgramInput o → Bool
  same_input a b =
      equals (poseidon_hash (program_input_fields o a)) (poseidon_hash (program_input_fields o b))

  unfoldable pub merge : ProgramInput o → LedgerProof o → LedgerProof o → Result (ProgramOutput o)
  unfolding same_input
  merge public_input proof1 proof2 = do
    require (verify proof1) proof_not_verified
    require (verify proof2) proof_not_verified
    let input1 = proof1.public_input
    let output1 = proof1.public_output
    let input2 = proof2.public_input
    let output2 = proof2.public_output
    require (same_input public_input input1) merge_input_mismatch
    require (equals input1.staking_ledger_root input2.staking_ledger_root)
        merge_staking_root_mismatch
    next ← checked (uint64.add output1.index 1)
    require (next == input2.index) merge_index_mismatch
    require (equals output1.voting_ledger_root input2.voting_ledger_root) merge_voting_root_mismatch
    ok (record {
      index = output2.index;
      voting_ledger_root = output2.voting_ledger_root;
      exhausted = false;
    })

  -- The account behind the last one is empty.
  unfoldable pub exhaust :
      LedgerTrees
      → (context : LedgersContext o) → context.Store
      → ProgramInput o
      → LedgerProof o
      → Result (ProgramOutput o)
  unfolding same_input
  exhaust trees context store public_input proof = do
    require (verify proof) proof_not_verified
    let input = proof.public_input
    let output = proof.public_output
    require (same_input public_input input) merge_input_mismatch
    next_index ← checked (uint64.add output.index 1)
    witness ←
        prefixed_merkle_witness o trees.staking_height
          (context.get_staking_witness store next_index)
    let root = calculate_root o witness (account_leaf o (empty_account o)) trees.staking_prefixes
    require (equals root input.staking_ledger_root) staking_root_mismatch
    require (equals (calculate_index o witness) (of_nat next_index)) staking_index_mismatch
    ok (record output { exhausted = true })
