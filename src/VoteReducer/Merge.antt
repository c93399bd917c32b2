-- ===== src/VoteReducer/Merge.antt =====
-- `VoteReducer.merge`.
pub mod Joined
use decentralised_treasury.Prelude.{Bool, if◌then◌else◌}
use decentralised_treasury.Circuit.{
  O1js, Result, ok, ◌>>=◌, ◌>>◌, require, checked, proof_not_verified, merge_input_mismatch,
  merge_voting_root_mismatch, merge_actions_mismatch, merge_nullifier_mismatch,
  merge_history_mismatch,
}
use decentralised_treasury.VoteReducer.Types.{
  ActionState, ActionStateHistory, VoteReducerPublicInput, VoteReducerPublicOutput,
  public_input_fields,
}

module _ (o : O1js) where
  open o use {equals, poseidon_hash, uint64}

  pub record VoteReducerProof : Type 0 where
    pub public_input : VoteReducerPublicInput o
    pub public_output : VoteReducerPublicOutput o

  -- The older flag where it is set, the newer one otherwise; the two hashes must agree.
  unfoldable pub merge_action_state : ActionState o → ActionState o → Result (ActionState o)
  merge_action_state a b = do
    require (equals a.hash b.hash) merge_history_mismatch
    ok (record a { found = if a.found then a.found else b.found })

  unfoldable pub merge_history :
      ActionStateHistory o → ActionStateHistory o → Result (ActionStateHistory o)
  unfolding merge_action_state
  merge_history a b = do
    one ← merge_action_state a.action_state_one b.action_state_one
    two ← merge_action_state a.action_state_two b.action_state_two
    three ← merge_action_state a.action_state_three b.action_state_three
    four ← merge_action_state a.action_state_four b.action_state_four
    five ← merge_action_state a.action_state_five b.action_state_five
    ok (record {
      action_state_one = one;
      action_state_two = two;
      action_state_three = three;
      action_state_four = four;
      action_state_five = five;
    })

  -- `verify` is the verification of a proof of this program.
  unfoldable pub merge :
      (VoteReducerProof → Bool)
      → VoteReducerPublicInput o
      → VoteReducerProof
      → VoteReducerProof
      → Result (VoteReducerPublicOutput o)
  merge verify public_input proof1 proof2 = do
    require (verify proof1) proof_not_verified
    require (verify proof2) proof_not_verified
    let input1 = proof1.public_input
    let output1 = proof1.public_output
    let input2 = proof2.public_input
    let output2 = proof2.public_output
    require
        (equals (poseidon_hash (public_input_fields o public_input))
          (poseidon_hash (public_input_fields o input1)))
        merge_input_mismatch
    require (equals input1.voting_ledger_root input2.voting_ledger_root) merge_voting_root_mismatch
    require (equals output1.to_actions_hash input2.from_actions_hash) merge_actions_mismatch
    require (equals output1.to_nullifier_root input2.from_nullifier_root) merge_nullifier_mismatch
    history ← merge_history output1.action_state_history output2.action_state_history
    yay ← checked (uint64.add output1.yay output2.yay)
    nay ← checked (uint64.add output1.nay output2.nay)
    abstain ← checked (uint64.add output1.abstain output2.abstain)
    ok (record {
      to_actions_hash = output2.to_actions_hash;
      to_nullifier_root = output2.to_nullifier_root;
      yay = yay;
      nay = nay;
      abstain = abstain;
      action_state_history = history;
    })
