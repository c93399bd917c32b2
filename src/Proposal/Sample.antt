-- ===== src/Proposal/Sample.antt =====
-- A proposal with the proofs of a tally that goes through, for the tests.
use decentralised_treasury.Prelude.{ℕ, ◌≡◌, refl, [], true, false, eq→==}
use decentralised_treasury.Circuit.{ok}
use decentralised_treasury.Circuit.Sample.{sample_o1js}
use decentralised_treasury.Proposal.Acceptance.{
  ProposalStatus, calculate_acceptance_criteria, calculate_approval_status,
}
use decentralised_treasury.Proposal.{
  ProposalState, ProposalSettings, is_paused, require_not_paused, is_unknown, check_proofs,
  check_owner_account, decide, tally_votes,
}
use decentralised_treasury.Account.{Account, account_leaf, permission_none, permission_signature}
use decentralised_treasury.Merkle.Witness.{calculate_root}
use decentralised_treasury.VoteReducer.Types.{ActionState}
use decentralised_treasury.VoteReducer.Merge.{VoteReducerProof}
use decentralised_treasury.StakingToVoting.Types.{LedgerProof}

abbrev pub settings : ProposalSettings sample_o1js
settings = record {
  verify_vote_reducer = λ proof. true;
  verify_ledger = λ proof. true;
  empty_nullifier_root = 21;
  empty_voting_ledger_root = 22;
}

-- A vote of 600 against 300 in a treasury of 1000, with the owner's account as the only leaf.
abbrev pub owner_account : Account sample_o1js
owner_account = record {
  pk = 8;
  token_id = 1;
  token_symbol = 0;
  balance = 1000;
  nonce = 0;
  receipt_chain_hash = 0;
  delegate = 8;
  voting_for = 0;
  timing = record {
    is_timed = false;
    initial_minimum_balance = 0;
    cliff_time = 0;
    cliff_amount = 0;
    vesting_period = 1;
    vesting_increment = 0;
  };
  permissions = record {
    edit_state = permission_signature;
    send = permission_signature;
    receive = permission_none;
    access = permission_none;
    set_delegate = permission_signature;
    set_permissions = permission_signature;
    set_verification_key = (permission_signature, 4);
    set_zkapp_uri = permission_signature;
    edit_action_state = permission_signature;
    set_token_symbol = permission_signature;
    increment_nonce = permission_signature;
    set_voting_for = permission_signature;
    set_timing = permission_signature;
  };
  zkapp = record {
    app_state = [];
    verification_key_hash = 0;
    zkapp_version = 0;
    action_state = [];
    last_action_slot = 0;
    proved_state = false;
    zkapp_uri = 0;
  };
}

abbrev pub proposed : ProposalState sample_o1js
proposed = record {
  recipient_hash = 40;
  amount = 100;
  lifecycle_id = 2;
  staking_epoch_data_ledger_hash = account_leaf sample_o1js owner_account;
  total_currency = 2000;
  status = ProposalStatus.unknown;
  paid_out_amount = 0;
  pause_nonce = 0;
  actions = [];
}

abbrev pub found_state : ℕ → ActionState sample_o1js
found_state hash = record { hash = hash; found = true }

abbrev pub vote_proof : VoteReducerProof sample_o1js
vote_proof = record {
  public_input = record {
    from_actions_hash = 11;
    voting_ledger_root = 33;
    from_nullifier_root = 21;
    action_state_history_target = record {
      action_state_one = 51;
      action_state_two = 52;
      action_state_three = 53;
      action_state_four = 54;
      action_state_five = 55;
    };
  };
  public_output = record {
    to_actions_hash = 51;
    to_nullifier_root = 34;
    yay = 600;
    nay = 300;
    abstain = 0;
    action_state_history = record {
      action_state_one = found_state 51;
      action_state_two = found_state 52;
      action_state_three = found_state 53;
      action_state_four = found_state 54;
      action_state_five = found_state 55;
    };
  };
}

abbrev pub ledger_proof : LedgerProof sample_o1js
ledger_proof = record {
  public_input = record {
    index = 0;
    staking_ledger_root = account_leaf sample_o1js owner_account;
    voting_ledger_root = 22;
  };
  public_output = record { index = 5; voting_ledger_root = 33; exhausted = true };
}

pub tallying :
    tally_votes sample_o1js settings proposed vote_proof ledger_proof 8 owner_account []
    ≡ ok (record proposed { status = ProposalStatus.approved }, ProposalStatus.approved)
unfolding tally_votes is_paused is_unknown require_not_paused check_proofs check_owner_account
    decide calculate_root calculate_acceptance_criteria calculate_approval_status
tallying = let leaf = account_leaf sample_o1js owner_account in rw (eq→== leaf leaf refl) refl
