-- ===== src/Account.antt =====
-- packages/sdk/src/provable/account.ts: the accounts of the staking ledger and their leaf hash.
pub mod Packing
mod Tests
use mathlib.Core.List.{reverse}
use decentralised_treasury.Prelude.{
  ℕ, zero, suc, Bool, true, false, List, [], ◌∷◌, ◌++◌, String, map,
}
use decentralised_treasury.Circuit.{O1js}
use decentralised_treasury.Hashing.{hash_with_prefix}
use decentralised_treasury.Merkle.Witness.{bool_to_field}
use Packing.{RandomOracleInput, append, append_all, field, packed, pack_to_fields}

abbrev pub zkapp_account_hash_prefix : String
zkapp_account_hash_prefix = "MinaZkappAccount****"

-- `accountHashPrefix` of packages/sdk/src/ledgers/staking-ledger/staking-ledger.ts
abbrev pub account_hash_prefix : String
account_hash_prefix = "MinaAccount*********"

abbrev pub empty_zkapp_uri_hash : ℕ
empty_zkapp_uri_hash = 20639848968581348850513072699760590695338607317404146322838943866773129280073

pub record Timing : Type 0 where
  pub is_timed : Bool
  pub initial_minimum_balance : ℕ
  pub cliff_time : ℕ
  pub cliff_amount : ℕ
  pub vesting_period : ℕ
  pub vesting_increment : ℕ

pub record Permission : Type 0 where
  pub constant : Bool
  pub signature_necessary : Bool
  pub signature_sufficient : Bool

abbrev pub permission_none : Permission
permission_none = record {
  constant = true;
  signature_necessary = false;
  signature_sufficient = true;
}

abbrev pub permission_signature : Permission
permission_signature = record {
  constant = false;
  signature_necessary = true;
  signature_sufficient = true;
}

pub record Permissions : Type 0 where
  pub edit_state : Permission
  pub send : Permission
  pub receive : Permission
  pub access : Permission
  pub set_delegate : Permission
  pub set_permissions : Permission
  pub set_verification_key : Permission × ℕ
  pub set_zkapp_uri : Permission
  pub edit_action_state : Permission
  pub set_token_symbol : Permission
  pub increment_nonce : Permission
  pub set_voting_for : Permission
  pub set_timing : Permission

module _ (o : O1js) where
  open o use {
    Field, of_nat, PublicKey, key_x, key_is_odd, empty_key, initial_action_state, token_from_base58,
    receipt_chain_hash_from_base58, state_hash_from_base58, empty_token_symbol,
    dummy_verification_key_hash,
  }

  -- `verificationKey` is read by its hash alone.
  pub record Zkapp : Type 0 where
    pub app_state : List Field
    pub verification_key_hash : Field
    pub zkapp_version : Field
    pub action_state : List Field
    pub last_action_slot : Field
    pub proved_state : Bool
    pub zkapp_uri : Field

  -- `tokenSymbol` is read by its field alone.
  pub record Account : Type 0 where
    pub pk : PublicKey
    pub token_id : Field
    pub token_symbol : Field
    pub balance : ℕ
    pub nonce : ℕ
    pub receipt_chain_hash : Field
    pub delegate : PublicKey
    pub voting_for : Field
    pub timing : Timing
    pub permissions : Permissions
    pub zkapp : Zkapp

  timing_hash_input : Timing → RandomOracleInput o
  timing_hash_input t = append_all o (
      packed o (bool_to_field o t.is_timed) 1
      ∷ packed o (of_nat t.initial_minimum_balance) 64
      ∷ packed o (of_nat t.cliff_time) 32
      ∷ packed o (of_nat t.cliff_amount) 64
      ∷ packed o (of_nat t.vesting_period) 32
      ∷ packed o (of_nat t.vesting_increment) 64
      ∷ [])

  permission_hash_input : Permission → RandomOracleInput o
  permission_hash_input p = append_all o (
      packed o (bool_to_field o p.constant) 1
      ∷ packed o (bool_to_field o p.signature_necessary) 1
      ∷ packed o (bool_to_field o p.signature_sufficient) 1
      ∷ [])

  permissions_hash_input : Permissions → RandomOracleInput o
  unfolding permission_hash_input
  permissions_hash_input p = append_all o (
      permission_hash_input p.edit_state
      ∷ permission_hash_input p.access
      ∷ permission_hash_input p.send
      ∷ permission_hash_input p.receive
      ∷ permission_hash_input p.set_delegate
      ∷ permission_hash_input p.set_permissions
      ∷ permission_hash_input p.set_verification_key.0
      ∷ packed o (of_nat p.set_verification_key.1) 32
      ∷ permission_hash_input p.set_zkapp_uri
      ∷ permission_hash_input p.edit_action_state
      ∷ permission_hash_input p.set_token_symbol
      ∷ permission_hash_input p.increment_nonce
      ∷ permission_hash_input p.set_voting_for
      ∷ permission_hash_input p.set_timing
      ∷ [])

  zkapp_hash : Zkapp → Field
  zkapp_hash z = hash_with_prefix o zkapp_account_hash_prefix (
      pack_to_fields o (
        append_all o (
          field o z.zkapp_uri
            ∷ packed o (bool_to_field o z.proved_state) 1
            ∷ packed o z.last_action_slot 32
            ∷ map (field o) z.action_state
          ++ packed o z.zkapp_version 32
            ∷ field o z.verification_key_hash
            ∷ map (field o) z.app_state)))

  key_hash_input : PublicKey → RandomOracleInput o
  key_hash_input key =
      append o (field o (key_x key)) (packed o (bool_to_field o (key_is_odd key)) 1)

  -- `Account.toHashInput`: the parts from the last to the first.
  pub account_hash_input : Account → RandomOracleInput o
  unfolding timing_hash_input permissions_hash_input zkapp_hash key_hash_input
  account_hash_input a = append_all o (
      reverse (
        key_hash_input a.pk
        ∷ field o a.token_id
        ∷ packed o a.token_symbol 48
        ∷ packed o (of_nat a.balance) 64
        ∷ packed o (of_nat a.nonce) 32
        ∷ field o a.receipt_chain_hash
        ∷ key_hash_input a.delegate
        ∷ field o a.voting_for
        ∷ timing_hash_input a.timing
        ∷ permissions_hash_input a.permissions
        ∷ field o (zkapp_hash a.zkapp)
        ∷ []))

  -- `hashWithPrefix(accountHashPrefix, packToFields(Account.toHashInput(account)))`
  pub account_leaf : Account → Field
  unfolding account_hash_input
  account_leaf a = hash_with_prefix o account_hash_prefix (pack_to_fields o (account_hash_input a))

  -- `Array.from({ length: n }, () => x)`
  filled : ℕ → Field → List Field
  filled zero x = []
  filled (suc n) x = x ∷ filled n x

  pub empty_zkapp : Zkapp
  unfolding filled
  empty_zkapp = record {
    app_state = filled 32 (of_nat 0);
    verification_key_hash = dummy_verification_key_hash;
    zkapp_version = of_nat 0;
    action_state = filled 5 initial_action_state;
    last_action_slot = of_nat 0;
    proved_state = false;
    zkapp_uri = of_nat empty_zkapp_uri_hash;
  }

  -- `Account.empty()`
  pub empty_account : Account
  unfolding empty_zkapp
  empty_account = record {
    pk = empty_key;
    token_id = token_from_base58 "wSHV2S4qX9jFsLjQo8r1BsMLH2ZRKsZx6EJd1sbozGPieEC4Jf";
    token_symbol = empty_token_symbol;
    balance = 0;
    nonce = 0;
    receipt_chain_hash =
        receipt_chain_hash_from_base58 "2mzbV7WevxLuchs2dAMY4vQBS6XttnCUF8Hvks4XNBQ5qiSGGBQe";
    delegate = empty_key;
    voting_for = state_hash_from_base58 "3NK2tkzqqK5spR2sZ7tujjqPksL45M3UUrcA4WhCkeiPtnugyE2x";
    timing = record {
      is_timed = false;
      initial_minimum_balance = 0;
      cliff_time = 0;
      cliff_amount = 0;
      vesting_period = 1;
      vesting_increment = 0;
    };
    permissions = record {
      edit_state = permission_signature;
      send = permission_signature;
      receive = permission_none;
      access = permission_none;
      set_delegate = permission_signature;
      set_permissions = permission_signature;
      set_verification_key = (permission_signature, 4);
      set_zkapp_uri = permission_signature;
      edit_action_state = permission_signature;
      set_token_symbol = permission_signature;
      increment_nonce = permission_signature;
      set_voting_for = permission_signature;
      set_timing = permission_signature;
    };
    zkapp = empty_zkapp;
  }
