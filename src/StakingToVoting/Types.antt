-- ===== src/StakingToVoting/Types.antt =====
-- The public input and output of the program, and the ledgers that the prover reads.
use decentralised_treasury.Prelude.{ℕ, List, [], ◌∷◌, String, Bool}
use decentralised_treasury.Circuit.{O1js}
use decentralised_treasury.Ledgers.{
  account_ledger_hash_prefixes, voting_account_ledger_hash_prefixes,
}
use decentralised_treasury.Merkle.Witness.{Witness}
use decentralised_treasury.VoteReducer.Types.{VotingAccount}

-- `ACCOUNT_BATCH_SIZE`
abbrev pub account_batch_size : ℕ
account_batch_size = 5

module _ (o : O1js) where
  open o use {Field, of_nat, PublicKey}

  pub record ProgramInput : Type 0 where
    pub index : ℕ
    pub staking_ledger_root : Field
    pub voting_ledger_root : Field

  pub record ProgramOutput : Type 0 where
    pub index : ℕ
    pub voting_ledger_root : Field
    pub exhausted : Bool

  pub record LedgerProof : Type 0 where
    pub public_input : ProgramInput
    pub public_output : ProgramOutput

  -- `StakingLedgerToVotingLedgerProgramInput.toFields`
  unfoldable pub program_input_fields : ProgramInput → List Field
  program_input_fields i = of_nat i.index ∷ i.staking_ledger_root ∷ i.voting_ledger_root ∷ []

  -- `StakingLedgerToVotingLedgerContext`: the circuit trusts none of the answers.
  pub record LedgersContext : Type 1 where
    pub Store : Type 0
    pub get_staking_witness : Store → ℕ → Witness o
    pub get_voting_account : Store → PublicKey → VotingAccount
    pub get_voting_witness : Store → PublicKey → Witness o
    pub set_voting_account : Store → PublicKey → VotingAccount → Store
    pub set_voting_leaf : Store → PublicKey → VotingAccount → Store

-- The shape of the two trees: `PrefixedMerkleWitness36` and `PrefixedMerkleWitness255`.
pub record LedgerTrees : Type 0 where
  pub staking_height : ℕ
  pub staking_prefixes : List String
  pub voting_height : ℕ
  pub voting_prefixes : List String

pub ledger_trees : LedgerTrees
ledger_trees = record {
  staking_height = 36;
  staking_prefixes = account_ledger_hash_prefixes;
  voting_height = 255;
  voting_prefixes = voting_account_ledger_hash_prefixes;
}
