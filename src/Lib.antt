-- ===== src/Lib.antt =====
-- Decentralised treasury: a verification library for the contracts and the programs of
-- packages/sdk/src/provable, the merging of their proofs (packages/sdk/src/proving/prover), the
-- indexer of their events (packages/indexer/src) and the processor of these (packages/processor/src).
--
-- The treasury is a contract that holds the funds (treasury-owner.ts). Anyone may propose a payment
-- against a bond; each proposal is a contract of its own (treasury-proposal.ts). Voters dispatch
-- actions to it during the voting period of its lifecycle. Afterwards two recursive programs prove
-- the tally: staking-ledger-to-voting-ledger.ts turns the staking ledger into the delegates' voting
-- weights, and vote-reducer.ts counts the actions against those weights, with a nullifier for each
-- voter. The proposal checks the two proofs against one another and decides. An approved proposal
-- is paid out by the owner, in parts if need be, up to the amount with its bond. A controller with
-- a multisignature of three out of five pauses the treasury or a single proposal.
--
-- Off the chain, the provers digest and reduce in batches and merge the proofs of the batches, in the
-- order in which they become ready, into one. The indexer polls the archive for the contracts' events
-- and keeps a row for each, which turns canonical once its block does. The processor takes the rows
-- from the indexer's API in the order of their versions and hands each to its handlers, with retries.
--
-- Files, with paths below packages/sdk/src unless they are said to start at the root:
-- - Prelude: shared names, Boolean tests on numbers, lists.
-- - Circuit: what the code takes from o1js, as parameters: unsigned integers whose operations fail
--   when the result does not fit, field elements, hashes, keys and signatures, each with its
--   documented laws. Circuit/Errors: the reasons for a rejection, and the monad of code that may
--   reject. Circuit/Sample, Circuit/Integers and Circuit/Lawful: instances for the tests, the last
--   one with the laws of a field and hashes free of collisions.
-- - Constants: provable/contracts/treasury-constants.ts and utils/proposal-amount.ts.
-- - Hashing: provable/hashing-helpers.ts. Ledgers: the prefixes of the trees of
--   ledgers/*/*-ledger.ts, generated by level as the lists of the source spell them.
-- - Merkle: the witnesses of provable/merkle-tree/prefixed-merkle-tree.ts (calculateRoot,
--   calculateIndex, conditionalSwap), and the complete tree that a root stands for. Merkle/Tree: the
--   stored tree of the same file (setLeaf, getWitness, fill), in Merkle/Tree/Represents and
--   Merkle/Tree/Fill against the complete tree.
-- - Account: provable/account.ts, the hash input of an account and packToFields.
-- - VoteReducer: provable/contracts/treasury-proposal/vote-reducer.ts. Types: the structs; Batch:
--   reduceBatch, one function per round of the loop, and in Batch/History the action states that it
--   passes; Merge: merge, and in Merge/Joined what two merged proofs have in common; Ballots: the
--   count without trees and hashes; Refinement: what the opened leaves say of the weights and the
--   voters, and in Refinement/Count the rounds of a batch.
-- - StakingToVoting: provable/staking-ledger-to-voting-ledger.ts (digest, merge, exhaust), and in
--   Digest/Opened and Digest/Weights what a digest says of the two ledgers.
-- - PauseController: provable/contracts/treasury-pause-controller.
-- - Proposal: provable/contracts/treasury-proposal/treasury-proposal.ts. Acceptance: the acceptance
--   arithmetic; Payout: payouts and pauses over histories; Tally: the checks of a tally.
-- - Owner: provable/contracts/treasury-owner.ts. Lifecycle: the windows of slots; Methods: the
--   methods on a world of the owner's account, the controller and the proposals; Permissions: what a
--   deployment permits; Methods/Withdrawal: emergencyWithdraw of
--   services/sqlite/sqlite-treasury-owner-service.ts, a debit that the owner's key signs; Methods/Guards:
--   the calls of all of these; Methods/Inversions: what each has checked; Methods/Totals and
--   Methods/Funds: the balance over their histories.
-- - Processor: packages/processor/src, from the repository's root. Types: the rows of the database;
--   Router: router.ts; Attempt: the transactions of events-processor.ts; Passing: the retries of an
--   event; Page: a page of events; Blocked: blocked failures and their successors; Cycle: a round;
--   History: any order of the transactions of several processors, and in History/Pages and
--   History/Rounds a page and a round as such a history.
-- - Proving: proving/prover. Finder: the search for two proofs to merge; Orchestrator:
--   merge-proof-orchestrator.ts as a step relation, with the events in any order; what the queue or
--   the storage answers for a pair is a parameter. As in the source, a call may end once nothing is
--   running, whether or not a pump is due.
-- - Indexer: packages/indexer/src, from the repository's root. Rows: the rows of events-repository.ts
--   and their updates; Ingest: its transactions; Sync: the polls of events-indexer.ts.
--
-- A method is a function from the state to a new state or the reason of a rejection. A transaction
-- is atomic, so a rejection anywhere leaves every account as it was. The network's part of a
-- transaction (the slot, the staking epoch data, who has signed, which action states an account
-- has had) is an argument. Witnesses that the prover supplies are arguments as well, with no
-- assumption on them. Loops run over lists or over the attempts that are left, and a batch has the
-- length of its list. The writes of the processor and the indexer are transactions on a store; the
-- clock, failures of the database and the answers of other services are arguments. Two loops are on
-- fuel: the scan over the API's pages, for which it is enough when it exceeds the distance from the
-- cursor to the highest cursor of the API, and the canonical poll, for which it is enough when it
-- exceeds the heights left to poll.
--
-- Not modelled: proving and the verification of proofs, which is a parameter of the contracts that
-- verify; calls of a proposal's methods below an update of the owner that its key signs; the ledger
-- classes and their storage; the writes to the storage of proofs and traces; the semaphore and the
-- bounded loop of utils/concurrency.ts; the normalization of archive observations, the rejections and
-- the read API of the indexer; the start and the stop of the processor and the indexer; other services,
-- workers, the API, the user interfaces and the deployment scripts.
pub mod Prelude
pub mod Circuit
pub mod Constants
pub mod Hashing
pub mod Ledgers
pub mod Merkle
pub mod Account
pub mod VoteReducer
pub mod StakingToVoting
pub mod PauseController
pub mod Proposal
pub mod Owner
pub mod Processor
pub mod Proving
pub mod Indexer
