-- ===== src/VoteReducer/Merge/Joined.antt =====
-- What a merge of two proofs has checked.
use decentralised_treasury.Prelude.{◌+◌, ◌^◌, ◌<◌, ◌≡◌, inl, inr, Bool, true, ◌||◌, arith}
use decentralised_treasury.Circuit.{O1js, ok, Result-cases}
use decentralised_treasury.VoteReducer.Types.{
  ActionState, ActionStateHistory, VoteReducerPublicInput, VoteReducerPublicOutput,
  public_input_fields,
}
use decentralised_treasury.VoteReducer.Merge.{
  VoteReducerProof, merge_action_state, merge_history, merge,
}

module _ (o : O1js) where
  open o use {Field, equals, poseidon_hash, uint64}

  -- The second proof goes on where the first one ends, over the same voting ledger.
  pub record Joined (input : VoteReducerPublicInput o) (first second : VoteReducerProof o)
      : Type 0 where
    pub same_input :
        poseidon_hash (public_input_fields o input)
        ≡ poseidon_hash (public_input_fields o first.public_input)
    pub same_ledger : first.public_input.voting_ledger_root ≡ second.public_input.voting_ledger_root
    pub actions : first.public_output.to_actions_hash ≡ second.public_input.from_actions_hash
    pub nullifiers : first.public_output.to_nullifier_root ≡ second.public_input.from_nullifier_root

  -- The merged state keeps the hash and is found where one of the two was.
  abbrev pub FoundEither : ActionState o → ActionState o → ActionState o → Type 0
  FoundEither a b c = (a.hash ≡ b.hash) × (c.hash ≡ a.hash) × (c.found ≡ (a.found || b.found))

  merge_history_inv :
      (a b : ActionStateHistory o) {c : ActionStateHistory o}
      → merge_history o a b ≡ ok c
      → FoundEither a.action_state_one b.action_state_one c.action_state_one
        × FoundEither a.action_state_two b.action_state_two c.action_state_two
        × FoundEither a.action_state_three b.action_state_three c.action_state_three
        × FoundEither a.action_state_four b.action_state_four c.action_state_four
        × FoundEither a.action_state_five b.action_state_five c.action_state_five
  unfolding merge_history merge_action_state
  merge_history_inv a b h = ground (
    arith,
    (o.equals_iff a.action_state_one.hash b.action_state_one.hash).0,
    (o.equals_iff a.action_state_two.hash b.action_state_two.hash).0,
    (o.equals_iff a.action_state_three.hash b.action_state_three.hash).0,
    (o.equals_iff a.action_state_four.hash b.action_state_four.hash).0,
    (o.equals_iff a.action_state_five.hash b.action_state_five.hash).0,
  )

  -- A merge that goes through has verified both proofs. The second one goes on with the actions and
  -- the nullifiers where the first one ends, over the same voting ledger, and the public input is
  -- that of the first by its hash. The output ends where the second one ends, its tallies are the
  -- sums, which fit in 64 bits, and an action state is found where one of the two has found it.
  pub merge_sound :
      (verify : VoteReducerProof o → Bool) (input : VoteReducerPublicInput o)
      (first second : VoteReducerProof o) {out : VoteReducerPublicOutput o}
      → merge o verify input first second ≡ ok out
      → (verify first ≡ true)
        × (verify second ≡ true)
        × Joined input first second
        × (out.to_actions_hash ≡ second.public_output.to_actions_hash)
        × (out.to_nullifier_root ≡ second.public_output.to_nullifier_root)
        × (out.yay ≡ first.public_output.yay + second.public_output.yay)
        × (out.nay ≡ first.public_output.nay + second.public_output.nay)
        × (out.abstain ≡ first.public_output.abstain + second.public_output.abstain)
        × (out.yay < 2 ^ 64)
        × (out.nay < 2 ^ 64)
        × (out.abstain < 2 ^ 64)
        × FoundEither first.public_output.action_state_history.action_state_one
            second.public_output.action_state_history.action_state_one
            out.action_state_history.action_state_one
        × FoundEither first.public_output.action_state_history.action_state_two
            second.public_output.action_state_history.action_state_two
            out.action_state_history.action_state_two
        × FoundEither first.public_output.action_state_history.action_state_three
            second.public_output.action_state_history.action_state_three
            out.action_state_history.action_state_three
        × FoundEither first.public_output.action_state_history.action_state_four
            second.public_output.action_state_history.action_state_four
            out.action_state_history.action_state_four
        × FoundEither first.public_output.action_state_history.action_state_five
            second.public_output.action_state_history.action_state_five
            out.action_state_history.action_state_five
  unfolding merge
  merge_sound verify input first second {out} h =
      let a = first.public_output in
      let b = second.public_output in
      elim (Result-cases (merge_history o a.action_state_history b.action_state_history)) [
        | inr (x, e) ↦ absurd (ground arith)
        | inl (history, e) ↦
            let (one, two, three, four, five) =
              merge_history_inv a.action_state_history b.action_state_history e in
            let i1 = first.public_input in
            let i2 = second.public_input in
            let same : out.action_state_history ≡ history = ground arith in
            (
              ground arith,
              ground arith,
              record {
                same_input = ground (
                  arith,
                  (o.equals_iff (poseidon_hash (public_input_fields o input))
                      (poseidon_hash (public_input_fields o i1))).0,
                );
                same_ledger =
                    ground (arith, (o.equals_iff i1.voting_ledger_root i2.voting_ledger_root).0);
                actions = ground (arith, (o.equals_iff a.to_actions_hash i2.from_actions_hash).0);
                nullifiers =
                    ground (arith, (o.equals_iff a.to_nullifier_root i2.from_nullifier_root).0);
              },
              ground arith,
              ground arith,
              ground (arith, uint64.add_lem a.yay b.yay),
              ground (arith, uint64.add_lem a.nay b.nay),
              ground (arith, uint64.add_lem a.abstain b.abstain),
              ground (arith, uint64.add_lem a.yay b.yay),
              ground (arith, uint64.add_lem a.nay b.nay),
              ground (arith, uint64.add_lem a.abstain b.abstain),
              rw same one,
              rw same two,
              rw same three,
              rw same four,
              rw same five,
            )
      ]
