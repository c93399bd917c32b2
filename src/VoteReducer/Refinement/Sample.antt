-- ===== src/VoteReducer/Refinement/Sample.antt =====
-- Hashes free of collisions, for the tests.
use decentralised_treasury.Prelude.{◌≡◌, refl, Bool, true, false, arith}
use decentralised_treasury.Circuit.Integers.{pair-injective}
use decentralised_treasury.Circuit.Lawful.{lawful_o1js}
use decentralised_treasury.Hashing.{hash_with_prefix}
use decentralised_treasury.Merkle.Witness.{hash_pair, bool_to_field}
use decentralised_treasury.Merkle.Complete.{CollisionFree}
use decentralised_treasury.VoteReducer.Types.{voting_leaf, nullifier_leaf}
use decentralised_treasury.VoteReducer.Refinement.{LeafCollisionFree}

pub pairs_collision_free : CollisionFree lawful_o1js
unfolding hash_pair
pairs_collision_free prefix a b c d h = pair-injective a b c d h

same_bit : (a b : Bool) → nullifier_leaf lawful_o1js a ≡ nullifier_leaf lawful_o1js b → a ≡ b
unfolding nullifier_leaf hash_with_prefix bool_to_field
same_bit true true h = refl
same_bit true false h = absurd (ground arith)
same_bit false true h = absurd (ground arith)
same_bit false false h = refl

pub leaves_collision_free : LeafCollisionFree lawful_o1js
unfolding voting_leaf hash_with_prefix
leaves_collision_free = record {
  voting = λ a b h. ground arith;
  nullifier = same_bit;
  key = λ j k h. ground arith;
}
