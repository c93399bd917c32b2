-- ===== src/Constants.antt =====
-- packages/sdk/src/provable/contracts/treasury-constants.ts and
-- packages/sdk/src/utils/proposal-amount.ts. Amounts are in nanomina, ratios in basis points.
use decentralised_treasury.Prelude.{ℕ, ◌*◌}

abbrev pub bond_amount_divisor : ℕ
bond_amount_divisor = 10

abbrev pub min_proposal_amount : ℕ
min_proposal_amount = 1000000000 * bond_amount_divisor

abbrev pub basis_points : ℕ
basis_points = 10000

abbrev pub min_participation_bp : ℕ
min_participation_bp = 2000

abbrev pub min_approval_bp : ℕ
min_approval_bp = 5100

abbrev pub max_participation_bp : ℕ
max_participation_bp = 5000

abbrev pub max_approval_bp : ℕ
max_approval_bp = 7000

abbrev pub curve_constant_participation_bp : ℕ
curve_constant_participation_bp = 500

abbrev pub curve_constant_approval_bp : ℕ
curve_constant_approval_bp = 1000
