-- ===== src/Proposal/Acceptance.antt =====
-- The acceptance arithmetic of the proposal contract, in 96-bit integers: `minUInt96`,
-- `calculateAcceptanceCriteria` and `calculateApprovalStatus`.
pub mod Criteria
pub mod Approval
mod Tests
use decentralised_treasury.Prelude.{ℕ, Bool, ◌&&◌, if◌then◌else◌, ltb, leb}
use decentralised_treasury.Circuit.{UInt, Result, ok, ◌>>=◌, checked}
use decentralised_treasury.Constants.{
  basis_points, min_participation_bp, min_approval_bp, max_participation_bp, max_approval_bp,
  curve_constant_participation_bp, curve_constant_approval_bp,
}

-- `ProposalStatus`
pub data ProposalStatus : Type 0 where
  unknown approved rejected paused : ProposalStatus

pub record AcceptanceCriteria : Type 0 where
  pub required_participation_bp : ℕ
  pub required_approval_bp : ℕ
  pub required_participation : ℕ

pub record ApprovalStatus : Type 0 where
  pub total_participating_votes : ℕ
  pub required_participation : ℕ
  pub participation_met : Bool
  pub total_votes : ℕ
  pub has_approval_votes : Bool
  pub approval_bp : ℕ
  pub approved : Bool
  pub vote_result : ProposalStatus

pub min_uint96 : ℕ → ℕ → ℕ
min_uint96 a b = if ltb a b then a else b

module _ (u : UInt 96) where
  -- ratio / (ratio + c * (1 - ratio)), in basis points
  pub curve_bp : ℕ → ℕ → Result ℕ
  curve_bp c ratio_bp = do
    rest ← checked (u.sub basis_points ratio_bp)
    scaled ← checked (u.mul c rest)
    part ← checked (u.div scaled basis_points)
    denominator ← checked (u.add ratio_bp part)
    numerator ← checked (u.mul ratio_bp basis_points)
    checked (u.div numerator denominator)

  -- the point of the curve between two thresholds
  pub threshold_bp : ℕ → ℕ → ℕ → Result ℕ
  threshold_bp low high curve = do
    width ← checked (u.sub high low)
    scaled ← checked (u.mul width curve)
    part ← checked (u.div scaled basis_points)
    checked (u.add low part)

  unfoldable pub calculate_acceptance_criteria : ℕ → ℕ → ℕ → Result AcceptanceCriteria
  unfolding min_uint96 curve_bp threshold_bp
  calculate_acceptance_criteria proposal_amount treasury_balance total_currency = do
    scaled ← checked (u.mul proposal_amount basis_points)
    ratio ← checked (u.div scaled treasury_balance)
    let ratio_bp = min_uint96 ratio basis_points
    participation_curve ← curve_bp curve_constant_participation_bp ratio_bp
    approval_curve ← curve_bp curve_constant_approval_bp ratio_bp
    participation ← threshold_bp min_participation_bp max_participation_bp participation_curve
    approval ← threshold_bp min_approval_bp max_approval_bp approval_curve
    weighted ← checked (u.mul total_currency participation)
    required ← checked (u.div weighted basis_points)
    ok (record {
      required_participation_bp = participation;
      required_approval_bp = approval;
      required_participation = required;
    })

  unfoldable pub calculate_approval_status : ℕ → ℕ → ℕ → ℕ → ℕ → Result ApprovalStatus
  calculate_approval_status yay nay abstain required_participation required_approval_bp = do
    decided ← checked (u.add yay nay)
    participating ← checked (u.add decided abstain)
    let participation_met = leb required_participation participating
    total_votes ← checked (u.add yay nay)
    let has_approval_votes = ltb 0 total_votes
    let safe_total_votes = if has_approval_votes then total_votes else 1
    scaled ← checked (u.mul yay basis_points)
    approval_bp ← checked (u.div scaled safe_total_votes)
    let approved = participation_met && has_approval_votes && leb required_approval_bp approval_bp
    ok (record {
      total_participating_votes = participating;
      required_participation = required_participation;
      participation_met = participation_met;
      total_votes = total_votes;
      has_approval_votes = has_approval_votes;
      approval_bp = approval_bp;
      approved = approved;
      vote_result = if approved then ProposalStatus.approved else ProposalStatus.rejected;
    })
