-- ===== src/Proposal/Acceptance/Tests.antt =====
-- The acceptance arithmetic at concrete amounts and votes.
use decentralised_treasury.Prelude.{◌+◌, ◌*◌, ◌/◌, ◌≤◌, ◌<◌, ◌≡◌, ◌↔◌, ◌⊎◌, refl, true, arith}
use decentralised_treasury.Circuit.{ok}
use decentralised_treasury.Circuit.Sample.{sample_uint}
use decentralised_treasury.Constants.{
  basis_points, min_participation_bp, max_participation_bp, min_approval_bp, max_approval_bp,
}
use decentralised_treasury.Proposal.Acceptance.{
  AcceptanceCriteria, ApprovalStatus, ProposalStatus, calculate_acceptance_criteria,
  calculate_approval_status,
}
use decentralised_treasury.Proposal.Acceptance.Criteria.{criteria_within_bounds, criteria_mono}
use decentralised_treasury.Proposal.Acceptance.Approval.{approval_decides, approved-majority}

-- A proposal for a tenth of the treasury.
tenth :
    calculate_acceptance_criteria (sample_uint 96) 100 1000 4000
    ≡ ok (record {
      required_participation_bp = 4068;
      required_approval_bp = 6099;
      required_participation = 1627;
    })
unfolding calculate_acceptance_criteria
tenth = refl

criteria_within_bounds_example :
    (c : AcceptanceCriteria) × (calculate_acceptance_criteria (sample_uint 96) 100 1000 4000 ≡ ok c)
    × (min_participation_bp ≤ c.required_participation_bp)
    × (c.required_participation_bp ≤ max_participation_bp)
    × (min_approval_bp ≤ c.required_approval_bp)
    × (c.required_approval_bp ≤ max_approval_bp)
    × (c.required_participation ≡ 4000 * c.required_participation_bp / basis_points)
    × (c.required_participation ≤ 4000 / 2)
criteria_within_bounds_example =
    criteria_within_bounds (sample_uint 96) 100 1000 4000 (omega arith) (omega arith) (omega arith)

criteria_mono_example :
    (c d : AcceptanceCriteria) × (calculate_acceptance_criteria (sample_uint 96) 100 1000 4000
      ≡ ok c)
    × (calculate_acceptance_criteria (sample_uint 96) 200 1000 4000 ≡ ok d)
    × (c.required_participation_bp ≤ d.required_participation_bp)
    × (c.required_approval_bp ≤ d.required_approval_bp)
    × (c.required_participation ≤ d.required_participation)
criteria_mono_example =
    criteria_mono (sample_uint 96) 100 200 1000 4000 (omega arith) (omega arith) (omega arith)
      (omega arith)

-- 600 against 300 with 100 abstentions.
approval_decides_example :
    (s : ApprovalStatus) × (calculate_approval_status (sample_uint 96) 600 300 100 900 6000 ≡ ok s)
    × ((s.vote_result ≡ ProposalStatus.approved)
        ↔ ((900 ≤ 600 + 300 + 100) × (0 < 600 + 300) × (6000 * (600 + 300) ≤ 600 * basis_points)))
    × ((s.vote_result ≡ ProposalStatus.approved) ⊎ (s.vote_result ≡ ProposalStatus.rejected))
    × ((s.participation_met ≡ true) ↔ (900 ≤ 600 + 300 + 100))
    × ((s.has_approval_votes ≡ true) ↔ (0 < 600 + 300))
approval_decides_example =
    approval_decides (sample_uint 96) 600 300 100 900 6000 (omega arith) (omega arith) (omega arith)

abbrev winning : ApprovalStatus
winning = record {
  total_participating_votes = 1000;
  required_participation = 900;
  participation_met = true;
  total_votes = 900;
  has_approval_votes = true;
  approval_bp = 6666;
  approved = true;
  vote_result = ProposalStatus.approved;
}

counts : calculate_approval_status (sample_uint 96) 600 300 100 900 6000 ≡ ok winning
unfolding calculate_approval_status
counts = refl

approved-majority_example : 300 < 600
approved-majority_example =
    approved-majority (sample_uint 96) 600 300 100 900 6000 (omega arith) (omega arith)
      (omega arith) (omega arith) counts refl
