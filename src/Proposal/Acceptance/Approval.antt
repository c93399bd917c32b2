-- ===== src/Proposal/Acceptance/Approval.antt =====
-- When a tally approves a proposal.
use native.Mathlib.Nat.{le-div_iff_mul-le, mul-le-mul_right}
use decentralised_treasury.Prelude.{
  ℕ, ◌+◌, ◌*◌, ◌/◌, ◌^◌, ◌≤◌, ◌<◌, ◌≡◌, ◌↔◌, ◌⊎◌, Bool, true, ◌&&◌, arith, if◌then◌else◌, ltb, leb,
}
use decentralised_treasury.Circuit.{UInt, ok, add_ok, mul_ok, div_ok}
use decentralised_treasury.Constants.{basis_points, min_approval_bp}
use decentralised_treasury.Proposal.Acceptance.{
  ApprovalStatus, ProposalStatus, calculate_approval_status,
}

safe_total : ℕ → ℕ
safe_total n = if ltb 0 n then n else 1

safe_total_pos : (n : ℕ) → 0 < safe_total n
unfolding safe_total
safe_total_pos n = ground arith

safe_total_lem : (n : ℕ) → 0 < n → safe_total n ≡ n
unfolding safe_total
safe_total_lem n h = ground arith

verdict : ℕ → ℕ → ℕ → ℕ → ℕ → Bool
unfolding safe_total
verdict yay nay abstain required bp =
    leb required (yay + nay + abstain)
    && ltb 0 (yay + nay)
    && leb bp (yay * basis_points / safe_total (yay + nay))

-- The result as plain arithmetic.
status_of : ℕ → ℕ → ℕ → ℕ → ℕ → ApprovalStatus
unfolding verdict
status_of yay nay abstain required bp = record {
  total_participating_votes = yay + nay + abstain;
  required_participation = required;
  participation_met = leb required (yay + nay + abstain);
  total_votes = yay + nay;
  has_approval_votes = ltb 0 (yay + nay);
  approval_bp = yay * basis_points / safe_total (yay + nay);
  approved = verdict yay nay abstain required bp;
  vote_result =
      if verdict yay nay abstain required bp
      then ProposalStatus.approved
      else ProposalStatus.rejected;
}

-- The share is reached exactly when it is reached across.
share_iff :
    (yay nay bp : ℕ)
    → 0 < yay + nay
    → (bp ≤ yay * basis_points / safe_total (yay + nay)) ↔ (bp * (yay + nay) ≤ yay * basis_points)
share_iff yay nay bp h = rw (safe_total_lem (yay + nay) h) (le-div_iff_mul-le h)

verdict_iff :
    (yay nay abstain required bp : ℕ)
    → (verdict yay nay abstain required bp ≡ true) ↔ (
        (required ≤ yay + nay + abstain)
        × (0 < yay + nay)
        × (bp * (yay + nay) ≤ yay * basis_points))
unfolding verdict
verdict_iff yay nay abstain required bp = (
  (λ h. ground (arith, (share_iff yay nay bp (ground arith)).0)),
  (λ h. ground (arith, (share_iff yay nay bp h.1).1 h.2)),
)

module _ (u : UInt 96) (yay nay abstain required bp : ℕ) (hy : yay < 2 ^ 64) (hn : nay < 2 ^ 64)
    (ha : abstain < 2 ^ 64) where
  calculate_approval_status_lem :
      calculate_approval_status u yay nay abstain required bp
      ≡ ok (status_of yay nay abstain required bp)
  unfolding calculate_approval_status status_of
  calculate_approval_status_lem = rw (
    add_ok u yay nay (omega arith),
    add_ok u (yay + nay) abstain (omega arith),
    mul_ok u yay basis_points (omega arith),
    div_ok u (yay * basis_points) (safe_total (yay + nay)) (safe_total_pos (yay + nay)),
  )

  -- For 64-bit tallies the status is computed without overflow. The proposal is approved exactly
  -- when the participation is met, somebody voted for or against, and the votes for are at least
  -- the required share of the votes for and against; it is rejected otherwise.
  pub approval_decides :
      (s : ApprovalStatus) × (calculate_approval_status u yay nay abstain required bp ≡ ok s)
      × ((s.vote_result ≡ ProposalStatus.approved) ↔ (
          (required ≤ yay + nay + abstain)
          × (0 < yay + nay)
          × (bp * (yay + nay) ≤ yay * basis_points)))
      × ((s.vote_result ≡ ProposalStatus.approved) ⊎ (s.vote_result ≡ ProposalStatus.rejected))
      × ((s.participation_met ≡ true) ↔ (required ≤ yay + nay + abstain))
      × ((s.has_approval_votes ≡ true) ↔ (0 < yay + nay))
  unfolding status_of
  approval_decides =
      let (to, from) = verdict_iff yay nay abstain required bp in
      (
        status_of yay nay abstain required bp,
        calculate_approval_status_lem,
        ((λ h. to (ground arith)), (λ h. ground (arith, from h))),
        ground arith,
        ground arith,
        ground arith,
      )

  -- Under any threshold from 51% on, an approved proposal has more votes for than against.
  pub approved-majority :
      min_approval_bp ≤ bp
      → {s : ApprovalStatus} → calculate_approval_status u yay nay abstain required bp ≡ ok s
      → s.vote_result ≡ ProposalStatus.approved
      → nay < yay
  unfolding status_of
  approved-majority hb {s} e h =
      let t : verdict yay nay abstain required bp ≡ true =
        ground (arith, calculate_approval_status_lem) in
      let (met, some_votes, share) = (verdict_iff yay nay abstain required bp).0 t in
      let more : min_approval_bp * (yay + nay) ≤ bp * (yay + nay) =
        mul-le-mul_right (yay + nay) hb in
      omega arith
