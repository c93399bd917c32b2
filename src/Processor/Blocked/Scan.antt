-- ===== src/Processor/Blocked/Scan.antt =====
-- The scan for a successor ends, and finds one exactly when a page that it can reach has one.
use decentralised_treasury.Prelude.{
  ℕ, zero, suc, ◌-◌, ◌≤◌, ◌<◌, ◌≡◌, refl, sym, ◌∙◌, ◌↔◌, inl, inr, String, Bool, true, false, some,
  leb, arith, Bool-cases, Option-cases,
}
use mathlib.Core.Path.{subst}
use mathlib.Core.Option.{some-injective}
use decentralised_treasury.Processor.Types.{ProcessorEventFailure}
use decentralised_treasury.Processor.Blocked.{Page, has_successor, scan_pages}

module _ (json_string : String → String) (fetch_page : ℕ → Page)
    (failure : ProcessorEventFailure) where
  -- The cursors that the API's answers lead to, each above the one before.
  pub data Leads : ℕ → ℕ → Type 0 where
    here : {cursor : ℕ} → Leads cursor cursor
    next :
        {cursor last : ℕ} (above : ℕ)
        → (fetch_page cursor).next_cursor ≡ some above
        → cursor < above
        → Leads above last
        → Leads cursor last

  abbrev pub Found : ℕ → Type 0
  Found cursor =
      (last : ℕ) × Leads cursor last
      × (has_successor json_string failure (fetch_page last).items ≡ true)

  -- Without a successor on the page itself, one is found from a higher cursor, or not at all.
  Found-from :
      (cursor : ℕ)
      → has_successor json_string failure (fetch_page cursor).items ≡ false
      → Found cursor
      → (above : ℕ) × ((fetch_page cursor).next_cursor ≡ some above)
        × (cursor < above)
        × Found above
  Found-from cursor without (last, Leads.here, found) = cc
  Found-from cursor without (last, Leads.next above e up later, found) =
      (above, e, up, (last, later, found))

  -- When no cursor of the API goes above a bound, fuel beyond the distance to the bound is enough for
  -- the scan, and it answers true exactly when a page with a successor can be reached by cursors that
  -- go up.
  pub scan_decides :
      (bound fuel cursor : ℕ)
      → ((c above : ℕ) → (fetch_page c).next_cursor ≡ some above → above ≤ bound)
      → bound - cursor < fuel
      → (answer : Bool) × (scan_pages json_string fetch_page failure fuel cursor ≡ some answer)
        × ((answer ≡ true) ↔ Found cursor)
  unfolding scan_pages
  scan_decides bound zero cursor bounded enough = absurd (omega (arith, enough))
  scan_decides bound (suc fuel) cursor bounded enough =
      elim (Bool-cases (has_successor json_string failure (fetch_page cursor).items)) [
        | inl e ↦ (true, rw (e, scan_pages) refl, ((λ h. (cursor, Leads.here, e)), (λ h. refl)))
        | inr e ↦ elim (Option-cases (fetch_page cursor).next_cursor) [
          | inl n ↦ (
            false,
            rw (e, n, scan_pages) refl,
            ((λ h. cc), (λ h. let (above, e', _, _) = Found-from cursor e h in cc)),
          )
          | inr (above, n) ↦ elim (Bool-cases (leb above cursor)) [
            | inl low ↦ (
              false,
              rw (e, n, low, scan_pages) refl,
              (
                (λ h. cc),
                (λ h. let (above', e', up, _) = Found-from cursor e h in absurd (ground (arith))),
              ),
            )
            | inr up ↦
                let (answer, ran, exact) =
                  scan_decides bound fuel above bounded (ground (arith, bounded cursor above n)) in
                (
                  answer,
                  rw (e, n, up, scan_pages) ran,
                  (
                    (λ h.
                        let (last, later, found) = exact.0 h in
                        (last, Leads.next above n (ground arith) later, found)),
                    (λ h.
                        let (above', e', up', found) = Found-from cursor e h in
                        exact.1
                          (subst (λ a. Found a) (some-injective above' above (sym e' ∙ n)) found)),
                  ),
                )
          ]
        ]
      ]
