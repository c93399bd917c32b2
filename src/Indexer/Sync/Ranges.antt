-- ===== src/Indexer/Sync/Ranges.antt =====
-- A canonical poll ends, and its ranges follow one another up to the archive's head.
use decentralised_treasury.Prelude.{
  ℕ, zero, suc, ◌+◌, ◌-◌, ◌≤◌, ◌<◌, ◌≡◌, refl, inl, inr, List, [], ◌∷◌, Bool, true, false, Option,
  none, some, leb, ltb, if◌then◌else◌, arith, Bool-cases, Option-cases,
}
use mathlib.Core.Path.{subst}
use decentralised_treasury.Indexer.Rows.{Row, prepare_batch}
use decentralised_treasury.Indexer.Ingest.{
  Repository, Ingested, greatest, advance_cursor, rows_in_range, range_error, outruns, write_batch,
  ingest_and_advance_cursor,
}
use decentralised_treasury.Indexer.Ingest.History.{
  Later, Later-refl, Later-trans, Effect, ingest-Effect, Onward,
}
use decentralised_treasury.Indexer.Sync.{
  IndexerOptions, Fetched, Synced, canonical_batch, range_end, add_range, sync_range, sync_ranges,
  first_height, sync_canonical_once,
}

abbrev pub AtLeast : ℕ → Option ℕ → Type 0
AtLeast n none = ⊥
AtLeast n (some m) = n ≤ m

Onward-AtLeast : (n : ℕ) (c d : Option ℕ) → AtLeast n c → Onward c d → AtLeast n d
Onward-AtLeast n none d h on = elim h [ ]
Onward-AtLeast n (some c) none h on = elim on [ ]
Onward-AtLeast n (some c) (some d) h on = omega (arith, h, on)

abbrev Reaches : ℕ → Ingested → Type 0
Reaches height (Ingested.refused error) = Unit {0}
Reaches height (Ingested.ingested r accepted rejected) = AtLeast height r.canonical_cursor

if-Reaches :
    (height : ℕ) (b : Bool) (x y : Ingested)
    → Reaches height x
    → Reaches height y
    → Reaches height (if b then x else y)
if-Reaches height true x y h h' = h
if-Reaches height false x y h h' = h'

greatest-AtLeast : (height : ℕ) (c : Option ℕ) → AtLeast height (some (greatest c height))
greatest-AtLeast height none = omega arith
greatest-AtLeast height (some c) = ground arith

write_batch-Reaches :
    (from to : ℕ) (fetched : Fetched) (outside : ℕ) (prepared : List Row × ℕ × Bool)
    (r : Repository)
    → Reaches to (write_batch (canonical_batch from to fetched) outside prepared r)
unfolding write_batch outruns advance_cursor
write_batch-Reaches from to fetched outside (accepted, conflicts, newly) r =
    greatest-AtLeast to r.canonical_cursor

ingest-Reaches :
    (from to : ℕ) (fetched : Fetched) (r : Repository)
    → Reaches to (ingest_and_advance_cursor (canonical_batch from to fetched) r)
unfolding ingest_and_advance_cursor
ingest-Reaches from to fetched r = elim (Option-cases (range_error to (some (from, to)))) [
  | inr (error, e) ↦ rw (e, ingest_and_advance_cursor) tt
  | inl e ↦
      let (rows, outside) = rows_in_range from to fetched.rows in
      rw (e, ingest_and_advance_cursor)
        (write_batch-Reaches from to fetched outside (prepare_batch r.rows rows) r)
]

-- Ranges of at most the batch size, each starting after the one before it, from a height to the head.
abbrev pub Tiles : ℕ → ℕ → ℕ → List (ℕ × ℕ) → Type 0
Tiles size head from [] = head < from
Tiles size head from ((first, last) ∷ ranges) =
    (first ≡ from)
    × (first ≤ last)
    × (last < first + size)
    × (last ≤ head)
    × Tiles size head (last + 1) ranges

module _ (options : IndexerOptions) (fetch_events : ℕ → ℕ → Option Fetched) (head : ℕ) where
  -- The poll has an end. What was stored stays; and when it has not thrown, its ranges tile the heights
  -- up to the head, and the cursor is at the head or above if there was a height to poll.
  abbrev pub Ends : ℕ → Repository → Synced → Type 0
  Ends from r Synced.exhausted = ⊥
  Ends from r (Synced.stopped r') = Later r r'
  Ends from r (Synced.synced r' ranges) =
      Later r r'
      × Tiles options.block_batch_size head from ranges
      × (from ≤ head → AtLeast head r'.canonical_cursor)

  add_range-Ends :
      (from to : ℕ) (r r' : Repository) (rest : Synced)
      → from ≤ to
      → to < from + options.block_batch_size
      → to ≤ head
      → Later r r'
      → AtLeast to r'.canonical_cursor
      → Ends (to + 1) r' rest
      → Ends from r (add_range (from, to) rest)
  unfolding add_range
  add_range-Ends from to r r' Synced.exhausted up short low later reached end = end
  add_range-Ends from to r r' (Synced.stopped s) up short low later reached end =
      Later-trans r r' s later end
  add_range-Ends from to r r' (Synced.synced s ranges) up short low later reached
        (on, tiles, at_head) =
      (
        Later-trans r r' s later on,
        (refl, up, short, low, tiles),
        (λ some_left. elim (Bool-cases (ltb to head)) [
          | inl more ↦ at_head (ground arith)
          | inr done ↦
              let last : to ≡ head = ground arith in
              Onward-AtLeast head r'.canonical_cursor s.canonical_cursor
                (subst (λ n. AtLeast n r'.canonical_cursor) last reached) on.canonical
        ]),
      )

  sync_range-Ends :
      (from to : ℕ) (answer : Option Fetched) (r : Repository) (rest : Repository → Synced)
      → from ≤ to
      → to < from + options.block_batch_size
      → to ≤ head
      → ((r' : Repository) → Ends (to + 1) r' (rest r'))
      → Ends from r (sync_range options fetch_events from to answer r rest)
  unfolding sync_range
  sync_range-Ends from to none r rest up short low ends = Later-refl r
  sync_range-Ends from to (some fetched) r rest up short low ends =
      ingested-Ends (ingest_and_advance_cursor (canonical_batch from to fetched) r)
        (ingest-Effect (canonical_batch from to fetched) r) (ingest-Reaches from to fetched r)
    where
      ingested-Ends :
          (result : Ingested)
          → Effect r result
          → Reaches to result
          → Ends from r (elim result [
            | Ingested.refused error ↦ Synced.stopped r
            | Ingested.ingested r' accepted rejected ↦ add_range (from, to) (rest r')
          ])
      ingested-Ends (Ingested.refused error) effect reached = Later-refl r
      ingested-Ends (Ingested.ingested r' accepted rejected) effect reached =
          add_range-Ends from to r r' (rest r') up short low effect reached (ends r')

  sync_ranges-Ends :
      (fuel from : ℕ) (r : Repository)
      → 0 < options.block_batch_size
      → head + 1 - from < fuel
      → Ends from r (sync_ranges options fetch_events fuel head from r)
  unfolding sync_ranges
  sync_ranges-Ends zero from r some_size enough = absurd (omega (arith, enough))
  sync_ranges-Ends (suc fuel) from r some_size enough = elim (Bool-cases (leb from head)) [
    | inr e ↦ rw (e, sync_ranges) (Later-refl r, ground arith, (λ h. absurd (ground arith)))
    | inl e ↦
        let to = range_end options head from in
        rw (e, sync_ranges)
          (sync_range-Ends from to (fetch_events from to) r
            (λ r'. sync_ranges options fetch_events fuel head (to + 1) r') (ground arith)
            (ground arith) (ground arith)
            (λ r'. sync_ranges-Ends fuel (to + 1) r' some_size (ground arith)))
  ]

  -- With a positive batch size and fuel beyond the heights to poll, a canonical poll has an end,
  -- whatever the archive answers. What was stored before stays, and the cursors do not go back. When the
  -- poll has not thrown, its ranges follow one another without a gap from its first height to the
  -- archive's head, each with at most the batch size of blocks; and if there was a height to poll, the
  -- canonical cursor is at the head or above.
  pub sync_canonical-Ends :
      (fuel : ℕ) (r : Repository)
      → 0 < options.block_batch_size
      → head + 1 - first_height options fetch_events r.canonical_cursor < fuel
      → Ends
          (first_height options fetch_events r.canonical_cursor)
          r
          (sync_canonical_once options fetch_events fuel head r)
  unfolding sync_canonical_once
  sync_canonical-Ends fuel r some_size enough =
      sync_ranges-Ends fuel (first_height options fetch_events r.canonical_cursor) r some_size
        enough
