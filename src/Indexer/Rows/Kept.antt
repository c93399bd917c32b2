-- ===== src/Indexer/Rows/Kept.antt =====
-- What every write keeps of the rows.
use decentralised_treasury.Prelude.{
  ◌≡◌, ◌≢◌, refl, sym, ap, ◌∙◌, inl, inr, List, [], ◌∷◌, Bool, true, false, ◌&&◌, some,
  if◌then◌else◌, Bool-cases,
}
use mathlib.Core.Option.{some-injective}
use mathlib.Core.Path.{subst}
use decentralised_treasury.Indexer.Rows.{
  EventStatus, Identity, Row, same_identity, same_contents, find_row, is_pending, merge_row,
  upsert_row, upsert_accepted, orphan_pending,
}

-- A row keeps its identity, its event type and its data, and stays canonical once it is.
pub record Kept (r r' : Row) : Type 0 where
  pub same_id : r'.identity ≡ r.identity
  pub same_type : r'.event_type ≡ r.event_type
  pub same_data : r'.contract_data ≡ r.contract_data
  pub final : r.status ≡ EventStatus.canonical → r'.status ≡ EventStatus.canonical

abbrev pub AllKept : List Row → List Row → Type 0
AllKept rows rows' =
    (id : Identity) (r : Row)
    → find_row rows id ≡ some r
    → (r' : Row) × (find_row rows' id ≡ some r') × Kept r r'

Kept-refl : (r : Row) → Kept r r
Kept-refl r = record { same_id = refl; same_type = refl; same_data = refl; final = λ e. e }

Kept-trans : (a b c : Row) → Kept a b → Kept b c → Kept a c
Kept-trans a b c k l = record {
  same_id = l.same_id ∙ k.same_id;
  same_type = l.same_type ∙ k.same_type;
  same_data = l.same_data ∙ k.same_data;
  final = λ e. l.final (k.final e);
}

pub AllKept-refl : (rows : List Row) → AllKept rows rows
AllKept-refl rows id r e = (r, e, Kept-refl r)

pub AllKept-trans : (a b c : List Row) → AllKept a b → AllKept b c → AllKept a c
AllKept-trans a b c k l id r e =
    let (r', e', kept) = k id r e in
    let (r'', e'', kept') = l id r' e' in (r'', e'', Kept-trans r r' r'' kept kept')

-- A change of each row keeps all when it keeps each.
AllKept-cons :
    (r r' : Row) (rs rs' : List Row) → Kept r r' → AllKept rs rs' → AllKept (r ∷ rs) (r' ∷ rs')
unfolding find_row
AllKept-cons r r' rs rs' kept all id found e = elim (Bool-cases (same_identity r.identity id)) [
  | inl same ↦
      let here : some r ≡ some found = sym (rw (same, find_row) refl) ∙ e in
      let is_found : r ≡ found = some-injective r found here in
      let same' : same_identity r'.identity id ≡ true =
        ap (λ i. same_identity i id) kept.same_id ∙ same in
      (r', rw (same', find_row) refl, subst (λ x. Kept x r') is_found kept)
  | inr other ↦
      let later : find_row rs id ≡ some found = sym (rw (other, find_row) refl) ∙ e in
      let other' : same_identity r'.identity id ≡ false =
        ap (λ i. same_identity i id) kept.same_id ∙ other in
      let (r'', e'', kept'') = all id found later in (r'', rw (other', find_row) e'', kept'')
]

merge_row-Kept : (existing incoming : Row) → Kept existing (merge_row existing incoming)
unfolding merge_row
merge_row-Kept existing incoming = elim (Bool-cases (same_contents existing incoming)) [
  | inl e ↦
      rw (e, merge_row)
        (record { same_id = refl; same_type = refl; same_data = refl; final = λ c. rw c refl })
  | inr e ↦ rw (e, merge_row) (Kept-refl existing)
]

upsert_row-AllKept : (rows : List Row) (incoming : Row) → AllKept rows (upsert_row rows incoming)
unfolding upsert_row find_row
upsert_row-AllKept [] incoming = λ id r e. cc
upsert_row-AllKept (r ∷ rs) incoming =
    elim (Bool-cases (same_identity r.identity incoming.identity)) [
      | inl e ↦
          rw (e, upsert_row)
            (AllKept-cons r (merge_row r incoming) rs rs (merge_row-Kept r incoming)
              (AllKept-refl rs))
      | inr e ↦
          rw (e, upsert_row)
            (AllKept-cons r r rs (upsert_row rs incoming) (Kept-refl r)
              (upsert_row-AllKept rs incoming))
    ]

pub upsert_accepted-AllKept :
    (rows accepted : List Row) → AllKept rows (upsert_accepted rows accepted)
unfolding upsert_accepted
upsert_accepted-AllKept rows [] = AllKept-refl rows
upsert_accepted-AllKept rows (row ∷ accepted) =
    AllKept-trans rows (upsert_row rows row) (upsert_accepted (upsert_row rows row) accepted)
      (upsert_row-AllKept rows row) (upsert_accepted-AllKept (upsert_row rows row) accepted)

orphaned-Kept :
    (b : Bool) (r : Row)
    → (b ≡ true → r.status ≢ EventStatus.canonical)
    → Kept r (if b then record r { status = EventStatus.orphaned } else r)
orphaned-Kept true r still = record {
  same_id = refl;
  same_type = refl;
  same_data = refl;
  final = λ c. absurd (still refl c);
}
orphaned-Kept false r still = Kept-refl r

pending-not_canonical :
    (status : EventStatus) (b : Bool)
    → (is_pending status && b) ≡ true
    → status ≢ EventStatus.canonical
pending-not_canonical EventStatus.pending b e c = cc
pending-not_canonical EventStatus.canonical b e c = cc
pending-not_canonical EventStatus.orphaned b e c = cc

pub orphan_pending-AllKept :
    (test : Row → Bool) (rows : List Row) → AllKept rows (orphan_pending test rows)
unfolding orphan_pending
orphan_pending-AllKept test [] = AllKept-refl []
orphan_pending-AllKept test (r ∷ rs) =
    AllKept-cons r
      (if is_pending r.status && test r then record r { status = EventStatus.orphaned } else r) rs
      (orphan_pending test rs)
      (orphaned-Kept (is_pending r.status && test r) r (pending-not_canonical r.status (test r)))
      (orphan_pending-AllKept test rs)
