-- ===== src/PgStore/Rows/Keeping.antt =====
-- What the statements of postgres/queries.sql leave of the rows that are there.
use howdah.Base.{
  ℕ, ◌+◌, ◌≡◌, ◌≢◌, ◌⊎◌, [], ◌∷◌, ◌++◌, Bool, none, some, refl, arith, Bool-cases, Option-cases,
  inl, inr, All, All-map, All-append, AllPairs, AllPairs-concat, In, ◌==◌, ==_iff, nat_eq, sym, ◌∙◌,
  ap,
}
use howdah.Base.Bytes.{Bytes, bytes_eq}
use howdah.Errors.{ok}
use howdah.PgStore.Rows.{Row, Table, get_session, create_session, update_where, delete_where}

abbrev pub Apart : Row → Row → Type 0
Apart a b = a.id ≢ b.id

-- A row that has its session, and its times of creation and expiry, from one of the table.
abbrev pub Descends : Table → Row → Type 0
Descends table new =
    (row : Row) × In row table
    × (new.id ≡ row.id)
    × (new.subject ≡ row.subject)
    × (new.created_at ≡ row.created_at)
    × (new.expires_at ≡ row.expires_at)

module _ {ℓ} (P : Row → Type ℓ) where
  All-delete_where : (p : Row → Bool) (table : Table) → All P table → All P (delete_where p table).0
  unfolding delete_where
  All-delete_where p [] h = tt
  All-delete_where p (row ∷ table) (q, h) = elim (Bool-cases (p row)) [
    | inl goes ↦ rw goes (All-delete_where p table h)
    | inr stays ↦ rw stays (q, All-delete_where p table h)
  ]

  All-update_where :
      (p : Row → Bool) (f : Row → Row) (table : Table)
      → ((row : Row) → P row → P (f row))
      → All P table
      → All P (update_where p f table).0
  unfolding update_where
  All-update_where p f [] keeps h = tt
  All-update_where p f (row ∷ table) keeps (q, h) = elim (Bool-cases (p row)) [
    | inl met ↦ rw met (keeps row q, All-update_where p f table keeps h)
    | inr unmet ↦ rw unmet (q, All-update_where p f table keeps h)
  ]

  All-of_In : (table : Table) → ((row : Row) → In row table → P row) → All P table
  All-of_In [] h = tt
  All-of_In (row ∷ table) h = (h row (inl refl), All-of_In table (λ o i. h o (inr i)))

delete_where-Apart :
    (p : Row → Bool) (table : Table)
    → AllPairs Apart table
    → AllPairs Apart (delete_where p table).0
unfolding delete_where
delete_where-Apart p [] h = tt
delete_where-Apart p (row ∷ table) (q, h) = elim (Bool-cases (p row)) [
  | inl goes ↦ rw goes (delete_where-Apart p table h)
  | inr stays ↦ rw stays (All-delete_where (Apart row) p table q, delete_where-Apart p table h)
]

update_where-Apart :
    (p : Row → Bool) (f : Row → Row) (table : Table)
    → ((row : Row) → (f row).id ≡ row.id)
    → AllPairs Apart table
    → AllPairs Apart (update_where p f table).0
unfolding update_where
update_where-Apart p f [] keeps h = tt
update_where-Apart p f (row ∷ table) keeps (q, h) = elim (Bool-cases (p row)) [
  | inl met ↦ rw met (
    All-update_where (Apart (f row)) p f table (λ o a e. a (e ∙ keeps o))
        (All-map (λ o a e. a (sym (keeps row) ∙ e)) table q),
    update_where-Apart p f table keeps h,
  )
  | inr unmet ↦ rw unmet (
    All-update_where (Apart row) p f table (λ o a e. a (e ∙ keeps o)) q,
    update_where-Apart p f table keeps h,
  )
]

get_session-none :
    (id : Bytes) (table : Table) → get_session id table ≡ none → All (λ row. row.id ≢ id) table
unfolding get_session
get_session-none id [] h = tt
get_session-none id (row ∷ table) h = elim (Bool-cases (row.id == id)) [
  | inl same ↦ cc (rw same at h)
  | inr other ↦ (λ e. cc ((==_iff row.id id).1 e, other), get_session-none id table (rw other at h))
]

pub get_session-In :
    (id : Bytes) (table : Table) (row : Row) → get_session id table ≡ some row → In row table
unfolding get_session
get_session-In id [] row h = cc
get_session-In id (other ∷ table) row h = elim (Bool-cases (other.id == id)) [
  | inl same ↦ inl (ground (arith, (rw same at h)))
  | inr unlike ↦ inr (get_session-In id table row (rw unlike at h))
]

pub get_session-id :
    (id : Bytes) (table : Table) (row : Row) → get_session id table ≡ some row → row.id ≡ id
unfolding get_session
get_session-id id [] row h = cc
get_session-id id (other ∷ table) row h = elim (Bool-cases (other.id == id)) [
  | inl same ↦ ground (arith, (rw same at h), (==_iff other.id id).0 same)
  | inr unlike ↦ get_session-id id table row (rw unlike at h)
]

module _ (age : ℕ) where
  -- A row that expires at this age.
  abbrev pub Lasts : Row → Type 0
  Lasts row = row.expires_at ≡ row.created_at + age

  -- What one statement leaves: ids are distinct, every row expires at its age, and a row is that of a
  -- session that was there, or has an id that was not.
  abbrev pub Kept : Table → Table → Type 0
  Kept table after =
      AllPairs Apart after
      × All Lasts after
      × All (λ row. (get_session row.id table ≡ none) ⊎ Descends table row) after

  module _ (table : Table) (apart : AllPairs Apart table) (lasting : All Lasts table) where
    itself : All (λ row. (get_session row.id table ≡ none) ⊎ Descends table row) table
    itself = All-of_In _ table (λ row i. inr (row, i, refl, refl, refl, refl))

    pub Kept-same : Kept table table
    Kept-same = (apart, lasting, itself)

    pub delete_where-Kept : (p : Row → Bool) → Kept table (delete_where p table).0
    delete_where-Kept p = (
      delete_where-Apart p table apart,
      All-delete_where Lasts p table lasting,
      All-delete_where _ p table itself,
    )

    -- An UPDATE that leaves a row's id, subject, creation and expiry as they are.
    pub update_where-Kept :
        (p : Row → Bool) (f : Row → Row)
        → ((row : Row)
            → ((f row).id ≡ row.id)
              × ((f row).subject ≡ row.subject)
              × ((f row).created_at ≡ row.created_at)
              × ((f row).expires_at ≡ row.expires_at))
        → Kept table (update_where p f table).0
    update_where-Kept p f keeps = (
      update_where-Apart p f table (λ row. (keeps row).0) apart,
      All-update_where Lasts p f table
          (λ row l. let (_, _, at, until) = keeps row in until ∙ l ∙ ap (λ t. t + age) (sym at))
          lasting,
      All-update_where _ p f table
          (λ row h.
            let (i, who, at, until) = keeps row in
            elim h [
              | inl absent ↦ inl (ap (λ id. get_session id table) i ∙ absent)
              | inr (o, here, i', who', at', until') ↦
                  inr (o, here, i ∙ i', who ∙ who', at ∙ at', until ∙ until')
            ])
          itself,
    )

    pub create_session-Kept :
        (row : Row) (after : Table)
        → Lasts row
        → create_session row table ≡ ok after
        → Kept table after
    unfolding create_session
    create_session-Kept row after lasts made = elim (Option-cases (get_session row.id table)) [
      | inr (other, there) ↦ absurd (ground (arith, made, there))
      | inl absent ↦
          let same : table ++ row ∷ [] ≡ after = ground (arith, made, absent) in
          rw (sym same) (
            AllPairs-concat Apart table row apart (get_session-none row.id table absent),
            All-append Lasts table (row ∷ []) lasting (lasts, tt),
            All-append _ table (row ∷ []) itself (inl absent, tt),
          )
    ]
