-- ===== src/Omnichannel/Connections/Disabling.antt =====
-- The table of connections under `create_connection` and `disable_connection` of
-- app/services/omnichannel/connections.py.
use a2z_core.Prelude.{
  ℕ, ◌≡◌, refl, sym, ◌∙◌, ap, inl, inr, true, false, ◌==◌, Option, none, some, List, [], ◌∷◌, ◌++◌,
  map, find, Bool-cases,
}
use a2z_core.Prelude.Run.{ok, err}
use a2z_core.Omnichannel.Model.{ChannelConnection, Error}
use a2z_core.Omnichannel.Connections.{own, has_id, disable_row}

-- The table has the connection, and it is not active.
abbrev pub IsDisabled : ℕ → List ChannelConnection → Type 0
IsDisabled id rows =
    (connection : ChannelConnection) × (find (has_id id) rows ≡ some connection)
    × (connection.is_active ≡ false)

pub append-IsDisabled :
    (id : ℕ) (rows more : List ChannelConnection)
    → IsDisabled id rows
    → IsDisabled id (rows ++ more)
append-IsDisabled id [] more (connection, found, inactive) = absurd cc
append-IsDisabled id (row ∷ rows) more (connection, found, inactive) =
    elim (Bool-cases (row.id == id)) [
      | inl hit ↦
          let same : some row ≡ some connection =
            let r : find (has_id id) (row ∷ rows) ≡ some row = rw hit refl in sym r ∙ found in
          (connection, rw hit same, inactive)
      | inr miss ↦
          let later : find (has_id id) rows ≡ some connection =
            let r : find (has_id id) (row ∷ rows) ≡ find (has_id id) rows = rw miss refl in
            sym r ∙ found in
          let (connection', found', inactive') =
            append-IsDisabled id rows more (connection, later, inactive) in
          (connection', rw miss found', inactive')
    ]

pub disable_row-inactive :
    (id : ℕ) (row : ChannelConnection)
    → row.is_active ≡ false
    → (disable_row id row).is_active ≡ false
disable_row-inactive id row inactive = elim (Bool-cases (row.id == id)) [
  | inl hit ↦ rw hit refl
  | inr miss ↦ rw miss inactive
]

disable_row-id : (j : ℕ) (row : ChannelConnection) → (disable_row j row).id ≡ row.id
disable_row-id j row = elim (Bool-cases (row.id == j)) [
  | inl hit ↦ rw hit refl
  | inr miss ↦ rw miss refl
]

-- Disabling changes what a lookup finds as it changes the row.
pub find-disable_row :
    (id j : ℕ) (rows : List ChannelConnection) (connection : ChannelConnection)
    → find (has_id id) rows ≡ some connection
    → find (has_id id) (map (disable_row j) rows) ≡ some (disable_row j connection)
find-disable_row id j [] connection found = absurd cc
find-disable_row id j (row ∷ rows) connection found =
    let same_id : ((disable_row j row).id == id) ≡ (row.id == id) =
      ap (λ i. i == id) (disable_row-id j row) in
    elim (Bool-cases (row.id == id)) [
      | inl hit ↦
          let same : some row ≡ some connection =
            let r : find (has_id id) (row ∷ rows) ≡ some row = rw hit refl in sym r ∙ found in
          let r : find (has_id id) (map (disable_row j) (row ∷ rows)) ≡ some (disable_row j row) =
            rw (same_id ∙ hit) refl in
          r ∙ ap (λ o. elim o [ none ↦ none | some x ↦ some (disable_row j x) ]) same
      | inr miss ↦
          let later : find (has_id id) rows ≡ some connection =
            let r : find (has_id id) (row ∷ rows) ≡ find (has_id id) rows = rw miss refl in
            sym r ∙ found in
          let r : find (has_id id) (map (disable_row j) (row ∷ rows))
              ≡ find (has_id id) (map (disable_row j) rows) =
            rw (same_id ∙ miss) refl in
          r ∙ find-disable_row id j rows connection later
    ]

pub own-inv :
    (org_id : ℕ) (found : Option ChannelConnection) (connection : ChannelConnection)
    → own org_id found ≡ ok connection
    → found ≡ some connection
own-inv org_id none connection h = absurd cc
own-inv org_id (some row) connection h = elim (Bool-cases (row.org_id == org_id)) [
  | inl mine ↦ let r : own org_id (some row) ≡ ok row = rw mine refl in let both = sym r ∙ h in cc
  | inr foreign ↦
      let r : own org_id (some row) ≡ err Error.connection_not_found = rw foreign refl in
      absurd (let both = sym r ∙ h in cc)
]

find-passes :
    (id : ℕ) (rows : List ChannelConnection) (connection : ChannelConnection)
    → find (has_id id) rows ≡ some connection
    → (connection.id == id) ≡ true
find-passes id [] connection found = absurd cc
find-passes id (row ∷ rows) connection found = elim (Bool-cases (row.id == id)) [
  | inl hit ↦
      let r : find (has_id id) (row ∷ rows) ≡ some row = rw hit refl in
      let same : row ≡ connection = let both = sym r ∙ found in cc in
      ap (λ c. c.id == id) (sym same) ∙ hit
  | inr miss ↦
      let r : find (has_id id) (row ∷ rows) ≡ find (has_id id) rows = rw miss refl in
      find-passes id rows connection (sym r ∙ found)
]

-- The row that is looked up is one that disabling turns off.
pub found-inactive :
    (id : ℕ) (rows : List ChannelConnection) (connection : ChannelConnection)
    → find (has_id id) rows ≡ some connection
    → (disable_row id connection).is_active ≡ false
found-inactive id rows connection found = rw (find-passes id rows connection found) refl
