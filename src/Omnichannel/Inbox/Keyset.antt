-- ===== src/Omnichannel/Inbox/Keyset.antt =====
-- A page of a query as Postgres and app/services/omnichannel/inbox.py make it: the rows after the
-- cursor, in order, one more than the page holds, which tells whether there is a next page.
pub mod Sorting
pub mod Pages
use a2z_core.Prelude.{
  ℕ, suc, Bool, true, false, ltb, Option, none, some, List, [], ◌∷◌, length, take, select,
  if◌then◌else◌,
}
use a2z_core.Omnichannel.Inbox.Order.{Key, before, cursor_predicate}

module _ {A : Type 0} (key : A → Key) where
  unfoldable pub insert_row : Bool → A → List A → List A
  insert_row desc a [] = a ∷ []
  insert_row desc a (b ∷ bs) =
      let rest = insert_row desc a bs in
      if before desc (key a) (key b) then a ∷ b ∷ bs else b ∷ rest

  -- `ORDER BY`
  unfoldable pub order_by : Bool → List A → List A
  order_by desc [] = []
  order_by desc (a ∷ xs) = insert_row desc a (order_by desc xs)

  -- `WHERE` the cursor's predicate holds; without a cursor, everything.
  abbrev pub continues : Bool → Option Key → A → Bool
  continues desc none a = true
  continues desc (some c) a = cursor_predicate desc c (key a)

  abbrev pub last_key : A → List A → Key
  last_key a [] = key a
  last_key a (b ∷ xs) = last_key b xs

  -- `if has_more and rows`: the key of the last row.
  abbrev pub next_key : Bool → List A → Option Key
  next_key false rows = none
  next_key true [] = none
  next_key true (a ∷ rows) = some (last_key a rows)

  -- The page of the rows that were fetched, and the key of its `next_cursor`.
  abbrev pub page_of : ℕ → List A → List A × Option Key
  page_of page_size fetched =
      (take page_size fetched, next_key (ltb page_size (length fetched)) (take page_size fetched))

  unfoldable pub fetch : Bool → ℕ → Option Key → List A → List A × Option Key
  fetch desc page_size cursor rows =
      page_of page_size (take (suc page_size) (order_by desc (select (continues desc cursor) rows)))
