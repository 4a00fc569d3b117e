-- ===== src/Invoicing/Books/Rows.antt =====
-- What writing one invoice, with its line items and payments, does to the invariant.
use a2z_core.Prelude.{
  ℕ, ◌≡◌, ◌≢◌, refl, ◌∙◌, Bool, none, some, List, [], ◌∷◌, ◌++◌, select, ◌==◌, arith, Bool-cases,
  inl, inr, ◌⊎◌,
}
use a2z_core.Prelude.Dict
use a2z_core.Prelude.Dict.{nat_eq, get-put, Dict}
use a2z_core.Invoicing.Model.{Invoice, Db}
use a2z_core.Invoicing.Books.{IsBalanced, IsValid, lines_of, payments_of}

pub select-append {ℓ} :
    {A : Type ℓ} (p : A → Bool) (xs ys : List A) → select p (xs ++ ys) ≡ select p xs ++ select p ys
select-append p [] ys = refl
select-append p (x ∷ xs) ys = ground (arith, select-append p xs ys)

-- A row that is found after a write is the one written, or was there before.
pub get-put-cases {ℓ} :
    {V : Type ℓ} (id j : ℕ) (v row : V) (d : Dict ℕ V)
    → Dict.get j (Dict.put id v d) ≡ some row
    → ((id ≡ j) × (v ≡ row)) ⊎ ((j ≢ id) × (Dict.get j d ≡ some row))
get-put-cases id j v row d h = elim (Bool-cases (id == j)) [
  | inl same ↦ inl (ground arith, ground (arith, get-put id j v d))
  | inr other ↦ inr (ground arith, ground (arith, get-put id j v d))
]

get-put-none {ℓ} :
    {V : Type ℓ} (id j : ℕ) (v : V) (d : Dict ℕ V)
    → Dict.get j (Dict.put id v d) ≡ none
    → (j ≢ id) × (Dict.get j d ≡ none)
get-put-none id j v d h = ground (arith, get-put id j v d)

-- Writing the row `id` and rows of its own keeps the invariant, if the row balances with the items
-- and payments that it then has.
module _ (db db' : Db) (id : ℕ) (invoice : Invoice) (v : IsValid db)
    (wrote : db'.invoices ≡ Dict.put id invoice db.invoices) (key : invoice.id ≡ id)
    (lines : (org_id j : ℕ) → j ≢ id → lines_of org_id j db' ≡ lines_of org_id j db)
    (payments : (org_id j : ℕ) → j ≢ id → payments_of org_id j db' ≡ payments_of org_id j db)
    (balances : IsBalanced
      (lines_of invoice.org_id id db')
      (payments_of invoice.org_id id db')
      invoice) where
  row-IsBalanced :
      (j : ℕ) (row : Invoice)
      → Dict.get j db'.invoices ≡ some row
      → (row.id ≡ j) × IsBalanced (lines_of row.org_id j db') (payments_of row.org_id j db') row
  row-IsBalanced j row h = elim (get-put-cases id j invoice row db.invoices (rw wrote at h)) [
    | inl (same, e) ↦ rw (← same, ← e) (key, balances)
    | inr (other, before) ↦
        rw (lines row.org_id j other, payments row.org_id j other)
          (v.keyed j row before, v.balanced j row before)
  ]

  pub put-IsValid : IsValid db'
  put-IsValid = record {
    keyed = λ j row h. (row-IsBalanced j row h).0;
    balanced = λ j row h. (row-IsBalanced j row h).1;
    no_lines = λ org_id j h.
        let (other, before) = get-put-none id j invoice db.invoices (rw wrote at h) in
        lines org_id j other ∙ v.no_lines org_id j before;
    no_payments = λ org_id j h.
        let (other, before) = get-put-none id j invoice db.invoices (rw wrote at h) in
        payments org_id j other ∙ v.no_payments org_id j before;
  }
