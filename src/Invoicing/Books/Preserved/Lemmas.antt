-- ===== src/Invoicing/Books/Preserved/Lemmas.antt =====
-- The facts on loaded rows, selections and statuses that the preservation proofs share.
use a2z_core.Prelude.{
  ℕ, ◌+◌, ◌≡◌, ◌≢◌, refl, ◌∙◌, Bool, true, false, not, Option, none, some, List, [], ◌∷◌, ◌++◌,
  select, map, append-nil, arith, inl, inr, Option-cases, Bool-cases,
}
use a2z_core.Prelude.Dict
use a2z_core.Prelude.Dict.{nat_eq}
use a2z_core.Invoicing.Errors.{ok, Result-cases}
use a2z_core.Invoicing.StateMachine.{
  InvoiceStatus, PaymentStatus, is_payable, is_sendable, is_void, compute_totals,
  next_payment_status, on_paid_track, next_invoice_status, sum,
}
use a2z_core.Invoicing.Model.{
  Invoice, LineItem, LineItemCreate, InvoiceUpdateRequest, RecordPaymentRequest, Payment, Db,
  is_line_of, is_payment_of, amounts, paid_cents,
}
use a2z_core.Invoicing.Service.{load_invoice, visible, build_line_items}
use a2z_core.Invoicing.Service.Edit.{
  replace_line_items, retotal, with_totals, set_fields, recompute,
}
use a2z_core.Invoicing.Service.Payments.{new_payment}
use a2z_core.Invoicing.StateMachine.Laws.{compute_totals_exact}
use a2z_core.Invoicing.Books.{IsStaged, IsBalanced}
use a2z_core.Invoicing.Books.Rows.{select-append}

-- A loaded invoice is the row under its id, of the caller's org, and not deleted.
pub load_invoice-ok :
    (db : Db) (org_id id : ℕ) (invoice : Invoice)
    → load_invoice db org_id id ≡ ok invoice
    → (Dict.get id db.invoices ≡ some invoice)
      × (invoice.org_id ≡ org_id)
      × (invoice.is_deleted ≡ false)
unfolding load_invoice visible
load_invoice-ok db org_id id invoice h = elim (Option-cases (Dict.get id db.invoices)) [
  | inl absent ↦ ground arith
  | inr (row, present) ↦ ground arith
]

pub sum-append : (xs ys : List ℕ) → sum (xs ++ ys) ≡ sum xs + sum ys
sum-append [] ys = omega arith
sum-append (x ∷ xs) ys = omega (arith, sum-append xs ys)

pub map-append' {ℓ κ} :
    {A : Type ℓ} {B : Type κ} (f : A → B) (xs ys : List A) → map f (xs ++ ys) ≡ map f xs ++ map f ys
map-append' f [] ys = refl
map-append' f (x ∷ xs) ys = rw (map-append' f xs ys)

pub paid_cents-append :
    (ps : List Payment) (p : Payment)
    → paid_cents (ps ++ p ∷ []) ≡ paid_cents ps + p.body.amount_cents
paid_cents-append ps p = rw (map-append', sum-append) (omega arith)

-- On the paid track the derived status is staged, whatever the status was before.
pub paid_track-IsStaged :
    (s : InvoiceStatus) (status : PaymentStatus) (paid : ℕ)
    → is_payable s ≡ true
    → IsStaged (next_invoice_status s status) paid status
unfolding next_invoice_status is_payable
paid_track-IsStaged s PaymentStatus.unpaid paid h = rw h refl
paid_track-IsStaged s PaymentStatus.partially_paid paid h = rw h refl
paid_track-IsStaged s PaymentStatus.paid paid h = rw h refl

-- The items of a request are all of the invoice that they are built for, and of no other.
pub select-build_line_items :
    (org_id id : ℕ) (items : List LineItemCreate)
    → select (is_line_of org_id id) (build_line_items org_id id items)
      ≡ build_line_items org_id id items
select-build_line_items org_id id [] = refl
select-build_line_items org_id id (x ∷ items) =
    ground (arith, select-build_line_items org_id id items)

pub select-build_line_items_other :
    (o j org_id id : ℕ) (items : List LineItemCreate)
    → j ≢ id
    → select (is_line_of o j) (build_line_items org_id id items) ≡ []
select-build_line_items_other o j org_id id [] ne = refl
select-build_line_items_other o j org_id id (x ∷ items) ne =
    ground (arith, select-build_line_items_other o j org_id id items)

select-others :
    (o j org_id id : ℕ) (lines : List LineItem)
    → j ≢ id
    → select (is_line_of o j) (select (λ l. not (is_line_of org_id id l)) lines)
      ≡ select (is_line_of o j) lines
select-others o j org_id id [] ne = refl
select-others o j org_id id (l ∷ lines) ne = ground (arith, select-others o j org_id id lines)

-- Replacing the items of one invoice leaves those of every other.
pub select-replace_line_items :
    (o j org_id id : ℕ) (items : Option (List LineItemCreate)) (lines : List LineItem)
    → j ≢ id
    → select (is_line_of o j) (replace_line_items org_id id items lines)
      ≡ select (is_line_of o j) lines
select-replace_line_items o j org_id id none lines ne = refl
select-replace_line_items o j org_id id (some items) lines ne =
    select-append (is_line_of o j) (select (λ l. not (is_line_of org_id id l)) lines)
      (build_line_items org_id id items)
    ∙ rw
        (select-others o j org_id id lines ne, select-build_line_items_other o j org_id id items ne)
        (append-nil _)

-- A draft with nothing paid is staged as sent.
pub draft-IsStaged :
    (s : InvoiceStatus) (paid total : ℕ) (status : PaymentStatus)
    → is_sendable s ≡ true
    → IsStaged s paid status
    → status ≡ next_payment_status paid total
    → IsStaged InvoiceStatus.sent paid status
unfolding is_sendable next_payment_status next_invoice_status is_payable on_paid_track
draft-IsStaged InvoiceStatus.draft paid total status h staged e = ground arith
draft-IsStaged _ paid total status h staged e = cc

pub select-new_payment :
    (o org_id id user_id : ℕ) (body : RecordPaymentRequest)
    → o ≡ org_id
    → select (is_payment_of o id) (new_payment org_id id user_id body ∷ [])
      ≡ new_payment org_id id user_id body ∷ []
select-new_payment o org_id id user_id body own = ground arith

pub select-new_payment_other :
    (o j org_id id user_id : ℕ) (body : RecordPaymentRequest)
    → j ≢ id
    → select (is_payment_of o j) (new_payment org_id id user_id body ∷ []) ≡ []
select-new_payment_other o j org_id id user_id body ne = ground arith

-- What recomputing the totals leaves alone, and what it establishes.
pub retotal-kept :
    (flag : Bool) (lines : List LineItem) (invoice invoice' : Invoice)
    → retotal flag lines invoice ≡ ok invoice'
    → (invoice'.id ≡ invoice.id)
      × (invoice'.org_id ≡ invoice.org_id)
      × (invoice'.amount_paid_cents ≡ invoice.amount_paid_cents)
unfolding retotal
retotal-kept false lines invoice invoice' h = ground arith
retotal-kept true lines invoice invoice' h = ground arith

retotal-IsStaged :
    (s : InvoiceStatus) (paid : ℕ) (old : PaymentStatus) (total : ℕ)
    → not (is_void s) ≡ true
    → IsStaged s paid old
    → IsStaged
        (next_invoice_status s (next_payment_status paid total))
        paid
        (next_payment_status paid total)
unfolding is_void
retotal-IsStaged InvoiceStatus.draft paid old total open_ staged =
    unfold next_invoice_status is_payable in staged
retotal-IsStaged InvoiceStatus.void paid old total open_ staged = cc
retotal-IsStaged InvoiceStatus.sent paid old total open_ staged =
    paid_track-IsStaged InvoiceStatus.sent _ paid (unfold is_payable in refl)
retotal-IsStaged InvoiceStatus.partially_paid paid old total open_ staged =
    paid_track-IsStaged InvoiceStatus.partially_paid _ paid (unfold is_payable in refl)
retotal-IsStaged InvoiceStatus.paid paid old total open_ staged =
    paid_track-IsStaged InvoiceStatus.paid _ paid (unfold is_payable in refl)

-- With the totals recomputed an invoice balances, whatever its totals were.
pub retotal-IsBalanced :
    (lines : List LineItem) (payments : List Payment) (invoice invoice' : Invoice)
    → not (is_void invoice.status) ≡ true
    → invoice.amount_paid_cents ≡ paid_cents payments
    → IsStaged invoice.status invoice.amount_paid_cents invoice.payment_status
    → retotal true lines invoice ≡ ok invoice'
    → IsBalanced lines payments invoice'
unfolding retotal
retotal-IsBalanced lines payments invoice invoice' open_ paid staged h =
    elim (Result-cases (compute_totals (amounts lines) invoice.tax_cents invoice.discount_cents)) [
      | inl (e, bad) ↦ absurd (ground arith)
      | inr (totals, good) ↦
          let exact =
            (compute_totals_exact (amounts lines) invoice.tax_cents invoice.discount_cents).1
              totals.0 totals.1 good in
          let e : with_totals invoice totals ≡ invoice' = ground arith in
          rw (← e) (record {
            subtotal = exact.0;
            total = exact.1;
            paid = paid;
            payment_status = refl;
            staged =
                retotal-IsStaged invoice.status invoice.amount_paid_cents invoice.payment_status
                  totals.1 open_ staged;
          })
    ]

-- An update that recomputes nothing has changed neither the items nor an amount.
plain_edit :
    (org_id id : ℕ) (body : InvoiceUpdateRequest) (invoice : Invoice) (lines : List LineItem)
    → recompute body ≡ false
    → (replace_line_items org_id id body.line_items lines ≡ lines)
      × ((set_fields body invoice).tax_cents ≡ invoice.tax_cents)
      × ((set_fields body invoice).discount_cents ≡ invoice.discount_cents)
plain_edit org_id id body invoice lines h = ground arith

-- An edited invoice balances with the items that the edit leaves it.
pub edit-IsBalanced :
    (org_id id : ℕ) (body : InvoiceUpdateRequest) (invoice invoice' : Invoice) (all : List LineItem)
    (payments : List Payment)
    → not (is_void invoice.status) ≡ true
    → IsBalanced (select (is_line_of org_id id) all) payments invoice
    → retotal
        (recompute body)
        (select (is_line_of org_id id) (replace_line_items org_id id body.line_items all))
        (set_fields body invoice)
      ≡ ok invoice'
    → IsBalanced
        (select (is_line_of org_id id) (replace_line_items org_id id body.line_items all))
        payments
        invoice'
edit-IsBalanced org_id id body invoice invoice' all payments open_ b h =
    elim (Bool-cases (recompute body)) [
      | inl again ↦
          retotal-IsBalanced _ payments (set_fields body invoice) invoice' open_ b.paid b.staged
            (rw again at h)
      | inr plain ↦
          let (lines, tax, discount) = plain_edit org_id id body invoice all plain in
          let e : set_fields body invoice ≡ invoice' = unfold retotal in ground arith in
          rw (lines, ← e)
            (record {
              subtotal = b.subtotal;
              total = omega (arith, b.total);
              paid = b.paid;
              payment_status = b.payment_status;
              staged = b.staged;
            })
    ]
