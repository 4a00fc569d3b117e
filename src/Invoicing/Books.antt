-- ===== src/Invoicing/Books.antt =====
-- When the books of the invoicing service balance: how the columns of
-- app/services/invoicing/models.py that are derived from others are related to them.
pub mod Rows
pub mod Preserved
use a2z_core.Prelude.{ℕ, ◌+◌, ◌≡◌, none, some, List, [], select}
use a2z_core.Prelude.Dict
use a2z_core.Prelude.Dict.{nat_eq}
use a2z_core.Invoicing.StateMachine.{
  InvoiceStatus, PaymentStatus, next_payment_status, next_invoice_status, sum,
}
use a2z_core.Invoicing.Model.{
  Invoice, LineItem, Payment, Db, is_line_of, is_payment_of, amounts, paid_cents,
}

-- A draft has been paid nothing; on the paid track the status is the one that the payment status
-- derives; a void invoice keeps what it had.
abbrev pub IsStaged : InvoiceStatus → ℕ → PaymentStatus → Type 0
IsStaged InvoiceStatus.draft paid status = paid ≡ 0
IsStaged InvoiceStatus.void paid status = Unit
IsStaged s paid status = s ≡ next_invoice_status InvoiceStatus.sent status

-- An invoice with its line items and its payments.
pub record IsBalanced (lines : List LineItem) (payments : List Payment) (invoice : Invoice)
    : Type 0 where
  pub subtotal : invoice.subtotal_cents ≡ sum (amounts lines)
  pub total :
      invoice.total_cents + invoice.discount_cents ≡ invoice.subtotal_cents + invoice.tax_cents
  pub paid : invoice.amount_paid_cents ≡ paid_cents payments
  pub payment_status :
      invoice.payment_status ≡ next_payment_status invoice.amount_paid_cents invoice.total_cents
  pub staged : IsStaged invoice.status invoice.amount_paid_cents invoice.payment_status

abbrev pub lines_of : ℕ → ℕ → Db → List LineItem
lines_of org_id id db = select (is_line_of org_id id) db.line_items

abbrev pub payments_of : ℕ → ℕ → Db → List Payment
payments_of org_id id db = select (is_payment_of org_id id) db.payments

-- Every row has its primary key and balances, and no item or payment names an invoice that is not
-- there (the foreign keys of models.py).
pub record IsValid (db : Db) : Type 0 where
  pub keyed :
      (id : ℕ) (invoice : Invoice) → Dict.get id db.invoices ≡ some invoice → invoice.id ≡ id
  pub balanced :
      (id : ℕ) (invoice : Invoice)
      → Dict.get id db.invoices ≡ some invoice
      → IsBalanced (lines_of invoice.org_id id db) (payments_of invoice.org_id id db) invoice
  pub no_lines : (org_id id : ℕ) → Dict.get id db.invoices ≡ none → lines_of org_id id db ≡ []
  pub no_payments : (org_id id : ℕ) → Dict.get id db.invoices ≡ none → payments_of org_id id db ≡ []
