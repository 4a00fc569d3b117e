-- ===== src/Invoicing/Service.antt =====
-- app/services/invoicing/access.py and service.py: the guards, the loaders, creating and reading an
-- invoice; the other operations stand in the modules below.
pub mod Edit
pub mod Lifecycle
pub mod Payments
pub mod Cases
use a2z_core.Prelude.{
  ℕ, ◌+◌, Bool, true, false, not, ◌&&◌, ◌||◌, Option, none, some, List, [], ◌∷◌, ◌++◌, map, select,
  find, ◌==◌, if◌then◌else◌,
}
use a2z_core.Prelude.Text.{Text, text_beq}
use a2z_core.Prelude.Dict
use a2z_core.Prelude.Dict.{Dict, nat_eq}
use a2z_core.Core.Role.{Role, owner_or_admin}
use a2z_core.Invoicing.Errors.{Error, Result, ok, err, raise_if}
use a2z_core.Invoicing.StateMachine.{
  InvoiceStatus, PaymentStatus, assert_can_edit, assert_can_send, assert_can_record_payment,
  assert_can_void, next_payment_status, next_invoice_status, line_amount, compute_line_amount_cents,
  compute_totals,
}
use a2z_core.Invoicing.Model.{
  Details, Invoice, LineItemCreate, LineItem, RecordPaymentRequest, Payment, InvoiceCreateRequest,
  InvoiceUpdateRequest, Db, is_line_of, is_payment_of, amounts,
}
use a2z_core.Invoicing.Exec.{
  Action, Effect, World, Env, Exec, ◌>>=◌, ◌>>◌, pure, raise, lift, get_db, commit, emit, log_audit,
}

unfoldable pub require_membership : Env → ℕ → ℕ → Result Role
require_membership env user_id org_id = elim (env.get_membership user_id org_id) [
  | none ↦ err Error.not_a_member
  | some role ↦ ok role
]

unfoldable pub check_role : Role → Result Role
check_role role = if owner_or_admin role then ok role else err Error.forbidden

unfoldable pub require_mutation_role : Env → ℕ → ℕ → Result Role
require_mutation_role env user_id org_id = elim (require_membership env user_id org_id) [
  | ok role ↦ check_role role
  | err e ↦ err e
]

unfoldable pub visible : ℕ → Option Invoice → Result Invoice
visible org_id none = err Error.invoice_not_found
visible org_id (some invoice) =
    if invoice.org_id == org_id && not invoice.is_deleted
    then ok invoice
    else err Error.invoice_not_found

-- `_load_invoice`
unfoldable pub load_invoice : Db → ℕ → ℕ → Result Invoice
load_invoice db org_id invoice_id = visible org_id (Dict.get invoice_id db.invoices)

-- `_load_line_items`
abbrev pub load_line_items : Db → ℕ → ℕ → List LineItem
load_line_items db org_id invoice_id = select (is_line_of org_id invoice_id) db.line_items

-- `_build_line_items`: it raises if an amount does, and else makes the rows, here with the
-- `invoice_id` that the caller sets on each.
unfoldable pub check_line_items : List LineItemCreate → Result (Unit {0})
check_line_items [] = ok tt
check_line_items (item ∷ items) =
    elim (compute_line_amount_cents item.digits item.scale item.unit_price_cents) [
      | ok amount_cents ↦ check_line_items items
      | err e ↦ err e
    ]

abbrev pub build_line_items : ℕ → ℕ → List LineItemCreate → List LineItem
build_line_items org_id invoice_id = map λ item. record {
  org_id = org_id;
  invoice_id = invoice_id;
  item = item;
  amount_cents = line_amount item.digits item.scale item.unit_price_cents;
}

unfoldable pub next_number : Option ℕ → ℕ
next_number none = 1
next_number (some n) = n + 1

-- `get_next_invoice_number`: DynamoDB's `ADD` starts a missing attribute at zero.
unfoldable pub get_next_invoice_number : Env → ℕ → Exec ℕ
get_next_invoice_number env org_id w =
    let n = next_number (Dict.get org_id w.counters) in
    elim env.counter_fails [
      | true ↦ (err Error.settings_error, w)
      | false ↦ (ok n, record w { counters = Dict.put org_id n w.counters })
    ]

abbrev pub new_invoice : Env → ℕ → ℕ → ℕ → InvoiceCreateRequest → ℕ × ℕ → Invoice
new_invoice env org_id user_id number body totals = record {
  id = env.fresh_id;
  org_id = org_id;
  invoice_number = (env.year, number);
  status = InvoiceStatus.draft;
  details = body.details;
  subtotal_cents = totals.0;
  tax_cents = body.tax_cents;
  discount_cents = body.discount_cents;
  total_cents = totals.1;
  amount_paid_cents = 0;
  payment_status = PaymentStatus.unpaid;
  currency_code = env.currency org_id;
  pdf_s3_key = none;
  is_deleted = false;
  created_by = user_id;
}

-- The unique constraint `uq_invoice_number`.
unfoldable pub has_number : ℕ → ℕ × ℕ → Dict ℕ Invoice → Bool
has_number org_id number [] = false
has_number org_id number ((id, invoice) ∷ invoices) =
    invoice.org_id == org_id
      && invoice.invoice_number.0 == number.0
      && invoice.invoice_number.1 == number.1
    || has_number org_id number invoices

unfoldable pub create_invoice : Env → ℕ → ℕ → InvoiceCreateRequest → Exec Invoice
create_invoice env org_id user_id body = do
  lift (require_mutation_role env user_id org_id)
  number ← get_next_invoice_number env org_id
  lift (check_line_items body.line_items)
  let lines = build_line_items org_id env.fresh_id body.line_items
  totals ← lift (compute_totals (amounts lines) body.tax_cents body.discount_cents)
  let invoice = new_invoice env org_id user_id number body totals
  db ← get_db
  lift (raise_if (has_number org_id invoice.invoice_number db.invoices) Error.integrity)
  commit (record db {
    invoices = Dict.put invoice.id invoice db.invoices;
    line_items = db.line_items ++ lines;
  })
  log_audit env org_id user_id Action.created invoice.id
  pure invoice

unfoldable pub get_invoice : Env → ℕ → ℕ → ℕ → Exec (Invoice × List LineItem)
get_invoice env org_id user_id invoice_id = do
  lift (require_membership env user_id org_id)
  db ← get_db
  invoice ← lift (load_invoice db org_id invoice_id)
  pure (invoice, load_line_items db org_id invoice_id)
