-- ===== src/Invoicing/Service/Edit.antt =====
-- `update_invoice` of app/services/invoicing/service.py.
use a2z_core.Prelude.{ℕ, Bool, true, false, not, ◌||◌, Option, none, some, List, ◌++◌, select}
use a2z_core.Prelude.Dict
use a2z_core.Prelude.Dict.{nat_eq}
use a2z_core.Invoicing.Errors.{Result, ok, err}
use a2z_core.Invoicing.StateMachine.{
  assert_can_edit, next_payment_status, next_invoice_status, compute_totals,
}
use a2z_core.Invoicing.Model.{
  Details, Invoice, LineItemCreate, LineItem, InvoiceUpdateRequest, is_line_of, amounts,
}
use a2z_core.Invoicing.Exec.{Action, Env, Exec, ◌>>=◌, ◌>>◌, pure, lift, get_db, commit, log_audit}
use a2z_core.Invoicing.Service.{
  require_mutation_role, load_invoice, check_line_items, build_line_items,
}

-- `value if value is not None else old`
abbrev pub given {ℓ} : {A : Type ℓ} → Option A → A → A
given none old = old
given (some value) old = value

abbrev pub given_some {ℓ} : {A : Type ℓ} → Option A → Option A → Option A
given_some none old = old
given_some (some value) old = some value

abbrev pub is_given {ℓ} : {A : Type ℓ} → Option A → Bool
is_given none = false
is_given (some value) = true

-- The loop over the seven plain fields.
abbrev pub set_details : InvoiceUpdateRequest → Details → Details
set_details body d = record {
  customer_email = given body.customer_email d.customer_email;
  customer_name = given body.customer_name d.customer_name;
  customer_company = given_some body.customer_company d.customer_company;
  invoice_date = given body.invoice_date d.invoice_date;
  due_date = given_some body.due_date d.due_date;
  payment_terms = given_some body.payment_terms d.payment_terms;
  notes = given_some body.notes d.notes;
}

abbrev pub recompute : InvoiceUpdateRequest → Bool
recompute body = is_given body.tax_cents || is_given body.discount_cents || is_given body.line_items

-- `if changes`: a field of the request was given.
abbrev pub has_changes : InvoiceUpdateRequest → Bool
has_changes body =
    is_given body.customer_email
    || is_given body.customer_name
    || is_given body.customer_company
    || is_given body.invoice_date
    || is_given body.due_date
    || is_given body.payment_terms
    || is_given body.notes
    || recompute body

-- The table of line items after the old items are replaced by those of the request.
abbrev pub replace_line_items : ℕ → ℕ → Option (List LineItemCreate) → List LineItem → List LineItem
replace_line_items org_id invoice_id items all = elim items [
  | none ↦ all
  | some new ↦
      select (λ l. not (is_line_of org_id invoice_id l)) all
      ++ build_line_items org_id invoice_id new
]

-- The new items raise if an amount does.
abbrev pub check_new : Option (List LineItemCreate) → Result (Unit {0})
check_new none = ok tt
check_new (some items) = check_line_items items

-- The totals and the two statuses that follow from them.
abbrev pub with_totals : Invoice → ℕ × ℕ → Invoice
with_totals invoice totals =
    let status = next_payment_status invoice.amount_paid_cents totals.1 in
    record invoice {
      subtotal_cents = totals.0;
      total_cents = totals.1;
      payment_status = status;
      status = next_invoice_status invoice.status status;
    }

unfoldable pub retotal : Bool → List LineItem → Invoice → Result Invoice
retotal false lines invoice = ok invoice
retotal true lines invoice =
    elim (compute_totals (amounts lines) invoice.tax_cents invoice.discount_cents) [
      | ok totals ↦ ok (with_totals invoice totals)
      | err e ↦ err e
    ]

-- The invoice with the fields of the request, before its totals are computed.
abbrev pub set_fields : InvoiceUpdateRequest → Invoice → Invoice
set_fields body invoice = record invoice {
  details = set_details body invoice.details;
  tax_cents = given body.tax_cents invoice.tax_cents;
  discount_cents = given body.discount_cents invoice.discount_cents;
}

unfoldable pub audit_changes : Env → ℕ → ℕ → ℕ → Bool → Exec (Unit {0})
audit_changes env org_id user_id invoice_id true =
    log_audit env org_id user_id Action.updated invoice_id
audit_changes env org_id user_id invoice_id false = pure tt

unfoldable pub update_invoice : Env → ℕ → ℕ → ℕ → InvoiceUpdateRequest → Exec Invoice
update_invoice env org_id invoice_id user_id body = do
  lift (require_mutation_role env user_id org_id)
  db ← get_db
  invoice ← lift (load_invoice db org_id invoice_id)
  lift (assert_can_edit invoice.status)
  lift (check_new body.line_items)
  let lines = replace_line_items org_id invoice_id body.line_items db.line_items
  let own = select (is_line_of org_id invoice_id) lines
  invoice' ← lift (retotal (recompute body) own (set_fields body invoice))
  commit (record db { invoices = Dict.put invoice_id invoice' db.invoices; line_items = lines })
  audit_changes env org_id user_id invoice_id (has_changes body)
  pure invoice'
