-- ===== src/Invoicing/Service/Payments.antt =====
-- `record_payment` and `list_payments` of app/services/invoicing/service.py.
use a2z_core.Prelude.{
  ℕ, ◌+◌, Bool, true, false, ◌&&◌, Option, none, some, List, [], ◌∷◌, ◌++◌, select, find, ◌==◌,
  if◌then◌else◌,
}
use a2z_core.Prelude.Text.{Text, text_beq}
use a2z_core.Prelude.Dict
use a2z_core.Prelude.Dict.{nat_eq}
use a2z_core.Invoicing.Errors.{Error}
use a2z_core.Invoicing.StateMachine.{
  assert_can_record_payment, next_payment_status, next_invoice_status,
}
use a2z_core.Invoicing.Model.{Invoice, RecordPaymentRequest, Payment, Db, is_payment_of}
use a2z_core.Invoicing.Exec.{
  Action, Env, Exec, ◌>>=◌, ◌>>◌, pure, raise, lift, get_db, commit, log_audit,
}
use a2z_core.Invoicing.Service.{require_membership, require_mutation_role, load_invoice}

-- The payment's key is the given one (a NULL key equals nothing).
abbrev pub same_key : Text → Option Text → Bool
same_key key none = false
same_key key (some k) = text_beq k key

-- `where(org_id == …, idempotency_key == …)`
abbrev pub has_key : ℕ → Text → Payment → Bool
has_key org_id key p = p.org_id == org_id && same_key key p.body.idempotency_key

-- The lookup is skipped for a missing key and for an empty one (`if body.idempotency_key`).
unfoldable pub find_existing : ℕ → Option Text → List Payment → Option Payment
find_existing org_id none payments = none
find_existing org_id (some []) payments = none
find_existing org_id (some (c ∷ key)) payments = find (has_key org_id (c ∷ key)) payments

-- `uq_payments_org_idempotency_key`, the partial unique index, on a new row.
unfoldable pub violates_index : ℕ → Option Text → List Payment → Bool
violates_index org_id none payments = false
violates_index org_id (some key) payments = elim (find (has_key org_id key) payments) [
  | none ↦ false
  | some _ ↦ true
]

abbrev pub new_payment : ℕ → ℕ → ℕ → RecordPaymentRequest → Payment
new_payment org_id invoice_id user_id body = record {
  org_id = org_id;
  invoice_id = invoice_id;
  body = body;
  recorded_by = user_id;
}

abbrev pub with_payment : Invoice → ℕ → Invoice
with_payment invoice amount_cents =
    let paid = invoice.amount_paid_cents + amount_cents in
    let status = next_payment_status paid invoice.total_cents in
    record invoice {
      amount_paid_cents = paid;
      payment_status = status;
      status = next_invoice_status invoice.status status;
    }

unfoldable pub add_payment :
    Env
    → ℕ
    → ℕ
    → ℕ
    → RecordPaymentRequest
    → Db
    → Invoice
    → Option Payment
    → Exec (Invoice × Payment)
add_payment env org_id invoice_id user_id body db invoice (some existing) = pure (invoice, existing)
add_payment env org_id invoice_id user_id body db invoice none =
    if violates_index org_id body.idempotency_key db.payments then raise Error.integrity else do
      let payment = new_payment org_id invoice_id user_id body
      let invoice' = with_payment invoice body.amount_cents
      commit (record db {
        invoices = Dict.put invoice_id invoice' db.invoices;
        payments = db.payments ++ payment ∷ [];
      })
      log_audit env org_id user_id Action.payment_recorded invoice_id
      pure (invoice', payment)

unfoldable pub record_payment : Env → ℕ → ℕ → ℕ → RecordPaymentRequest → Exec (Invoice × Payment)
record_payment env org_id invoice_id user_id body = do
  lift (require_mutation_role env user_id org_id)
  db ← get_db
  invoice ← lift (load_invoice db org_id invoice_id)
  lift (assert_can_record_payment invoice.status)
  add_payment env org_id invoice_id user_id body db invoice
      (find_existing org_id body.idempotency_key db.payments)

unfoldable pub list_payments : Env → ℕ → ℕ → ℕ → Exec (List Payment)
list_payments env org_id user_id invoice_id = do
  lift (require_membership env user_id org_id)
  db ← get_db
  lift (load_invoice db org_id invoice_id)
  pure (select (is_payment_of org_id invoice_id) db.payments)
