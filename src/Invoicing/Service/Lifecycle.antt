-- ===== src/Invoicing/Service/Lifecycle.antt =====
-- `soft_delete_invoice`, `send_invoice` and `void_invoice` of app/services/invoicing/service.py.
use a2z_core.Prelude.{ℕ, true, false, none, some}
use a2z_core.Prelude.Text.{Text}
use a2z_core.Prelude.Dict
use a2z_core.Prelude.Dict.{nat_eq}
use a2z_core.Invoicing.Errors.{Error}
use a2z_core.Invoicing.StateMachine.{InvoiceStatus, assert_can_send, assert_can_void}
use a2z_core.Invoicing.Model.{Invoice}
use a2z_core.Invoicing.Exec.{
  Action, Effect, Env, Exec, ◌>>=◌, ◌>>◌, pure, raise, lift, get_db, commit, emit, log_audit,
}
use a2z_core.Invoicing.Service.{require_mutation_role, load_invoice}

abbrev save : ℕ → Invoice → Exec (Unit {0})
save invoice_id invoice = do
  db ← get_db
  commit (record db { invoices = Dict.put invoice_id invoice db.invoices })

unfoldable pub soft_delete_invoice : Env → ℕ → ℕ → ℕ → Exec (Unit {0})
soft_delete_invoice env org_id invoice_id user_id = do
  lift (require_mutation_role env user_id org_id)
  db ← get_db
  invoice ← lift (load_invoice db org_id invoice_id)
  save invoice_id (record invoice { is_deleted = true })
  log_audit env org_id user_id Action.deleted invoice_id

-- `upload_file` of the rendered PDF.
unfoldable pub store_pdf : Env → ℕ → Invoice → Exec Text
store_pdf env org_id invoice = elim (env.upload_file org_id invoice.invoice_number) [
  | none ↦ raise Error.storage_error
  | some key ↦ emit (Effect.uploaded org_id key) >> pure key
]

-- `send_email` with the PDF attached.
unfoldable pub email_pdf : Env → ℕ → Text → Exec (Unit {0})
email_pdf env org_id recipient_email = elim env.email_fails [
  | true ↦ raise Error.email_error
  | false ↦ emit (Effect.emailed org_id recipient_email)
]

unfoldable pub send_invoice : Env → ℕ → ℕ → ℕ → Text → Exec Invoice
send_invoice env org_id invoice_id user_id recipient_email = do
  lift (require_mutation_role env user_id org_id)
  db ← get_db
  invoice ← lift (load_invoice db org_id invoice_id)
  lift (assert_can_send invoice.status)
  key ← store_pdf env org_id invoice
  email_pdf env org_id recipient_email
  let invoice' = record invoice { status = InvoiceStatus.sent; pdf_s3_key = some key }
  save invoice_id invoice'
  log_audit env org_id user_id Action.was_sent invoice_id
  pure invoice'

unfoldable pub void_invoice : Env → ℕ → ℕ → ℕ → Exec Invoice
void_invoice env org_id invoice_id user_id = do
  lift (require_mutation_role env user_id org_id)
  db ← get_db
  invoice ← lift (load_invoice db org_id invoice_id)
  lift (assert_can_void invoice.status)
  let invoice' = record invoice { status = InvoiceStatus.void }
  save invoice_id invoice'
  log_audit env org_id user_id Action.voided invoice_id
  pure invoice'
