-- ===== src/Invoicing/Service/Cases.antt =====
-- The tables after each operation of app/services/invoicing/service.py, by how it ends.
use a2z_core.Prelude.{
  ℕ, ◌≡◌, ◌⊎◌, inl, inr, Bool, true, false, not, [], ◌∷◌, ◌++◌, select, arith, Bool-cases,
  Option-cases,
}
use a2z_core.Prelude.Text.{Text}
use a2z_core.Prelude.Dict
use a2z_core.Prelude.Dict.{nat_eq}
use a2z_core.Core.Role.{Role}
use a2z_core.Invoicing.Errors.{Error, ok, err, Result-cases}
use a2z_core.Invoicing.StateMachine.{
  InvoiceStatus, is_void, is_sendable, is_payable, assert_can_edit, assert_can_send,
  assert_can_record_payment, assert_can_void, compute_totals,
}
use a2z_core.Invoicing.Model.{
  Invoice, InvoiceCreateRequest, InvoiceUpdateRequest, RecordPaymentRequest, Db, is_line_of,
  amounts,
}
use a2z_core.Invoicing.Exec.{World, Env, log_audit}
use a2z_core.Invoicing.Service.{
  require_mutation_role, load_invoice, build_line_items, get_next_invoice_number, next_number,
  new_invoice, has_number, check_line_items, create_invoice,
}
use a2z_core.Invoicing.Service.Edit.{
  set_fields, retotal, recompute, replace_line_items, audit_changes, check_new, update_invoice,
}
use a2z_core.Invoicing.Service.Lifecycle.{
  soft_delete_invoice, store_pdf, email_pdf, send_invoice, void_invoice,
}
use a2z_core.Invoicing.Service.Payments.{
  find_existing, violates_index, new_payment, with_payment, add_payment, record_payment,
}

abbrev pub put_invoice : ℕ → Invoice → Db → Db
put_invoice id invoice db = record db { invoices = Dict.put id invoice db.invoices }

-- The tables after a call are those before it, or they have changed as `Change` says of the invoice
-- that the caller's org sees under `id`, whose status passes `guard`.
abbrev pub Writes : ℕ → ℕ → (InvoiceStatus → Bool) → (Invoice → Db → Type 0) → Db → Db → Type 0
Writes org_id id guard Change db db' =
    (db' ≡ db)
    ⊎ ((invoice : Invoice) × (load_invoice db org_id id ≡ ok invoice)
        × (guard invoice.status ≡ true)
        × Change invoice db')

-- To prove something of the tables after a call.
pub Writes-elim {ℓ} :
    (org_id id : ℕ) (guard : InvoiceStatus → Bool) (Change : Invoice → Db → Type 0) (db db' : Db)
    (P : Db → Type ℓ)
    → P db
    → ((invoice : Invoice)
        → load_invoice db org_id id ≡ ok invoice
        → guard invoice.status ≡ true
        → Change invoice db'
        → P db')
    → Writes org_id id guard Change db db'
    → P db'
Writes-elim org_id id guard Change db db' P v keeps (inl same) = rw same v
Writes-elim org_id id guard Change db db' P v keeps (inr (invoice, found, passed, changed)) =
    keeps invoice found passed changed

-- The steps that every operation on an invoice begins with.
Writes-split :
    (env : Env) (org_id id user_id : ℕ) (guard : InvoiceStatus → Bool)
    (Change : Invoice → Db → Type 0) (db db' : Db)
    → ((e : Error) → require_mutation_role env user_id org_id ≡ err e → db' ≡ db)
    → ((e : Error) → load_invoice db org_id id ≡ err e → db' ≡ db)
    → ((role : Role) (invoice : Invoice)
        → require_mutation_role env user_id org_id ≡ ok role
        → load_invoice db org_id id ≡ ok invoice
        → guard invoice.status ≡ false
        → db' ≡ db)
    → ((role : Role) (invoice : Invoice)
        → require_mutation_role env user_id org_id ≡ ok role
        → load_invoice db org_id id ≡ ok invoice
        → guard invoice.status ≡ true
        → (db' ≡ db) ⊎ Change invoice db')
    → Writes org_id id guard Change db db'
Writes-split env org_id id user_id guard Change db db' no_role no_row shut works =
    elim (Result-cases (require_mutation_role env user_id org_id)) [
      | inl (e, refused) ↦ inl (no_role e refused)
      | inr (role, allowed) ↦ elim (Result-cases (load_invoice db org_id id)) [
        | inl (e, missing) ↦ inl (no_row e missing)
        | inr (invoice, found) ↦ elim (Bool-cases (guard invoice.status)) [
          | inr closed ↦ inl (shut role invoice allowed found closed)
          | inl passed ↦ elim (works role invoice allowed found passed) [
            | inl same ↦ inl same
            | inr changed ↦ inr (invoice, found, passed, changed)
          ]
        ]
      ]
    ]

-- What a send writes: the status, and the key of the PDF that was stored.
abbrev pub sent_invoice : Env → ℕ → Invoice → Invoice
sent_invoice env org_id invoice = record invoice {
  status = InvoiceStatus.sent;
  pdf_s3_key = env.upload_file org_id invoice.invoice_number;
}

-- The tables after each operation has written, in terms of those before and of the loaded invoice.
abbrev pub Voids : ℕ → Db → Invoice → Db → Type 0
Voids id db invoice db' = db' ≡ put_invoice id (record invoice { status = InvoiceStatus.void }) db

abbrev pub Deletes : ℕ → Db → Invoice → Db → Type 0
Deletes id db invoice db' = db' ≡ put_invoice id (record invoice { is_deleted = true }) db

abbrev pub Sends : Env → ℕ → ℕ → Db → Invoice → Db → Type 0
Sends env org_id id db invoice db' = db' ≡ put_invoice id (sent_invoice env org_id invoice) db

abbrev pub Pays : ℕ → ℕ → ℕ → RecordPaymentRequest → Db → Invoice → Db → Type 0
Pays org_id id user_id body db invoice db' =
    db' ≡ record (put_invoice id (with_payment invoice body.amount_cents) db) {
      payments = db.payments ++ new_payment org_id id user_id body ∷ [];
    }

abbrev pub Edits : ℕ → ℕ → InvoiceUpdateRequest → Db → Invoice → Db → Type 0
Edits org_id id body db invoice db' =
    let lines = replace_line_items org_id id body.line_items db.line_items in
    (invoice' : Invoice) × (retotal (recompute body) (select (is_line_of org_id id) lines)
        (set_fields body invoice)
      ≡ ok invoice')
    × (db' ≡ record (put_invoice id invoice' db) { line_items = lines })

module _ (env : Env) (org_id id user_id : ℕ) (w : World) where
  pub void_invoice-Writes :
      Writes org_id id
        (λ s. not (is_void s))
        (Voids id w.db)
        w.db
        (void_invoice env org_id id user_id w).1.db
  unfolding void_invoice log_audit assert_can_void
  void_invoice-Writes =
      Writes-split env org_id id user_id (λ s. not (is_void s)) (Voids id w.db) w.db _
        (λ e h. ground arith) (λ e h. ground arith) (λ role invoice r h g. ground arith)
        (λ role invoice r h g. inr (ground arith))

  pub soft_delete_invoice-Writes :
      Writes org_id id
        (λ s. true)
        (Deletes id w.db)
        w.db
        (soft_delete_invoice env org_id id user_id w).1.db
  unfolding soft_delete_invoice log_audit
  soft_delete_invoice-Writes =
      Writes-split env org_id id user_id (λ s. true) (Deletes id w.db) w.db _ (λ e h. ground arith)
        (λ e h. ground arith) (λ role invoice r h g. ground arith)
        (λ role invoice r h g. inr (ground arith))

  pub send_invoice-Writes :
      (recipient : Text)
      → Writes org_id id is_sendable
          (Sends env org_id id w.db)
          w.db
          (send_invoice env org_id id user_id recipient w).1.db
  unfolding send_invoice log_audit assert_can_send store_pdf email_pdf
  send_invoice-Writes recipient =
      Writes-split env org_id id user_id is_sendable (Sends env org_id id w.db) w.db _
        (λ e h. ground arith) (λ e h. ground arith) (λ role invoice r h g. ground arith)
        (λ role invoice r h g. elim (Option-cases (env.upload_file org_id invoice.invoice_number)) [
          | inl failed ↦ inl (ground arith)
          | inr (key, stored) ↦ elim (Bool-cases env.email_fails) [
            | inl failed ↦ inl (ground arith)
            | inr done ↦ inr (ground arith)
          ]
        ])

  pub record_payment-Writes :
      (body : RecordPaymentRequest)
      → Writes org_id id is_payable
          (Pays org_id id user_id body w.db)
          w.db
          (record_payment env org_id id user_id body w).1.db
  unfolding record_payment log_audit assert_can_record_payment add_payment
  record_payment-Writes body =
      Writes-split env org_id id user_id is_payable (Pays org_id id user_id body w.db) w.db _
        (λ e h. ground arith) (λ e h. ground arith) (λ role invoice r h g. ground arith)
        (λ role invoice r h g.
          elim (Option-cases (find_existing org_id body.idempotency_key w.db.payments)) [
            | inr (existing, replay) ↦ inl (ground arith)
            | inl fresh ↦
                elim (Bool-cases (violates_index org_id body.idempotency_key w.db.payments)) [
                  | inl clash ↦ inl (ground arith)
                  | inr unique ↦ inr (ground arith)
                ]
          ])

  pub update_invoice-Writes :
      (body : InvoiceUpdateRequest)
      → Writes org_id id
          (λ s. not (is_void s))
          (Edits org_id id body w.db)
          w.db
          (update_invoice env org_id id user_id body w).1.db
  unfolding update_invoice log_audit assert_can_edit audit_changes
  update_invoice-Writes body =
      let lines = replace_line_items org_id id body.line_items w.db.line_items in
      Writes-split env org_id id user_id (λ s. not (is_void s)) (Edits org_id id body w.db) w.db _
        (λ e h. ground arith) (λ e h. ground arith) (λ role invoice r h g. ground arith)
        (λ role invoice r h g. elim (Result-cases (check_new body.line_items)) [
          | inl (e, refused) ↦ inl (ground arith)
          | inr (u, passed) ↦
              elim (Result-cases (
                retotal (recompute body) (select (is_line_of org_id id) lines)
                  (set_fields body invoice))) [
                    | inl (e, invalid) ↦ inl (ground arith)
                    | inr (invoice', valid) ↦ inr (invoice', valid, ground arith)
                  ]
        ])

  pub create_invoice-writes :
      (body : InvoiceCreateRequest)
      → let lines = build_line_items org_id env.fresh_id body.line_items in
        ((create_invoice env org_id user_id body w).1.db ≡ w.db)
        ⊎ ((number : ℕ) × (totals : ℕ × ℕ) × (compute_totals
                (amounts lines)
                body.tax_cents
                body.discount_cents
              ≡ ok totals)
            × ((create_invoice env org_id user_id body w).1.db
                ≡ record (put_invoice env.fresh_id
                    (new_invoice env org_id user_id number body totals)
                    w.db) { line_items = w.db.line_items ++ lines }))
  unfolding create_invoice log_audit get_next_invoice_number
  create_invoice-writes body =
      let lines = build_line_items org_id env.fresh_id body.line_items in
      elim (Result-cases (require_mutation_role env user_id org_id)) [
        | inl (e, refused) ↦ inl (ground arith)
        | inr (role, allowed) ↦ elim (Bool-cases env.counter_fails) [
          | inl failed ↦ inl (ground arith)
          | inr counted ↦ elim (Result-cases (check_line_items body.line_items)) [
            | inl (e, unfit) ↦ inl (ground arith)
            | inr (u, fit) ↦
                elim (Result-cases
                  (compute_totals (amounts lines) body.tax_cents body.discount_cents)) [
                    | inl (e, invalid) ↦ inl (ground arith)
                    | inr (totals, valid) ↦
                        let number = next_number (Dict.get org_id w.counters) in
                        elim (Bool-cases (has_number org_id (env.year, number) w.db.invoices)) [
                          | inl taken ↦ inl (ground arith)
                          | inr free ↦ inr (number, totals, valid, ground arith)
                        ]
                  ]
          ]
        ]
      ]
