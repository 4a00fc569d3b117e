-- ===== src/Invoicing/Requests/Atomicity.antt =====
-- The tables after a call that raised (the place of the commit in the operations of
-- app/services/invoicing/service.py).
use a2z_core.Prelude.{
  ℕ, ◌≡◌, inl, inr, Bool, true, false, arith, Bool-cases, Option-cases, select, not,
}
use a2z_core.Prelude.Text.{Text}
use a2z_core.Prelude.Dict
use a2z_core.Prelude.Dict.{nat_eq}
use a2z_core.Core.Role.{Role}
use a2z_core.Invoicing.Errors.{Error, Result, ok, err, Result-cases}
use a2z_core.Invoicing.StateMachine.{
  is_void, is_sendable, is_payable, assert_can_edit, assert_can_send, assert_can_record_payment,
  assert_can_void, compute_totals,
}
use a2z_core.Invoicing.Model.{
  Invoice, InvoiceCreateRequest, InvoiceUpdateRequest, RecordPaymentRequest, Db, is_line_of,
  amounts,
}
use a2z_core.Invoicing.Exec.{World, Env, log_audit}
use a2z_core.Invoicing.Service.{
  require_mutation_role, load_invoice, check_line_items, build_line_items, get_next_invoice_number,
  next_number, has_number, create_invoice,
}
use a2z_core.Invoicing.Service.Edit.{
  set_fields, retotal, recompute, replace_line_items, audit_changes, check_new, update_invoice,
  has_changes,
}
use a2z_core.Invoicing.Service.Lifecycle.{
  soft_delete_invoice, store_pdf, email_pdf, send_invoice, void_invoice,
}
use a2z_core.Invoicing.Service.Payments.{find_existing, violates_index, add_payment, record_payment}
use a2z_core.Invoicing.Requests.{Request, create, update, delete, send, pay, void, serve, outcome}

-- A call of one invoice, split on what decides it: the role, the row, and the status.
guarded :
    (env : Env) (org_id id user_id : ℕ) (db : Db) (guard : Invoice → Bool) (P : Type 0)
    → ((e : Error) → require_mutation_role env user_id org_id ≡ err e → P)
    → ((role : Role) (e : Error)
        → require_mutation_role env user_id org_id ≡ ok role
        → load_invoice db org_id id ≡ err e
        → P)
    → ((role : Role) (invoice : Invoice)
        → require_mutation_role env user_id org_id ≡ ok role
        → load_invoice db org_id id ≡ ok invoice
        → guard invoice ≡ false
        → P)
    → ((role : Role) (invoice : Invoice)
        → require_mutation_role env user_id org_id ≡ ok role
        → load_invoice db org_id id ≡ ok invoice
        → guard invoice ≡ true
        → P)
    → P
guarded env org_id id user_id db guard P no_role no_row shut works =
    elim (Result-cases (require_mutation_role env user_id org_id)) [
      | inl (e, h) ↦ no_role e h
      | inr (role, h) ↦ elim (Result-cases (load_invoice db org_id id)) [
        | inl (e, r) ↦ no_row role e h r
        | inr (invoice, r) ↦ elim (Bool-cases (guard invoice)) [
          | inl g ↦ works role invoice h r g
          | inr g ↦ shut role invoice h r g
        ]
      ]
    ]

module _ (env : Env) (org_id id user_id : ℕ) (w : World) (audited : env.audit_fails ≡ false)
    (e : Error) where
  void_invoice-raises :
      (void_invoice env org_id id user_id w).0 ≡ err e
      → (void_invoice env org_id id user_id w).1.db ≡ w.db
  unfolding void_invoice log_audit assert_can_void
  void_invoice-raises h =
      guarded env org_id id user_id w.db (λ i. not (is_void i.status)) _ (λ e' a. ground arith)
        (λ role e' a b. ground arith) (λ role invoice a b g. ground arith)
        (λ role invoice a b g. absurd (ground arith))

  soft_delete_invoice-raises :
      (soft_delete_invoice env org_id id user_id w).0 ≡ err e
      → (soft_delete_invoice env org_id id user_id w).1.db ≡ w.db
  unfolding soft_delete_invoice log_audit
  soft_delete_invoice-raises h =
      guarded env org_id id user_id w.db (λ i. true) _ (λ e' a. ground arith)
        (λ role e' a b. ground arith) (λ role invoice a b g. ground arith)
        (λ role invoice a b g. absurd (ground arith))

  send_invoice-raises :
      (recipient : Text)
      → (send_invoice env org_id id user_id recipient w).0 ≡ err e
      → (send_invoice env org_id id user_id recipient w).1.db ≡ w.db
  unfolding send_invoice log_audit assert_can_send store_pdf email_pdf
  send_invoice-raises recipient h =
      guarded env org_id id user_id w.db (λ i. is_sendable i.status) _ (λ e' a. ground arith)
        (λ role e' a b. ground arith) (λ role invoice a b g. ground arith)
        (λ role invoice a b g. elim (Option-cases (env.upload_file org_id invoice.invoice_number)) [
          | inl failed ↦ ground arith
          | inr (key, stored) ↦ elim (Bool-cases env.email_fails) [
            | inl failed ↦ ground arith
            | inr done ↦ absurd (ground arith)
          ]
        ])

  record_payment-raises :
      (body : RecordPaymentRequest)
      → (record_payment env org_id id user_id body w).0 ≡ err e
      → (record_payment env org_id id user_id body w).1.db ≡ w.db
  unfolding record_payment log_audit assert_can_record_payment add_payment
  record_payment-raises body h =
      guarded env org_id id user_id w.db (λ i. is_payable i.status) _ (λ e' a. ground arith)
        (λ role e' a b. ground arith) (λ role invoice a b g. ground arith)
        (λ role invoice a b g.
          elim (Option-cases (find_existing org_id body.idempotency_key w.db.payments)) [
            | inr (existing, replay) ↦ ground arith
            | inl fresh ↦
                elim (Bool-cases (violates_index org_id body.idempotency_key w.db.payments)) [
                  | inl clash ↦ ground arith
                  | inr unique ↦ absurd (ground arith)
                ]
          ])

  update_invoice-raises :
      (body : InvoiceUpdateRequest)
      → (update_invoice env org_id id user_id body w).0 ≡ err e
      → (update_invoice env org_id id user_id body w).1.db ≡ w.db
  unfolding update_invoice log_audit assert_can_edit audit_changes
  update_invoice-raises body h =
      guarded env org_id id user_id w.db (λ i. not (is_void i.status)) _ (λ e' a. ground arith)
        (λ role e' a b. ground arith) (λ role invoice a b g. ground arith)
        (λ role invoice a b g.
          let lines = replace_line_items org_id id body.line_items w.db.line_items in
          elim (Result-cases (check_new body.line_items)) [
            | inl (e', unfit) ↦ ground arith
            | inr (u, fit) ↦
                elim (Result-cases (
                  retotal (recompute body) (select (is_line_of org_id id) lines)
                    (set_fields body invoice))) [
                      | inl (e', invalid) ↦ ground arith
                      | inr (invoice', valid) ↦ elim (Bool-cases (has_changes body)) [
                        | inl changed ↦ absurd (ground arith)
                        | inr unchanged ↦ absurd (ground arith)
                      ]
                    ]
          ])

  create_invoice-raises :
      (body : InvoiceCreateRequest)
      → (create_invoice env org_id user_id body w).0 ≡ err e
      → (create_invoice env org_id user_id body w).1.db ≡ w.db
  unfolding create_invoice log_audit get_next_invoice_number
  create_invoice-raises body h =
      let lines = build_line_items org_id env.fresh_id body.line_items in
      elim (Result-cases (require_mutation_role env user_id org_id)) [
        | inl (e', refused) ↦ ground arith
        | inr (role, allowed) ↦ elim (Bool-cases env.counter_fails) [
          | inl failed ↦ ground arith
          | inr counted ↦ elim (Result-cases (check_line_items body.line_items)) [
            | inl (e', unfit) ↦ ground arith
            | inr (u, fit) ↦
                elim (Result-cases
                  (compute_totals (amounts lines) body.tax_cents body.discount_cents)) [
                    | inl (e', invalid) ↦ ground arith
                    | inr (totals, valid) ↦
                        let number = next_number (Dict.get org_id w.counters) in
                        elim (Bool-cases (has_number org_id (env.year, number) w.db.invoices)) [
                          | inl taken ↦ ground arith
                          | inr free ↦ absurd (ground arith)
                        ]
                  ]
          ]
        ]
      ]

outcome-err : {A : Type 0} (r : Result A) (e : Error) → outcome r ≡ err e → r ≡ err e
outcome-err (ok a) e h = absurd (ground arith)
outcome-err (err x) e h = ground arith

-- A request that raises has changed no table, if the audit log can be written: a refused role, an
-- invoice that is not there, a status that forbids it, totals that would be negative, a duplicate key
-- and a failing call of the settings, the storage or the mail all leave the tables as they were.
pub serve-raises :
    (env : Env) (org_id user_id : ℕ) (request : Request) (w : World) (e : Error)
    → env.audit_fails ≡ false
    → (serve env org_id user_id request w).0 ≡ err e
    → (serve env org_id user_id request w).1.db ≡ w.db
unfolding serve
serve-raises env org_id user_id (create body) w e audited h =
    create_invoice-raises env org_id 0 user_id w audited e body (outcome-err _ e h)
serve-raises env org_id user_id (update id body) w e audited h =
    update_invoice-raises env org_id id user_id w audited e body (outcome-err _ e h)
serve-raises env org_id user_id (delete id) w e audited h =
    soft_delete_invoice-raises env org_id id user_id w audited e h
serve-raises env org_id user_id (send id recipient) w e audited h =
    send_invoice-raises env org_id id user_id w audited e recipient (outcome-err _ e h)
serve-raises env org_id user_id (pay id body) w e audited h =
    record_payment-raises env org_id id user_id w audited e body (outcome-err _ e h)
serve-raises env org_id user_id (void id) w e audited h =
    void_invoice-raises env org_id id user_id w audited e (outcome-err _ e h)
