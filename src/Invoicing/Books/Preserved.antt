-- ===== src/Invoicing/Books/Preserved.antt =====
-- The books under each operation of app/services/invoicing/service.py.
pub mod Lemmas
use mathlib.Core.Path.{subst}
use a2z_core.Prelude.{
  ℕ, sym, ◌+◌, ◌≡◌, ◌≢◌, refl, ◌∙◌, ap, Bool, true, false, not, Option, none, some, List, [], ◌∷◌,
  ◌++◌, append-nil, select, arith, inl, inr,
}
use a2z_core.Prelude.Text.{Text}
use a2z_core.Prelude.Dict
use a2z_core.Prelude.Dict.{nat_eq}
use a2z_core.Invoicing.Errors.{ok}
use a2z_core.Invoicing.StateMachine.{
  InvoiceStatus, next_payment_status, compute_totals, is_void, is_sendable, is_payable,
}
use a2z_core.Invoicing.Model.{
  Invoice, InvoiceCreateRequest, InvoiceUpdateRequest, RecordPaymentRequest, Db, is_line_of,
  is_payment_of, amounts, paid_cents,
}
use a2z_core.Invoicing.Exec.{World, Env}
use a2z_core.Invoicing.Service.{load_invoice, build_line_items, new_invoice, create_invoice}
use a2z_core.Invoicing.Service.Edit.{
  set_fields, retotal, recompute, replace_line_items, update_invoice,
}
use a2z_core.Invoicing.Service.Payments.{new_payment, with_payment, record_payment}
use a2z_core.Invoicing.Service.Cases.{
  put_invoice, sent_invoice, Writes, Voids, Deletes, Sends, Pays, Edits, void_invoice-Writes,
  soft_delete_invoice-Writes, send_invoice-Writes, record_payment-Writes, update_invoice-Writes,
  create_invoice-writes,
}
use a2z_core.Invoicing.Books.{IsStaged, IsBalanced, IsValid}
use a2z_core.Invoicing.Books.Rows.{put-IsValid, select-append}
use a2z_core.Invoicing.Books.Preserved.Lemmas.{
  load_invoice-ok, draft-IsStaged, select-new_payment, select-new_payment_other, edit-IsBalanced,
  paid_cents-append, paid_track-IsStaged, retotal-kept, select-replace_line_items,
  select-build_line_items, select-build_line_items_other,
}
use a2z_core.Invoicing.StateMachine.Laws.{compute_totals_exact}

-- A change of columns that the books do not depend on, or of the status to a staged one.
module _ (db : Db) (org_id id : ℕ) (invoice : Invoice) (v : IsValid db)
    (found : load_invoice db org_id id ≡ ok invoice) where
  keeps_amounts :
      (invoice' : Invoice)
      → invoice'.id ≡ invoice.id
      → invoice'.org_id ≡ invoice.org_id
      → invoice'.subtotal_cents ≡ invoice.subtotal_cents
      → invoice'.tax_cents ≡ invoice.tax_cents
      → invoice'.discount_cents ≡ invoice.discount_cents
      → invoice'.total_cents ≡ invoice.total_cents
      → invoice'.amount_paid_cents ≡ invoice.amount_paid_cents
      → invoice'.payment_status ≡ invoice.payment_status
      → IsStaged invoice'.status invoice.amount_paid_cents invoice.payment_status
      → IsValid (put_invoice id invoice' db)
  keeps_amounts invoice' same org subtotal tax discount total paid status staged =
      let (row, own, seen) = load_invoice-ok db org_id id invoice found in
      let b = v.balanced id invoice row in
      put-IsValid db (put_invoice id invoice' db) id invoice' v refl (same ∙ v.keyed id invoice row)
        (λ o j ne. refl) (λ o j ne. refl)
        (rw org (record {
          subtotal = subtotal ∙ b.subtotal;
          total = omega (arith, b.total);
          paid = paid ∙ b.paid;
          payment_status = rw (status, paid, total) b.payment_status;
          staged = rw (paid, status) staged;
        }))

  pub Voids-IsValid : IsValid (put_invoice id (record invoice { status = InvoiceStatus.void }) db)
  Voids-IsValid = keeps_amounts _ refl refl refl refl refl refl refl refl tt

  pub Deletes-IsValid : IsValid (put_invoice id (record invoice { is_deleted = true }) db)
  Deletes-IsValid =
      let (row, own, seen) = load_invoice-ok db org_id id invoice found in
      keeps_amounts _ refl refl refl refl refl refl refl refl (v.balanced id invoice row).staged

  pub Sends-IsValid :
      (env : Env)
      → is_sendable invoice.status ≡ true
      → IsValid (put_invoice id (sent_invoice env org_id invoice) db)
  Sends-IsValid env draft =
      let (row, own, seen) = load_invoice-ok db org_id id invoice found in
      keeps_amounts (sent_invoice env org_id invoice) refl refl refl refl refl refl refl refl (
        draft-IsStaged invoice.status invoice.amount_paid_cents invoice.total_cents
          invoice.payment_status draft (v.balanced id invoice row).staged
          (v.balanced id invoice row).payment_status)

  pub Pays-IsValid :
      (user_id : ℕ) (body : RecordPaymentRequest)
      → is_payable invoice.status ≡ true
      → IsValid (record (put_invoice id (with_payment invoice body.amount_cents) db) {
        payments = db.payments ++ new_payment org_id id user_id body ∷ [];
      })
  Pays-IsValid user_id body payable =
      let (row, own, seen) = load_invoice-ok db org_id id invoice found in
      let b = v.balanced id invoice row in
      let p = new_payment org_id id user_id body in
      put-IsValid db
        (record (put_invoice id (with_payment invoice body.amount_cents) db) {
          payments = db.payments ++ p ∷ [];
        })
        id (with_payment invoice body.amount_cents) v refl (v.keyed id invoice row) (λ o j ne. refl)
        (λ o j ne.
          select-append (is_payment_of o j) db.payments (p ∷ [])
          ∙ rw (select-new_payment_other o j org_id id user_id body ne) (append-nil _))
        (record {
          subtotal = b.subtotal;
          total = b.total;
          paid = rw (select-append (is_payment_of invoice.org_id id) db.payments (p ∷ [])) (
              rw (select-new_payment invoice.org_id org_id id user_id body own)
                (rw paid_cents-append (omega (arith, b.paid))));
          payment_status = refl;
          staged = paid_track-IsStaged invoice.status _ _ payable;
        })

  pub Edits-IsValid :
      (body : InvoiceUpdateRequest) (db' : Db)
      → not (is_void invoice.status) ≡ true
      → Edits org_id id body db invoice db'
      → IsValid db'
  Edits-IsValid body db' open_ (invoice', valid, e) =
      let (row, own, seen) = load_invoice-ok db org_id id invoice found in
      let lines = replace_line_items org_id id body.line_items db.line_items in
      let kept =
        retotal-kept (recompute body) (select (is_line_of org_id id) lines)
          (set_fields body invoice) invoice' valid in
      rw e (
        put-IsValid db (record (put_invoice id invoice' db) { line_items = lines }) id invoice' v
          refl (kept.0 ∙ v.keyed id invoice row)
          (λ o j ne. select-replace_line_items o j org_id id body.line_items db.line_items ne)
          (λ o j ne. refl)
          (subst
            (λ o.
              IsBalanced (select (is_line_of o id) lines) (select (is_payment_of o id) db.payments)
                invoice')
            (sym (kept.1 ∙ own))
            (edit-IsBalanced org_id id body invoice invoice' db.line_items
              (select (is_payment_of org_id id) db.payments) open_
              (subst
                (λ o.
                  IsBalanced (select (is_line_of o id) db.line_items)
                    (select (is_payment_of o id) db.payments) invoice)
                own (v.balanced id invoice row))
              valid)))

-- A new invoice balances, and its id had no rows.
pub created-IsValid :
    (env : Env) (org_id user_id number : ℕ) (body : InvoiceCreateRequest) (totals : ℕ × ℕ) (db : Db)
    → IsValid db
    → Dict.get env.fresh_id db.invoices ≡ none
    → let lines = build_line_items org_id env.fresh_id body.line_items in
      compute_totals (amounts lines) body.tax_cents body.discount_cents ≡ ok totals
      → IsValid
          (record (put_invoice env.fresh_id
            (new_invoice env org_id user_id number body totals)
            db) { line_items = db.line_items ++ lines })
created-IsValid env org_id user_id number body totals db v fresh valid =
    let id = env.fresh_id in
    let lines = build_line_items org_id id body.line_items in
    let invoice = new_invoice env org_id user_id number body totals in
    let exact =
      (compute_totals_exact (amounts lines) body.tax_cents body.discount_cents).1 totals.0 totals.1
        valid in
    put-IsValid db (record (put_invoice id invoice db) { line_items = db.line_items ++ lines }) id
      invoice v refl refl
      (λ o j ne.
        select-append (is_line_of o j) db.line_items lines
        ∙ rw (select-build_line_items_other o j org_id id body.line_items ne) (append-nil _))
      (λ o j ne. refl)
      (rw
        (
          select-append (is_line_of org_id id) db.line_items lines,
          v.no_lines org_id id fresh,
          v.no_payments org_id id fresh,
          select-build_line_items org_id id body.line_items,
        )
        (record {
          subtotal = exact.0;
          total = exact.1;
          paid = refl;
          payment_status = unfold next_payment_status in refl;
          staged = refl;
        }))
