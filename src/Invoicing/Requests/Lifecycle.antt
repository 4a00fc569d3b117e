-- ===== src/Invoicing/Requests/Lifecycle.antt =====
-- How the row of an invoice changes from request to request: the transitions of its status
-- (app/services/invoicing/state_machine.py), and what never changes (service.py).
use a2z_core.Prelude.{
  ℕ, ◌≡◌, ◌≤◌, refl, ◌⊎◌, inl, inr, Bool, true, false, not, none, some, List, [], ◌∷◌, arith, ◌∙◌,
  Bool-cases,
}
use mathlib.Core.Path.{subst}
use a2z_core.Prelude.Dict
use a2z_core.Prelude.Dict.{Dict, nat_eq, get-put}
use a2z_core.Invoicing.Errors.{ok, Result-cases}
use a2z_core.Invoicing.StateMachine.{
  InvoiceStatus, PaymentStatus, is_void, is_sendable, is_payable, compute_totals,
  next_invoice_status, on_paid_track,
}
use a2z_core.Invoicing.Model.{Invoice, LineItem, InvoiceUpdateRequest, Db, amounts}
use a2z_core.Invoicing.Exec.{World, Env}
use a2z_core.Invoicing.Service.{load_invoice}
use a2z_core.Invoicing.Service.Edit.{set_fields, retotal, with_totals, recompute, update_invoice}
use a2z_core.Invoicing.Service.Lifecycle.{soft_delete_invoice, send_invoice, void_invoice}
use a2z_core.Invoicing.Service.Payments.{with_payment, record_payment}
use a2z_core.Invoicing.Service.Cases.{
  sent_invoice, Writes-elim, Voids, Deletes, Sends, Pays, Edits, void_invoice-Writes,
  soft_delete_invoice-Writes, send_invoice-Writes, record_payment-Writes, update_invoice-Writes,
  create_invoice-writes,
}
use a2z_core.Invoicing.Books.Preserved.Lemmas.{load_invoice-ok}
use a2z_core.Invoicing.Requests.{
  Request, create, update, delete, send, pay, void, Call, serve, step, run, AllFresh,
}

-- The transitions of an invoice's status under one request.
abbrev pub allowed : InvoiceStatus → InvoiceStatus → Bool
allowed InvoiceStatus.void InvoiceStatus.void = true
allowed InvoiceStatus.void _ = false
allowed _ InvoiceStatus.void = true
allowed InvoiceStatus.draft InvoiceStatus.draft = true
allowed InvoiceStatus.draft InvoiceStatus.sent = true
allowed InvoiceStatus.draft _ = false
allowed _ InvoiceStatus.draft = false
allowed _ _ = true

-- What one request may make of the row of an invoice.
pub record Follows (old new : Invoice) : Type 0 where
  pub id : new.id ≡ old.id
  pub org_id : new.org_id ≡ old.org_id
  pub invoice_number : new.invoice_number ≡ old.invoice_number
  pub created_by : new.created_by ≡ old.created_by
  pub currency_code : new.currency_code ≡ old.currency_code
  pub status : allowed old.status new.status ≡ true
  pub amount_paid_cents : old.amount_paid_cents ≤ new.amount_paid_cents
  pub voided : is_void old.status ≡ true → new.total_cents ≡ old.total_cents
  pub deleted : old.is_deleted ≡ true → new ≡ old

abbrev Survives : ℕ → Invoice → Db → Type 0
Survives j old db' = (new : Invoice) × (Dict.get j db'.invoices ≡ some new) × Follows old new

allowed_refl : (s : InvoiceStatus) → allowed s s ≡ true
allowed_refl InvoiceStatus.draft = refl
allowed_refl InvoiceStatus.sent = refl
allowed_refl InvoiceStatus.partially_paid = refl
allowed_refl InvoiceStatus.paid = refl
allowed_refl InvoiceStatus.void = refl

Follows-refl : (i : Invoice) → Follows i i
Follows-refl i = record {
  id = refl;
  org_id = refl;
  invoice_number = refl;
  created_by = refl;
  currency_code = refl;
  status = allowed_refl i.status;
  amount_paid_cents = omega arith;
  voided = λ h. refl;
  deleted = λ h. refl;
}

allowed-void : (s : InvoiceStatus) → allowed s InvoiceStatus.void ≡ true
allowed-void InvoiceStatus.draft = refl
allowed-void InvoiceStatus.sent = refl
allowed-void InvoiceStatus.partially_paid = refl
allowed-void InvoiceStatus.paid = refl
allowed-void InvoiceStatus.void = refl

allowed-sent : (s : InvoiceStatus) → is_sendable s ≡ true → allowed s InvoiceStatus.sent ≡ true
unfolding is_sendable
allowed-sent InvoiceStatus.draft h = refl
allowed-sent InvoiceStatus.sent h = refl
allowed-sent InvoiceStatus.partially_paid h = refl
allowed-sent InvoiceStatus.paid h = refl
allowed-sent InvoiceStatus.void h = absurd (ground arith)

allowed-next_invoice_status :
    (s : InvoiceStatus) (p : PaymentStatus) → allowed s (next_invoice_status s p) ≡ true
unfolding next_invoice_status is_payable on_paid_track
allowed-next_invoice_status InvoiceStatus.draft p = refl
allowed-next_invoice_status InvoiceStatus.void p = refl
allowed-next_invoice_status InvoiceStatus.sent PaymentStatus.unpaid = refl
allowed-next_invoice_status InvoiceStatus.sent PaymentStatus.partially_paid = refl
allowed-next_invoice_status InvoiceStatus.sent PaymentStatus.paid = refl
allowed-next_invoice_status InvoiceStatus.partially_paid PaymentStatus.unpaid = refl
allowed-next_invoice_status InvoiceStatus.partially_paid PaymentStatus.partially_paid = refl
allowed-next_invoice_status InvoiceStatus.partially_paid PaymentStatus.paid = refl
allowed-next_invoice_status InvoiceStatus.paid PaymentStatus.unpaid = refl
allowed-next_invoice_status InvoiceStatus.paid PaymentStatus.partially_paid = refl
allowed-next_invoice_status InvoiceStatus.paid PaymentStatus.paid = refl

-- A row that is written over a loaded one.
module _ (db : Db) (org_id id : ℕ) (loaded : Invoice)
    (found : load_invoice db org_id id ≡ ok loaded) (j : ℕ) (old : Invoice)
    (present : Dict.get j db.invoices ≡ some old) where
  put-Survives :
      (new : Invoice) (db' : Db)
      → db'.invoices ≡ Dict.put id new db.invoices
      → ((loaded.is_deleted ≡ false) → Follows loaded new)
      → Survives j old db'
  put-Survives new db' e follows =
      let (row, own, seen) = load_invoice-ok db org_id id loaded found in
      elim (Bool-cases (nat_eq.beq id j)) [
        | inl same ↦
            let is_j : id ≡ j = (nat_eq.beq_iff id j).0 same in
            let is_old : loaded ≡ old = ground (arith, row, present, is_j) in
            (
              new,
              rw e (rw get-put (rw same refl)),
              subst (λ i. Follows i new) is_old (follows seen),
            )
        | inr other ↦ (old, rw e (rw get-put (rw other present)), Follows-refl old)
      ]

retotal-cases :
    (again : Bool) (lines : List LineItem) (invoice invoice' : Invoice)
    → retotal again lines invoice ≡ ok invoice'
    → (invoice ≡ invoice') ⊎ ((totals : ℕ × ℕ) × (with_totals invoice totals ≡ invoice'))
unfolding retotal
retotal-cases false lines invoice invoice' h = inl (ground arith)
retotal-cases true lines invoice invoice' h =
    elim (Result-cases (compute_totals (amounts lines) invoice.tax_cents invoice.discount_cents)) [
      | inl (e, bad) ↦ absurd (ground arith)
      | inr (totals, good) ↦ inr (totals, ground arith)
    ]

-- The rows that the operations write follow the loaded row.
module _ (invoice : Invoice) (seen : invoice.is_deleted ≡ false) where
  Voids-Follows : Follows invoice (record invoice { status = InvoiceStatus.void })
  Voids-Follows = record {
    id = refl;
    org_id = refl;
    invoice_number = refl;
    created_by = refl;
    currency_code = refl;
    status = allowed-void invoice.status;
    amount_paid_cents = omega arith;
    voided = λ h. refl;
    deleted = λ h. absurd (ground (arith, seen, h));
  }

  Deletes-Follows : Follows invoice (record invoice { is_deleted = true })
  Deletes-Follows = record {
    id = refl;
    org_id = refl;
    invoice_number = refl;
    created_by = refl;
    currency_code = refl;
    status = allowed_refl invoice.status;
    amount_paid_cents = omega arith;
    voided = λ h. refl;
    deleted = λ h. absurd (ground (arith, seen, h));
  }

  Sends-Follows :
      (env : Env) (org_id : ℕ)
      → is_sendable invoice.status ≡ true
      → Follows invoice (sent_invoice env org_id invoice)
  Sends-Follows env org_id draft = record {
    id = refl;
    org_id = refl;
    invoice_number = refl;
    created_by = refl;
    currency_code = refl;
    status = allowed-sent invoice.status draft;
    amount_paid_cents = omega arith;
    voided = λ h. refl;
    deleted = λ h. absurd (ground (arith, seen, h));
  }

  Pays-Follows :
      (cents : ℕ) → is_payable invoice.status ≡ true → Follows invoice (with_payment invoice cents)
  Pays-Follows cents payable = record {
    id = refl;
    org_id = refl;
    invoice_number = refl;
    created_by = refl;
    currency_code = refl;
    status = allowed-next_invoice_status invoice.status _;
    amount_paid_cents = omega arith;
    voided = λ h. refl;
    deleted = λ h. absurd (ground (arith, seen, h));
  }

  Edits-Follows :
      (body : InvoiceUpdateRequest) (lines : List LineItem) (invoice' : Invoice)
      → not (is_void invoice.status) ≡ true
      → retotal (recompute body) lines (set_fields body invoice) ≡ ok invoice'
      → Follows invoice invoice'
  Edits-Follows body lines invoice' open_ h =
      elim (retotal-cases (recompute body) lines (set_fields body invoice) invoice' h) [
        | inl e ↦ rw (← e) (record {
          id = refl;
          org_id = refl;
          invoice_number = refl;
          created_by = refl;
          currency_code = refl;
          status = allowed_refl invoice.status;
          amount_paid_cents = omega arith;
          voided = λ v. refl;
          deleted = λ d. absurd (ground (arith, seen, d));
        })
        | inr (totals, e) ↦ rw (← e) (record {
          id = refl;
          org_id = refl;
          invoice_number = refl;
          created_by = refl;
          currency_code = refl;
          status = allowed-next_invoice_status invoice.status _;
          amount_paid_cents = omega arith;
          voided = λ v. absurd (ground (arith, open_, v));
          deleted = λ d. absurd (ground (arith, seen, d));
        })
      ]

-- Under one request, of any caller and however it ends, if the call's fresh uuid is the id of no
-- invoice, the row of every invoice stays: its id, org, number, creator and currency are the same,
-- its status makes one of the allowed transitions, the amount paid does not decrease, a void
-- invoice keeps its total and a deleted one its whole row.
pub serve-Follows :
    (env : Env) (org_id user_id : ℕ) (request : Request) (w : World)
    → Dict.get env.fresh_id w.db.invoices ≡ none
    → (j : ℕ) (old : Invoice) → Dict.get j w.db.invoices ≡ some old
    → (new : Invoice) × (Dict.get j (serve env org_id user_id request w).1.db.invoices ≡ some new)
      × Follows old new
unfolding serve
serve-Follows env org_id user_id (create body) w fresh j old present =
    elim (create_invoice-writes env org_id 0 user_id w body) [
      | inl same ↦ (old, rw same present, Follows-refl old)
      | inr (number, totals, valid, e) ↦ elim (Bool-cases (nat_eq.beq env.fresh_id j)) [
        | inl same ↦
            let is_j : env.fresh_id ≡ j = (nat_eq.beq_iff env.fresh_id j).0 same in
            absurd (ground (arith, fresh, present, is_j))
        | inr other ↦ (old, rw e (rw get-put (rw other present)), Follows-refl old)
      ]
    ]
serve-Follows env org_id user_id (update id body) w fresh j old present =
    Writes-elim org_id id (λ s. not (is_void s)) (Edits org_id id body w.db) w.db _ (Survives j old)
      (old, present, Follows-refl old)
      (λ invoice found open_ (invoice', valid, e).
        put-Survives w.db org_id id invoice found j old present invoice'
          (update_invoice env org_id id user_id body w).1.db (rw e refl)
          (λ seen. Edits-Follows invoice seen body _ invoice' open_ valid))
      (update_invoice-Writes env org_id id user_id w body)
serve-Follows env org_id user_id (delete id) w fresh j old present =
    Writes-elim org_id id (λ s. true) (Deletes id w.db) w.db _ (Survives j old)
      (old, present, Follows-refl old)
      (λ invoice found any e.
        put-Survives w.db org_id id invoice found j old present _
          (soft_delete_invoice env org_id id user_id w).1.db (rw e refl)
          (λ seen. Deletes-Follows invoice seen))
      (soft_delete_invoice-Writes env org_id id user_id w)
serve-Follows env org_id user_id (send id recipient) w fresh j old present =
    Writes-elim org_id id is_sendable (Sends env org_id id w.db) w.db _ (Survives j old)
      (old, present, Follows-refl old)
      (λ invoice found draft e.
        put-Survives w.db org_id id invoice found j old present _
          (send_invoice env org_id id user_id recipient w).1.db (rw e refl)
          (λ seen. Sends-Follows invoice seen env org_id draft))
      (send_invoice-Writes env org_id id user_id w recipient)
serve-Follows env org_id user_id (pay id body) w fresh j old present =
    Writes-elim org_id id is_payable (Pays org_id id user_id body w.db) w.db _ (Survives j old)
      (old, present, Follows-refl old)
      (λ invoice found payable e.
        put-Survives w.db org_id id invoice found j old present _
          (record_payment env org_id id user_id body w).1.db (rw e refl)
          (λ seen. Pays-Follows invoice seen body.amount_cents payable))
      (record_payment-Writes env org_id id user_id w body)
serve-Follows env org_id user_id (void id) w fresh j old present =
    Writes-elim org_id id (λ s. not (is_void s)) (Voids id w.db) w.db _ (Survives j old)
      (old, present, Follows-refl old)
      (λ invoice found open_ e.
        put-Survives w.db org_id id invoice found j old present _
          (void_invoice env org_id id user_id w).1.db (rw e refl)
          (λ seen. Voids-Follows invoice seen))
      (void_invoice-Writes env org_id id user_id w)

-- A void invoice is void, at the total it had, after whatever calls follow; each call that creates an
-- invoice gets an id that is not in use.
pub run-void :
    (calls : List Call) (w : World)
    → AllFresh calls w
    → (j : ℕ) (old : Invoice) → Dict.get j w.db.invoices ≡ some old
    → old.status ≡ InvoiceStatus.void
    → (new : Invoice) × (Dict.get j (run calls w).db.invoices ≡ some new)
      × (new.status ≡ InvoiceStatus.void)
      × (new.total_cents ≡ old.total_cents)
unfolding run
run-void [] w fresh j old present is_v = (old, present, is_v, refl)
run-void (c ∷ cs) w fresh j old present is_v =
    let (mid, there, f) =
      serve-Follows c.env c.org_id c.user_id c.request w fresh.0 j old present in
    let (new, here, still, total) =
      run-void cs (step c w) fresh.1 j mid there (stays_void mid.status (rw is_v at f.status)) in
    (new, here, still, total ∙ f.voided (rw is_v (unfold is_void in refl)))
  where
    stays_void : (s : InvoiceStatus) → allowed InvoiceStatus.void s ≡ true → s ≡ InvoiceStatus.void
    stays_void InvoiceStatus.void h = refl
    stays_void InvoiceStatus.draft h = absurd (ground arith)
    stays_void InvoiceStatus.sent h = absurd (ground arith)
    stays_void InvoiceStatus.partially_paid h = absurd (ground arith)
    stays_void InvoiceStatus.paid h = absurd (ground arith)
