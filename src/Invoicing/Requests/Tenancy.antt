-- ===== src/Invoicing/Requests/Tenancy.antt =====
-- What one org sees of the tables under the requests of others (the `org_id` in the queries of
-- app/services/invoicing/service.py).
use a2z_core.Prelude.{
  ℕ, ◌≡◌, ◌≢◌, refl, ◌∙◌, inl, inr, true, not, Option, none, some, List, [], ◌∷◌, append-nil,
  select, All, arith, Bool-cases,
}
use a2z_core.Prelude.Dict
use a2z_core.Prelude.Dict.{nat_eq, get-put}
use a2z_core.Invoicing.Errors.{Result, ok, err}
use a2z_core.Invoicing.StateMachine.{is_void, is_sendable, is_payable}
use a2z_core.Invoicing.Model.{
  Invoice, LineItem, LineItemCreate, RecordPaymentRequest, Db, is_line_of, is_payment_of,
}
use a2z_core.Invoicing.Exec.{World, Env}
use a2z_core.Invoicing.Service.{load_invoice, visible, build_line_items}
use a2z_core.Invoicing.Service.Edit.{replace_line_items, set_fields, recompute}
use a2z_core.Invoicing.Service.Payments.{new_payment}
use a2z_core.Invoicing.Service.Cases.{
  Writes-elim, Voids, Deletes, Sends, Pays, Edits, void_invoice-Writes, soft_delete_invoice-Writes,
  send_invoice-Writes, record_payment-Writes, update_invoice-Writes, create_invoice-writes,
}
use a2z_core.Invoicing.Books.{lines_of, payments_of}
use a2z_core.Invoicing.Books.Rows.{select-append}
use a2z_core.Invoicing.Books.Preserved.Lemmas.{load_invoice-ok, retotal-kept}
use a2z_core.Invoicing.Requests.{
  Request, create, update, delete, send, pay, void, Call, serve, step, run, AllFresh,
}

-- What an org can load of an id is the same in two states of the tables.
pub record SeesSame (org_id id : ℕ) (db db' : Db) : Type 0 where
  pub invoice : load_invoice db' org_id id ≡ load_invoice db org_id id
  pub lines : lines_of org_id id db' ≡ lines_of org_id id db
  pub payments : payments_of org_id id db' ≡ payments_of org_id id db

SeesSame-refl : (o j : ℕ) (db : Db) → SeesSame o j db db
SeesSame-refl o j db = record { invoice = refl; lines = refl; payments = refl }

visible-other :
    (o : ℕ) (invoice : Invoice)
    → invoice.org_id ≢ o
    → visible o (some invoice) ≡ err a2z_core.Invoicing.Errors.Error.invoice_not_found
unfolding visible
visible-other o invoice ne = ground arith

select-build_line_items_tenant :
    (o j org_id id : ℕ) (items : List LineItemCreate)
    → o ≢ org_id
    → select (is_line_of o j) (build_line_items org_id id items) ≡ []
select-build_line_items_tenant o j org_id id [] ne = refl
select-build_line_items_tenant o j org_id id (x ∷ items) ne =
    ground (arith, select-build_line_items_tenant o j org_id id items)

select-kept_tenant :
    (o j org_id id : ℕ) (lines : List LineItem)
    → o ≢ org_id
    → select (is_line_of o j) (select (λ l. not (is_line_of org_id id l)) lines)
      ≡ select (is_line_of o j) lines
select-kept_tenant o j org_id id [] ne = refl
select-kept_tenant o j org_id id (l ∷ lines) ne =
    ground (arith, select-kept_tenant o j org_id id lines)

select-replace_line_items_tenant :
    (o j org_id id : ℕ) (items : Option (List LineItemCreate)) (lines : List LineItem)
    → o ≢ org_id
    → select (is_line_of o j) (replace_line_items org_id id items lines)
      ≡ select (is_line_of o j) lines
select-replace_line_items_tenant o j org_id id none lines ne = refl
select-replace_line_items_tenant o j org_id id (some items) lines ne =
    select-append (is_line_of o j) (select (λ l. not (is_line_of org_id id l)) lines)
      (build_line_items org_id id items)
    ∙ rw
        (
          select-build_line_items_tenant o j org_id id items ne,
          append-nil,
          select-kept_tenant o j org_id id lines ne,
        )
        refl

-- A row of one org that is written over a row of the same org, or under an unused id.
put-load_invoice :
    (db db' : Db) (org_id id o j : ℕ) (new : Invoice)
    → o ≢ org_id
    → new.org_id ≡ org_id
    → visible o (Dict.get id db.invoices) ≡ err a2z_core.Invoicing.Errors.Error.invoice_not_found
    → db'.invoices ≡ Dict.put id new db.invoices
    → load_invoice db' o j ≡ load_invoice db o j
unfolding load_invoice
put-load_invoice db db' org_id id o j new ne own hidden e = elim (Bool-cases (nat_eq.beq id j)) [
  | inl same ↦
      let is_j : id ≡ j = (nat_eq.beq_iff id j).0 same in
      rw e (rw get-put (rw same (visible-other o new (λ h. ne (cc)) ∙ rw (← hidden, is_j) refl)))
  | inr other ↦ rw e (rw get-put (rw other refl))
]

module _ (db : Db) (org_id id : ℕ) (invoice : Invoice)
    (found : load_invoice db org_id id ≡ ok invoice) (o : ℕ) (ne : o ≢ org_id) where
  written :
      (db' : Db) (new : Invoice) (j : ℕ)
      → new.org_id ≡ invoice.org_id
      → db'.invoices ≡ Dict.put id new db.invoices
      → load_invoice db' o j ≡ load_invoice db o j
  written db' new j same e =
      let (row, own, seen) = load_invoice-ok db org_id id invoice found in
      put-load_invoice db db' org_id id o j new ne (same ∙ own)
        (rw row (visible-other o invoice (λ h. ne cc))) e

select-new_payment_tenant :
    (o j org_id id user_id : ℕ) (body : RecordPaymentRequest)
    → o ≢ org_id
    → select (is_payment_of o j) (new_payment org_id id user_id body ∷ []) ≡ []
select-new_payment_tenant o j org_id id user_id body ne = ground arith

serve-SeesSame :
    (env : Env) (org_id user_id : ℕ) (request : Request) (w : World) (o j : ℕ)
    → Dict.get env.fresh_id w.db.invoices ≡ none
    → o ≢ org_id
    → SeesSame o j w.db (serve env org_id user_id request w).1.db
unfolding serve
serve-SeesSame env org_id user_id (create body) w o j fresh ne =
    elim (create_invoice-writes env org_id 0 user_id w body) [
      | inl same ↦ rw same (SeesSame-refl o j w.db)
      | inr (number, totals, valid, e) ↦
          let lines = build_line_items org_id env.fresh_id body.line_items in
          rw e (record {
            invoice =
                put-load_invoice w.db _ org_id env.fresh_id o j _ ne refl
                  (unfold visible in rw fresh refl) refl;
            lines =
                select-append (is_line_of o j) w.db.line_items lines
                ∙ rw
                    (
                      select-build_line_items_tenant o j org_id env.fresh_id body.line_items ne,
                      append-nil,
                    )
                    refl;
            payments = refl;
          })
    ]
serve-SeesSame env org_id user_id (update id body) w o j fresh ne =
    Writes-elim org_id id (λ s. not (is_void s)) (Edits org_id id body w.db) w.db _
      (SeesSame o j w.db) (SeesSame-refl o j w.db)
      (λ invoice found open_ (invoice', valid, e). rw e (record {
        invoice =
            written w.db org_id id invoice found o ne _ invoice' j
              (retotal-kept (recompute body) _ (set_fields body invoice) invoice' valid).1 refl;
        lines = select-replace_line_items_tenant o j org_id id body.line_items w.db.line_items ne;
        payments = refl;
      }))
      (update_invoice-Writes env org_id id user_id w body)
serve-SeesSame env org_id user_id (delete id) w o j fresh ne =
    Writes-elim org_id id (λ s. true) (Deletes id w.db) w.db _ (SeesSame o j w.db)
      (SeesSame-refl o j w.db)
      (λ invoice found any e. rw e (record {
        invoice = written w.db org_id id invoice found o ne _ _ j refl refl;
        lines = refl;
        payments = refl;
      }))
      (soft_delete_invoice-Writes env org_id id user_id w)
serve-SeesSame env org_id user_id (send id recipient) w o j fresh ne =
    Writes-elim org_id id is_sendable (Sends env org_id id w.db) w.db _ (SeesSame o j w.db)
      (SeesSame-refl o j w.db)
      (λ invoice found draft e. rw e (record {
        invoice = written w.db org_id id invoice found o ne _ _ j refl refl;
        lines = refl;
        payments = refl;
      }))
      (send_invoice-Writes env org_id id user_id w recipient)
serve-SeesSame env org_id user_id (pay id body) w o j fresh ne =
    Writes-elim org_id id is_payable (Pays org_id id user_id body w.db) w.db _ (SeesSame o j w.db)
      (SeesSame-refl o j w.db)
      (λ invoice found payable e. rw e (record {
        invoice = written w.db org_id id invoice found o ne _ _ j refl refl;
        lines = refl;
        payments =
            select-append (is_payment_of o j) w.db.payments
              (new_payment org_id id user_id body ∷ [])
            ∙ rw (select-new_payment_tenant o j org_id id user_id body ne, append-nil) refl;
      }))
      (record_payment-Writes env org_id id user_id w body)
serve-SeesSame env org_id user_id (void id) w o j fresh ne =
    Writes-elim org_id id (λ s. not (is_void s)) (Voids id w.db) w.db _ (SeesSame o j w.db)
      (SeesSame-refl o j w.db)
      (λ invoice found open_ e. rw e (record {
        invoice = written w.db org_id id invoice found o ne _ _ j refl refl;
        lines = refl;
        payments = refl;
      }))
      (void_invoice-Writes env org_id id user_id w)

-- Whatever calls other orgs make, an org loads under every id the same invoice (or the same absence
-- of one), the same line items and the same payments as before; each call that creates an invoice
-- gets an id that is not in use.
pub run-SeesSame :
    (calls : List Call) (w : World) (o : ℕ)
    → AllFresh calls w
    → All (λ c. o ≢ c.org_id) calls
    → (j : ℕ) → SeesSame o j w.db (run calls w).db
unfolding run
run-SeesSame [] w o fresh others j = SeesSame-refl o j w.db
run-SeesSame (c ∷ cs) w o fresh others j =
    let first = serve-SeesSame c.env c.org_id c.user_id c.request w o j fresh.0 others.0 in
    let rest = run-SeesSame cs (step c w) o fresh.1 others.1 j in
    record {
      invoice = rest.invoice ∙ first.invoice;
      lines = rest.lines ∙ first.lines;
      payments = rest.payments ∙ first.payments;
    }
