-- ===== src/Invoicing/Requests/Balance.antt =====
-- The amounts and statuses of the invoices under sequences of requests
-- (app/services/invoicing/service.py).
use a2z_core.Prelude.{ℕ, ◌≡◌, none, List, [], ◌∷◌, inl, inr, true}
use a2z_core.Prelude.{not}
use a2z_core.Prelude.Dict
use a2z_core.Prelude.Dict.{nat_eq}
use a2z_core.Invoicing.StateMachine.{is_void, is_sendable, is_payable}
use a2z_core.Invoicing.Exec.{World, Env}
use a2z_core.Invoicing.Service.Cases.{
  Writes-elim, Voids, Deletes, Sends, Pays, Edits, void_invoice-Writes, soft_delete_invoice-Writes,
  send_invoice-Writes, record_payment-Writes, update_invoice-Writes, create_invoice-writes,
}
use a2z_core.Invoicing.Books.{IsValid}
use a2z_core.Invoicing.Books.Preserved.{
  Voids-IsValid, Deletes-IsValid, Sends-IsValid, Pays-IsValid, Edits-IsValid, created-IsValid,
}
use a2z_core.Invoicing.Requests.{
  Request, create, update, delete, send, pay, void, Call, serve, step, run, AllFresh,
}

-- One request keeps the books balanced, whether it returns or raises.
pub serve-IsValid :
    (env : Env) (org_id user_id : ℕ) (request : Request) (w : World)
    → Dict.get env.fresh_id w.db.invoices ≡ none
    → IsValid w.db
    → IsValid (serve env org_id user_id request w).1.db
unfolding serve
serve-IsValid env org_id user_id (create body) w fresh v =
    elim (create_invoice-writes env org_id 0 user_id w body) [
      | inl same ↦ rw same v
      | inr (number, totals, valid, e) ↦
          rw e (created-IsValid env org_id user_id number body totals w.db v fresh valid)
    ]
serve-IsValid env org_id user_id (update id body) w fresh v =
    Writes-elim org_id id (λ s. not (is_void s)) (Edits org_id id body w.db) w.db _ IsValid v
      (λ invoice found open_ e. Edits-IsValid w.db org_id id invoice v found body _ open_ e)
      (update_invoice-Writes env org_id id user_id w body)
serve-IsValid env org_id user_id (delete id) w fresh v =
    Writes-elim org_id id (λ s. true) (Deletes id w.db) w.db _ IsValid v
      (λ invoice found any e. rw e (Deletes-IsValid w.db org_id id invoice v found))
      (soft_delete_invoice-Writes env org_id id user_id w)
serve-IsValid env org_id user_id (send id recipient) w fresh v =
    Writes-elim org_id id is_sendable (Sends env org_id id w.db) w.db _ IsValid v
      (λ invoice found draft e. rw e (Sends-IsValid w.db org_id id invoice v found env draft))
      (send_invoice-Writes env org_id id user_id w recipient)
serve-IsValid env org_id user_id (pay id body) w fresh v =
    Writes-elim org_id id is_payable (Pays org_id id user_id body w.db) w.db _ IsValid v
      (λ invoice found payable e.
        rw e (Pays-IsValid w.db org_id id invoice v found user_id body payable))
      (record_payment-Writes env org_id id user_id w body)
serve-IsValid env org_id user_id (void id) w fresh v =
    Writes-elim org_id id (λ s. not (is_void s)) (Voids id w.db) w.db _ IsValid v
      (λ invoice found open_ e. rw e (Voids-IsValid w.db org_id id invoice v found))
      (void_invoice-Writes env org_id id user_id w)

-- From books that balance, whatever calls follow and however they end, every invoice has a subtotal
-- that is the sum of its items, a total that with the discount makes up subtotal and tax, an amount
-- paid that is the sum of its payments, and the payment status and status that follow from these;
-- each call that creates an invoice gets an id that is not in use.
pub run-IsValid :
    (calls : List Call) (w : World) → AllFresh calls w → IsValid w.db → IsValid (run calls w).db
unfolding run
run-IsValid [] w fresh v = v
run-IsValid (c ∷ cs) w fresh v =
    run-IsValid cs (step c w) fresh.1 (serve-IsValid c.env c.org_id c.user_id c.request w fresh.0 v)
