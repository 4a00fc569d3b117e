-- ===== src/Invoicing/Requests.antt =====
-- The requests that change an org's invoices, one after another: each is one call of an operation of
-- app/services/invoicing/service.py, with the answers that the outside gives it.
pub mod Balance
pub mod Tenancy
pub mod Lifecycle
pub mod Atomicity
pub mod Idempotency
use a2z_core.Prelude.{ℕ, ◌≡◌, none, List, [], ◌∷◌}
use a2z_core.Prelude.Text.{Text}
use a2z_core.Prelude.Dict
use a2z_core.Prelude.Dict.{nat_eq}
use a2z_core.Invoicing.Errors.{Result, ok, err}
use a2z_core.Invoicing.Model.{InvoiceCreateRequest, InvoiceUpdateRequest, RecordPaymentRequest}
use a2z_core.Invoicing.Exec.{World, Env, Exec}
use a2z_core.Invoicing.Service.{create_invoice}
use a2z_core.Invoicing.Service.Edit.{update_invoice}
use a2z_core.Invoicing.Service.Lifecycle.{soft_delete_invoice, send_invoice, void_invoice}
use a2z_core.Invoicing.Service.Payments.{record_payment}

pub data Request : Type 0 where
  create : InvoiceCreateRequest → Request
  update : ℕ → InvoiceUpdateRequest → Request
  delete : ℕ → Request
  send : ℕ → Text → Request
  pay : ℕ → RecordPaymentRequest → Request
  void : ℕ → Request

abbrev pub outcome : {A : Type 0} → Result A → Result (Unit {0})
outcome (ok a) = ok tt
outcome (err e) = err e

abbrev pub forget : {A : Type 0} → Exec A → Exec (Unit {0})
forget m w = (outcome (m w).0, (m w).1)

unfoldable pub serve : Env → ℕ → ℕ → Request → Exec (Unit {0})
serve env org_id user_id (create body) = forget (create_invoice env org_id user_id body)
serve env org_id user_id (update id body) = forget (update_invoice env org_id id user_id body)
serve env org_id user_id (delete id) = soft_delete_invoice env org_id id user_id
serve env org_id user_id (send id recipient) = forget (send_invoice env org_id id user_id recipient)
serve env org_id user_id (pay id body) = forget (record_payment env org_id id user_id body)
serve env org_id user_id (void id) = forget (void_invoice env org_id id user_id)

-- A caller's request and what the outside answers to it.
pub record Call : Type 0 where
  pub env : Env
  pub org_id : ℕ
  pub user_id : ℕ
  pub request : Request

abbrev pub step : Call → World → World
step c w = (serve c.env c.org_id c.user_id c.request w).1

unfoldable pub run : List Call → World → World
run [] w = w
run (c ∷ cs) w = run cs (step c w)

-- Each call's uuid is the id of no invoice at that point.
abbrev pub AllFresh : List Call → World → Type 0
AllFresh [] w = Unit
AllFresh (c ∷ cs) w = (Dict.get c.env.fresh_id w.db.invoices ≡ none) × AllFresh cs (step c w)
