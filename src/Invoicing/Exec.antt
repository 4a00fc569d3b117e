-- ===== src/Invoicing/Exec.antt =====
-- A service call of app/services/invoicing: state and exceptions. Changes to loaded rows are values
-- until `commit`, and what is not committed is lost when a call raises, since the session is closed
-- without a commit (db.py); what was committed or sent before stays.
use a2z_core.Prelude.{ℕ, Bool, true, false, Option, List, ◌∷◌}
use a2z_core.Prelude.Text.{Text}
use a2z_core.Prelude.Dict.{Dict}
use a2z_core.Core.Role.{Role}
use a2z_core.Invoicing.Errors.{Error, Result, ok, err}
use a2z_core.Invoicing.Model.{Db}

pub data Action : Type 0 where
  created updated deleted was_sent payment_recorded voided : Action

-- What a call leaves outside of Postgres.
pub data Effect : Type 0 where
  -- `log_audit(org_id, user_id, action, "invoice", invoice_id, …)`
  audited : ℕ → ℕ → Action → ℕ → Effect
  -- `upload_file` of the PDF under a key, `send_email` to a recipient
  uploaded emailed : ℕ → Text → Effect

pub record World : Type 0 where
  pub db : Db
  -- the attribute `next_invoice_number` of each org's settings item
  pub counters : Dict ℕ ℕ
  pub effects : List Effect

-- What the services outside answer to one call: memberships, settings, the clock, a fresh uuid, and
-- the outcome of each call of Core that can raise.
pub record Env : Type 0 where
  pub get_membership : ℕ → ℕ → Option Role
  pub currency : ℕ → Text
  pub year : ℕ
  pub fresh_id : ℕ
  pub counter_fails : Bool
  pub upload_file : ℕ → ℕ × ℕ → Option Text
  pub email_fails : Bool
  pub audit_fails : Bool

abbrev pub Exec : Type 0 → Type 0
Exec A = World → Result A × World

infixl 5 ◌>>=◌ ◌>>◌
abbrev pub ◌>>=◌ : {A B : Type 0} → Exec A → (A → Exec B) → Exec B
◌>>=◌ m f w = let (r, w') = m w in elim r [ ok a ↦ f a w' | err e ↦ (err e, w') ]

abbrev pub ◌>>◌ : {A B : Type 0} → Exec A → Exec B → Exec B
m >> n = m >>= λ _. n

abbrev pub pure : {A : Type 0} → A → Exec A
pure a w = (ok a, w)

abbrev pub raise : {A : Type 0} → Error → Exec A
raise e w = (err e, w)

abbrev pub lift : {A : Type 0} → Result A → Exec A
lift r w = (r, w)

abbrev pub get_db : Exec Db
get_db w = (ok w.db, w)

-- `session.commit()` of the rows as they have been changed.
abbrev pub commit : Db → Exec (Unit {0})
commit db w = (ok tt, record w { db = db })

abbrev pub emit : Effect → Exec (Unit {0})
emit x w = (ok tt, record w { effects = x ∷ w.effects })

-- `log_audit`, which raises AuditError if the write fails.
unfoldable pub log_audit : Env → ℕ → ℕ → Action → ℕ → Exec (Unit {0})
log_audit env org_id user_id action invoice_id w = elim env.audit_fails [
  | true ↦ (err Error.audit_error, w)
  | false ↦ (ok tt, record w { effects = audited org_id user_id action invoice_id ∷ w.effects })
]
