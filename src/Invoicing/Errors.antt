-- ===== src/Invoicing/Errors.antt =====
-- The errors of app/services/invoicing/exceptions.py, with those of Core that pass through a service
-- call, and the result of a call that may raise.
use a2z_core.Prelude.{◌≡◌, refl, ◌⊎◌, inl, inr, Bool, true, false}

pub data Error : Type 0 where
  -- NotFoundError, InvoiceForbiddenError, InvoiceNotFoundError
  not_a_member forbidden invoice_not_found : Error
  -- InvalidStateTransitionError, InvoiceValidationError
  invalid_transition validation : Error
  -- sqlalchemy's IntegrityError, from a unique index of models.py
  integrity : Error
  -- what `decimal` raises for a result of more than 28 digits
  invalid_operation : Error
  -- SettingsError, the errors of `upload_file`, those of `send_email`, AuditError
  settings_error storage_error email_error audit_error : Error

pub data Result {ℓ} (A : Type ℓ) : Type ℓ where
  ok : A → Result A
  err : Error → Result A

-- `if test: raise e`
abbrev pub raise_if : Bool → Error → Result (Unit {0})
raise_if true e = err e
raise_if false e = ok tt

-- To split on how a call ended and keep the equation.
pub Result-cases {ℓ} :
    {A : Type ℓ} (r : Result A) → ((e : Error) × (r ≡ err e)) ⊎ ((a : A) × (r ≡ ok a))
Result-cases (ok a) = inr (a, refl)
Result-cases (err e) = inl (e, refl)
