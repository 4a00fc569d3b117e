-- ===== src/Invoicing/Requests/Idempotency.antt =====
-- Payments sent again under an idempotency key (`record_payment` of
-- app/services/invoicing/service.py).
use a2z_core.Prelude.{
  ℕ, ◌≡◌, refl, ◌⊎◌, inl, inr, Bool, true, ◌∷◌, ◌++◌, [], none, some, List, find, arith, Bool-cases,
  Option-cases,
}
use a2z_core.Prelude.Text.{Text, text_beq_iff}
use a2z_core.Prelude.Dict.{nat_eq, get-put}
use a2z_core.Core.Role.{Role}
use a2z_core.Invoicing.Errors.{ok, Result-cases}
use a2z_core.Invoicing.StateMachine.{
  InvoiceStatus, PaymentStatus, is_payable, assert_can_record_payment, next_invoice_status,
  on_paid_track,
}
use a2z_core.Invoicing.Model.{Invoice, RecordPaymentRequest, Payment, Db}
use a2z_core.Invoicing.Exec.{World, Env, log_audit}
use a2z_core.Invoicing.Service.{require_mutation_role, load_invoice, visible}
use a2z_core.Invoicing.Service.Payments.{
  has_key, find_existing, violates_index, new_payment, with_payment, add_payment, record_payment,
}
use a2z_core.Invoicing.Service.Cases.{put_invoice}
use a2z_core.Invoicing.Books.Preserved.Lemmas.{load_invoice-ok}

find-append :
    {A : Type 0} (p : A → Bool) (xs : List A) (x : A)
    → find p xs ≡ none
    → p x ≡ true
    → find p (xs ++ x ∷ []) ≡ some x
find-append p [] x h t = rw t refl
find-append p (y ∷ xs) x h t = elim (Bool-cases (p y)) [
  | inl yes_ ↦ absurd (ground arith)
  | inr skip ↦ rw skip (find-append p xs x (rw skip at h) t)
]

payable_again :
    (s : InvoiceStatus) (p : PaymentStatus)
    → is_payable s ≡ true
    → is_payable (next_invoice_status s p) ≡ true
unfolding next_invoice_status on_paid_track is_payable
payable_again s PaymentStatus.unpaid h = rw h refl
payable_again s PaymentStatus.partially_paid h = rw h refl
payable_again s PaymentStatus.paid h = rw h refl

-- A call under a key that has a payment.
replay :
    (env : Env) (org_id id user_id : ℕ) (body : RecordPaymentRequest) (w : World) (role : Role)
    (invoice : Invoice) (existing : Payment)
    → require_mutation_role env user_id org_id ≡ ok role
    → load_invoice w.db org_id id ≡ ok invoice
    → is_payable invoice.status ≡ true
    → find_existing org_id body.idempotency_key w.db.payments ≡ some existing
    → record_payment env org_id id user_id body w ≡ (ok (invoice, existing), w)
unfolding record_payment assert_can_record_payment add_payment
replay env org_id id user_id body w role invoice existing allowed found payable known = ground arith

-- The state that a first payment under a key leaves.
abbrev paid_db : ℕ → ℕ → ℕ → RecordPaymentRequest → Invoice → Db → Db
paid_db org_id id user_id body invoice db =
    record (put_invoice id (with_payment invoice body.amount_cents) db) {
      payments = db.payments ++ new_payment org_id id user_id body ∷ [];
    }

known_after :
    (org_id id user_id c : ℕ) (key : Text) (body : RecordPaymentRequest) (payments : List Payment)
    → body.idempotency_key ≡ some (c ∷ key)
    → find_existing org_id (some (c ∷ key)) payments ≡ none
    → find_existing org_id (some (c ∷ key)) (payments ++ new_payment org_id id user_id body ∷ [])
      ≡ some (new_payment org_id id user_id body)
unfolding find_existing
known_after org_id id user_id c key body payments keyed fresh =
    find-append (has_key org_id (c ∷ key)) payments (new_payment org_id id user_id body) fresh
      (rw keyed (ground (arith, (text_beq_iff (c ∷ key) (c ∷ key)).1 refl)))

loaded_after :
    (org_id id user_id : ℕ) (body : RecordPaymentRequest) (invoice : Invoice) (db : Db)
    → load_invoice db org_id id ≡ ok invoice
    → load_invoice (paid_db org_id id user_id body invoice db) org_id id
      ≡ ok (with_payment invoice body.amount_cents)
unfolding load_invoice visible
loaded_after org_id id user_id body invoice db found =
    let (row, own, seen) = load_invoice-ok db org_id id invoice found in rw get-put (ground arith)

-- What a payment under a key that returns has found or written.
first_call :
    (env : Env) (org_id id user_id : ℕ) (body : RecordPaymentRequest) (w : World)
    (answer : Invoice × Payment)
    → (record_payment env org_id id user_id body w).0 ≡ ok answer
    → (invoice : Invoice) × (load_invoice w.db org_id id ≡ ok invoice)
      × (is_payable invoice.status ≡ true)
      × ((((record_payment env org_id id user_id body w).1.db ≡ w.db)
            × (find_existing org_id body.idempotency_key w.db.payments ≡ some answer.1)
            × (answer.0 ≡ invoice))
          ⊎ (((record_payment env org_id id user_id body w).1.db
                ≡ paid_db org_id id user_id body invoice w.db)
              × (find_existing org_id body.idempotency_key w.db.payments ≡ none)
              × (answer
                  ≡ (with_payment invoice body.amount_cents, new_payment org_id id user_id body))))
unfolding record_payment assert_can_record_payment add_payment log_audit
first_call env org_id id user_id body w answer h =
    elim (Result-cases (require_mutation_role env user_id org_id)) [
      | inl (e, refused) ↦ absurd (ground arith)
      | inr (role, allowed) ↦ elim (Result-cases (load_invoice w.db org_id id)) [
        | inl (e, missing) ↦ absurd (ground arith)
        | inr (invoice, found) ↦ elim (Bool-cases (is_payable invoice.status)) [
          | inr closed ↦ absurd (ground arith)
          | inl payable ↦
              elim (Option-cases (find_existing org_id body.idempotency_key w.db.payments)) [
                | inr (existing, known) ↦
                    (invoice, found, payable, inl (ground arith, ground arith, ground arith))
                | inl fresh ↦
                    elim (Bool-cases (violates_index org_id body.idempotency_key w.db.payments)) [
                      | inl clash ↦ absurd (ground arith)
                      | inr unique ↦ elim (Bool-cases env.audit_fails) [
                        | inl failed ↦ absurd (ground arith)
                        | inr logged ↦
                            (invoice, found, payable, inr (ground arith, fresh, ground arith))
                      ]
                    ]
              ]
        ]
      ]
    ]

-- After a payment under a non-empty key has been answered, a second request for the same invoice
-- under the same key, by any caller whose role allows it and whatever its amount, gets the same
-- answer and changes nothing at all: no table, no counter, no audit entry.
pub record_payment_retry :
    (env env' : Env) (org_id id user_id user_id' c : ℕ) (key : Text)
    (body body' : RecordPaymentRequest) (w : World) (role : Role) (answer : Invoice × Payment)
    → body.idempotency_key ≡ some (c ∷ key)
    → body'.idempotency_key ≡ some (c ∷ key)
    → (record_payment env org_id id user_id body w).0 ≡ ok answer
    → require_mutation_role env' user_id' org_id ≡ ok role
    → let w' = (record_payment env org_id id user_id body w).1 in
      record_payment env' org_id id user_id' body' w' ≡ (ok answer, w')
record_payment_retry env env' org_id id user_id user_id' c key body body' w role answer keyed keyed'
      first allowed =
    let w' = (record_payment env org_id id user_id body w).1 in
    let (invoice, found, payable, case_) = first_call env org_id id user_id body w answer first in
    elim case_ [
      | inl (same, known, is_invoice) ↦
          replay env' org_id id user_id' body' w' role answer.0 answer.1 allowed
            (rw (same, is_invoice) found) (rw is_invoice payable) (rw (same, keyed', ← keyed) known)
      | inr (db, fresh, is_answer) ↦
          replay env' org_id id user_id' body' w' role answer.0 answer.1 allowed
            (rw (db, is_answer) (loaded_after org_id id user_id body invoice w.db found))
            (rw is_answer (payable_again invoice.status _ payable))
            (rw (db, keyed', is_answer)
              (known_after org_id id user_id c key body w.db.payments keyed (rw keyed at fresh)))
    ]
