-- ===== src/Tests/Invoicing.antt =====
-- The theorems on the invoicing service at concrete inputs.
use a2z_core.Prelude.{
  ℕ, ◌+◌, ◌*◌, ◌≡◌, ◌≤◌, ◌<◌, refl, arith, false, none, some, List, [], ◌∷◌, ◌==◌, if◌then◌else◌,
}
use a2z_core.Prelude.Dict
use a2z_core.Prelude.Dict.{Dict, nat_eq}
use a2z_core.Core.Role.{Role, owner_or_admin}
use a2z_core.Invoicing.Errors.{Error, ok, err}
use a2z_core.Invoicing.StateMachine.{
  InvoiceStatus, PaymentStatus, is_payable, assert_can_record_payment, precision, excess,
  round_half_even, to_precision, line_amount, compute_line_amount_cents,
}
use a2z_core.Invoicing.StateMachine.Amounts.{compute_line_amount_cents_bounds}
use a2z_core.Invoicing.Model.{
  Details, Invoice, LineItemCreate, RecordPaymentRequest, InvoiceCreateRequest,
}
use a2z_core.Invoicing.Exec.{World, Env, log_audit}
use a2z_core.Invoicing.Service.{
  require_membership, check_role, require_mutation_role, visible, load_invoice,
}
use a2z_core.Invoicing.Service.Payments.{
  find_existing, violates_index, new_payment, with_payment, add_payment, record_payment,
}
use a2z_core.Invoicing.Books.{IsValid}
use a2z_core.Invoicing.Requests.{Request, create, pay, void, Call, serve, run}
use a2z_core.Invoicing.Requests.Balance.{run-IsValid}
use a2z_core.Invoicing.Requests.Lifecycle.{Follows, serve-Follows, run-void}
use a2z_core.Invoicing.Requests.Tenancy.{SeesSame, run-SeesSame}
use a2z_core.Invoicing.Requests.Atomicity.{serve-raises}
use a2z_core.Invoicing.Requests.Idempotency.{record_payment_retry}

abbrev env : Env
env = record {
  get_membership = λ user_id org_id. if user_id == 10 then some Role.owner else none;
  currency = λ org_id. [];
  year = 2026;
  fresh_id = 2;
  counter_fails = false;
  upload_file = λ org_id number. some [];
  email_fails = false;
  audit_fails = false;
}

abbrev details : Details
details = record {
  customer_email = [];
  customer_name = [];
  customer_company = none;
  invoice_date = 0;
  due_date = none;
  payment_terms = none;
  notes = none;
}

-- Two hours and a half at 200 cents.
abbrev line : LineItemCreate
line = record { description = []; digits = 25; scale = 10; unit_price_cents = 200 }

abbrev request : InvoiceCreateRequest
request = record { details = details; line_items = line ∷ []; tax_cents = 50; discount_cents = 0 }

abbrev payment : RecordPaymentRequest
payment = record {
  amount_cents = 300;
  payment_date = 0;
  payment_method = [];
  reference = none;
  notes = none;
  idempotency_key = some (7 ∷ []);
}

abbrev invoice : InvoiceStatus → Invoice
invoice status = record {
  id = 1;
  org_id = 5;
  invoice_number = (2026, 1);
  status = status;
  details = details;
  subtotal_cents = 0;
  tax_cents = 550;
  discount_cents = 0;
  total_cents = 550;
  amount_paid_cents = 0;
  payment_status = PaymentStatus.unpaid;
  currency_code = [];
  pdf_s3_key = none;
  is_deleted = false;
  created_by = 10;
}

abbrev world_of : Dict ℕ Invoice → World
world_of invoices = record {
  db = record { invoices = invoices; line_items = []; payments = [] };
  counters = (5, 1) ∷ [];
  effects = [];
}

abbrev empty : World
empty = world_of []

abbrev holding : InvoiceStatus → World
holding status = world_of ((1, invoice status) ∷ [])

abbrev call_of : ℕ → Request → Call
call_of org_id r = record { env = env; org_id = org_id; user_id = 10; request = r }

empty-IsValid : IsValid empty.db
unfolding Dict.get
empty-IsValid = record {
  keyed = λ id i h. absurd (ground arith);
  balanced = λ id i h. absurd (ground arith);
  no_lines = λ o id h. refl;
  no_payments = λ o id h. refl;
}

abbrev calls : List Call
calls = call_of 5 (create request) ∷ []

run-IsValid_example : IsValid (run calls empty).db
run-IsValid_example = run-IsValid calls empty (unfold Dict.get in refl, tt) empty-IsValid

serve-Follows_example :
    (new : Invoice) × (Dict.get 1
        (serve env 5 10 (pay 1 payment) (holding InvoiceStatus.sent)).1.db.invoices
      ≡ some new)
    × Follows (invoice InvoiceStatus.sent) new
serve-Follows_example =
    serve-Follows env 5 10 (pay 1 payment) (holding InvoiceStatus.sent) (unfold Dict.get in refl) 1
      (invoice InvoiceStatus.sent) (unfold Dict.get in refl)

run-void_example :
    (new : Invoice) × (Dict.get 1
        (run (call_of 5 (pay 1 payment) ∷ []) (holding InvoiceStatus.void)).db.invoices
      ≡ some new)
    × (new.status ≡ InvoiceStatus.void)
    × (new.total_cents ≡ 550)
run-void_example =
    run-void (call_of 5 (pay 1 payment) ∷ []) (holding InvoiceStatus.void)
      (unfold Dict.get in refl, tt) 1 (invoice InvoiceStatus.void) (unfold Dict.get in refl) refl

run-SeesSame_example :
    SeesSame 5 1
      (holding InvoiceStatus.sent).db
      (run (call_of 6 (void 1) ∷ []) (holding InvoiceStatus.sent)).db
run-SeesSame_example =
    run-SeesSame (call_of 6 (void 1) ∷ []) (holding InvoiceStatus.sent) 5
      (unfold Dict.get in refl, tt) ((λ h. absurd (omega (arith, h))), tt) 1

serve-raises_example :
    (serve env 5 10 (pay 1 payment) (holding InvoiceStatus.draft)).1.db
    ≡ (holding InvoiceStatus.draft).db
serve-raises_example =
    serve-raises env 5 10 (pay 1 payment) (holding InvoiceStatus.draft) Error.invalid_transition
      refl
      (unfold serve record_payment require_mutation_role require_membership check_role
          owner_or_admin load_invoice visible Dict.get assert_can_record_payment is_payable in
        refl)

record_payment_retry_example :
    let (answer, w') = record_payment env 5 1 10 payment (holding InvoiceStatus.sent) in
    record_payment env 5 1 10 payment w'
    ≡ (ok (with_payment (invoice InvoiceStatus.sent) 300, new_payment 5 1 10 payment), w')
record_payment_retry_example =
    record_payment_retry env env 5 1 10 10 7 [] payment payment (holding InvoiceStatus.sent)
      Role.owner (with_payment (invoice InvoiceStatus.sent) 300, new_payment 5 1 10 payment) refl
      refl
      (unfold record_payment require_mutation_role require_membership check_role owner_or_admin
          load_invoice visible Dict.get assert_can_record_payment is_payable find_existing
          violates_index add_payment log_audit in
        refl)
      (unfold require_mutation_role require_membership check_role owner_or_admin in refl)

compute_line_amount_cents_bounds_example :
    ((amount : ℕ)
      → compute_line_amount_cents 25 10 333 ≡ ok amount
      → (amount < precision)
        × (precision * (2 * (amount * 10)) ≤ precision * (2 * (25 * 333) + 10) + 10 * (25 * 333))
        × (precision * (2 * (25 * 333)) ≤ precision * (2 * (amount * 10) + 10) + 10 * (25 * 333)))
    × (25 * 333 < precision
        → (amount : ℕ) × (compute_line_amount_cents 25 10 333 ≡ ok amount)
          × (2 * (amount * 10) ≤ 2 * (25 * 333) + 10)
          × (2 * (25 * 333) < 2 * (amount * 10) + 10))
compute_line_amount_cents_bounds_example = compute_line_amount_cents_bounds 25 10 333 (omega arith)

half_cent : compute_line_amount_cents 25 10 333 ≡ ok 833
unfolding compute_line_amount_cents line_amount to_precision excess round_half_even
half_cent = refl

-- 0.4999999999999999999999999999999 at one cent: the context rounds the product to a half first.
rounded_twice :
    compute_line_amount_cents 4999999999999999999999999999999 10000000000000000000000000000000 1
    ≡ ok 1
unfolding compute_line_amount_cents line_amount to_precision excess round_half_even
rounded_twice = refl

too_large :
    compute_line_amount_cents 10000000000000000000000000000 1 1 ≡ err Error.invalid_operation
unfolding compute_line_amount_cents line_amount to_precision excess round_half_even
too_large = refl
