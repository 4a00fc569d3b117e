-- ===== src/Invoicing/Model.antt =====
-- The tables of app/services/invoicing/models.py and the request bodies of schemas.py. Ids are only
-- compared and dates only copied, so numbers stand for them; amounts are whole cents.
use a2z_core.Prelude.{ℕ, Bool, Option, List, ◌==◌, ◌&&◌, map}
use a2z_core.Prelude.Text.{Text}
use a2z_core.Prelude.Dict.{Dict}
use a2z_core.Invoicing.StateMachine.{InvoiceStatus, PaymentStatus, sum}

-- The columns that a client fills in, and that an update replaces one by one.
pub record Details : Type 0 where
  pub customer_email : Text
  pub customer_name : Text
  pub customer_company : Option Text
  pub invoice_date : ℕ
  pub due_date : Option ℕ
  pub payment_terms : Option Text
  pub notes : Option Text

pub record Invoice : Type 0 where
  pub id : ℕ
  pub org_id : ℕ
  -- the year and the counter of `INV-{year}-{number}`
  pub invoice_number : ℕ × ℕ
  pub status : InvoiceStatus
  pub details : Details
  pub subtotal_cents : ℕ
  pub tax_cents : ℕ
  pub discount_cents : ℕ
  pub total_cents : ℕ
  pub amount_paid_cents : ℕ
  pub payment_status : PaymentStatus
  pub currency_code : Text
  pub pdf_s3_key : Option Text
  pub is_deleted : Bool
  pub created_by : ℕ

-- A quantity is `digits / scale`.
pub record LineItemCreate : Type 0 where
  pub description : Text
  pub digits : ℕ
  pub scale : ℕ
  pub unit_price_cents : ℕ

pub record LineItem : Type 0 where
  pub org_id : ℕ
  pub invoice_id : ℕ
  pub item : LineItemCreate
  pub amount_cents : ℕ

pub record RecordPaymentRequest : Type 0 where
  pub amount_cents : ℕ
  pub payment_date : ℕ
  pub payment_method : Text
  pub reference : Option Text
  pub notes : Option Text
  pub idempotency_key : Option Text

pub record Payment : Type 0 where
  pub org_id : ℕ
  pub invoice_id : ℕ
  pub body : RecordPaymentRequest
  pub recorded_by : ℕ

pub record InvoiceCreateRequest : Type 0 where
  pub details : Details
  pub line_items : List LineItemCreate
  pub tax_cents : ℕ
  pub discount_cents : ℕ

-- `None` leaves a field as it is.
pub record InvoiceUpdateRequest : Type 0 where
  pub customer_email : Option Text
  pub customer_name : Option Text
  pub customer_company : Option Text
  pub invoice_date : Option ℕ
  pub due_date : Option ℕ
  pub payment_terms : Option Text
  pub notes : Option Text
  pub line_items : Option (List LineItemCreate)
  pub tax_cents : Option ℕ
  pub discount_cents : Option ℕ

-- The three tables; `id` is the primary key of the first.
pub record Db : Type 0 where
  pub invoices : Dict ℕ Invoice
  pub line_items : List LineItem
  pub payments : List Payment

-- `where(org_id == …, invoice_id == …)` on the line items and on the payments.
abbrev pub is_line_of : ℕ → ℕ → LineItem → Bool
is_line_of org_id invoice_id l = l.org_id == org_id && l.invoice_id == invoice_id

abbrev pub is_payment_of : ℕ → ℕ → Payment → Bool
is_payment_of org_id invoice_id p = p.org_id == org_id && p.invoice_id == invoice_id

abbrev pub amounts : List LineItem → List ℕ
amounts = map (λ l. l.amount_cents)

abbrev pub paid_cents : List Payment → ℕ
paid_cents ps = sum (map (λ p. p.body.amount_cents) ps)
