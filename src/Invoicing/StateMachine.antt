-- ===== src/Invoicing/StateMachine.antt =====
-- app/services/invoicing/state_machine.py. Money is in whole cents, which the request schemas keep at
-- zero or more; a `Decimal` quantity is `digits / scale`, where `scale` is a power of ten.
pub mod Laws
pub mod Amounts
use a2z_core.Prelude.{
  ℕ, zero, suc, ◌+◌, ◌-◌, ◌*◌, ◌/◌, ◌%◌, Bool, true, false, List, [], ◌∷◌, not, ltb, leb,
  if◌then◌else◌,
}
use a2z_core.Invoicing.Errors.{
  Result, ok, err, raise_if, invalid_transition, validation, invalid_operation,
}

pub data InvoiceStatus : Type 0 where
  draft sent partially_paid paid void : InvoiceStatus

pub data PaymentStatus : Type 0 where
  unpaid partially_paid paid : PaymentStatus

unfoldable pub is_void : InvoiceStatus → Bool
is_void void = true
is_void _ = false

-- `status in _SENDABLE_STATUSES`
unfoldable pub is_sendable : InvoiceStatus → Bool
is_sendable draft = true
is_sendable _ = false

-- `status in _PAYABLE_STATUSES`; `_PAID_TRACK_STATUSES` has the same members.
unfoldable pub is_payable : InvoiceStatus → Bool
is_payable draft = false
is_payable void = false
is_payable _ = true

unfoldable pub assert_can_edit : InvoiceStatus → Result (Unit {0})
unfolding is_void
assert_can_edit status = raise_if (is_void status) invalid_transition

unfoldable pub assert_can_send : InvoiceStatus → Result (Unit {0})
unfolding is_sendable
assert_can_send status = raise_if (not (is_sendable status)) invalid_transition

unfoldable pub assert_can_record_payment : InvoiceStatus → Result (Unit {0})
unfolding is_payable
assert_can_record_payment status = raise_if (not (is_payable status)) invalid_transition

unfoldable pub assert_can_void : InvoiceStatus → Result (Unit {0})
unfolding is_void
assert_can_void status = raise_if (is_void status) invalid_transition

unfoldable pub next_payment_status : ℕ → ℕ → PaymentStatus
next_payment_status amount_paid_cents total_cents =
    if leb amount_paid_cents 0
    then PaymentStatus.unpaid
    else if leb total_cents amount_paid_cents
    then PaymentStatus.paid
    else PaymentStatus.partially_paid

unfoldable pub on_paid_track : PaymentStatus → InvoiceStatus
on_paid_track PaymentStatus.paid = InvoiceStatus.paid
on_paid_track PaymentStatus.partially_paid = InvoiceStatus.partially_paid
on_paid_track PaymentStatus.unpaid = sent

unfoldable pub next_invoice_status : InvoiceStatus → PaymentStatus → InvoiceStatus
unfolding is_payable on_paid_track
next_invoice_status current_status payment_status =
    if not (is_payable current_status) then current_status else on_paid_track payment_status

-- The default context of `decimal` keeps 28 digits.
abbrev pub precision : ℕ
precision = 10000000000000000000000000000

-- `p` times the least power of ten that cuts the number to below the bound.
unfoldable pub excess : ℕ → ℕ → ℕ → ℕ → ℕ
excess zero n bound p = p
excess (suc fuel) n bound p = elim (ltb n bound) [
  | true ↦ p
  | false ↦ excess fuel n (10 * bound) (10 * p)
]

-- `n / p` with ROUND_HALF_EVEN.
unfoldable pub round_half_even : ℕ → ℕ → ℕ
round_half_even n p =
    let q = n / p in
    let r = n % p in if ltb (2 * r) p then q else if ltb p (2 * r) then q + 1 else q + q % 2

-- A number to 28 significant digits.
unfoldable pub to_precision : ℕ → ℕ
to_precision n = let p = excess n n precision 1 in round_half_even n p * p

-- `(quantity * Decimal(unit_price_cents)).quantize(Decimal("1"), rounding=ROUND_HALF_UP)`, at the
-- quantity `digits / scale`: the product is rounded to the context first.
unfoldable pub line_amount : ℕ → ℕ → ℕ → ℕ
line_amount digits scale unit_price_cents =
    (2 * to_precision (digits * unit_price_cents) + scale) / (2 * scale)

-- `quantize` refuses a result of more digits than the context has.
unfoldable pub compute_line_amount_cents : ℕ → ℕ → ℕ → Result ℕ
compute_line_amount_cents digits scale unit_price_cents =
    let amount = line_amount digits scale unit_price_cents in
    if leb precision amount then err invalid_operation else ok amount

abbrev pub sum : List ℕ → ℕ
sum [] = 0
sum (x ∷ xs) = x + sum xs

-- `(subtotal_cents, total_cents)`; the total is negative exactly if the discount exceeds the rest.
unfoldable pub compute_totals : List ℕ → ℕ → ℕ → Result (ℕ × ℕ)
compute_totals line_amounts_cents tax_cents discount_cents =
    let subtotal_cents = sum line_amounts_cents in
    if ltb (subtotal_cents + tax_cents) discount_cents
    then err validation
    else ok (subtotal_cents, subtotal_cents + tax_cents - discount_cents)
