-- ===== src/Invoicing/StateMachine/Amounts.antt =====
-- How far the amount of a line may be from quantity times price (`compute_line_amount_cents` of
-- app/services/invoicing/state_machine.py).
use a2z_core.Prelude.{
  ℕ, zero, suc, ◌+◌, ◌*◌, ◌≤◌, ◌<◌, ◌≡◌, refl, ap, subst, ◌⊎◌, inl, inr, true, false, ltb, leb,
  Bool-cases, arith,
}
use a2z_core.Invoicing.Errors.{ok}
use a2z_core.Invoicing.StateMachine.{
  precision, excess, round_half_even, to_precision, line_amount, compute_line_amount_cents,
}

excess-stop : (fuel n bound p : ℕ) → ltb n bound ≡ true → excess (suc fuel) n bound p ≡ p
unfolding excess
excess-stop fuel n bound p fits =
    ap (λ b. elim b as (λ _. ℕ) [ true ↦ p | false ↦ excess fuel n (10 * bound) (10 * p) ]) fits

excess-go :
    (fuel n bound p : ℕ)
    → ltb n bound ≡ false
    → excess (suc fuel) n bound p ≡ excess fuel n (10 * bound) (10 * p)
unfolding excess
excess-go fuel n bound p over =
    ap (λ b. elim b as (λ _. ℕ) [ true ↦ p | false ↦ excess fuel n (10 * bound) (10 * p) ]) over

-- The power is the first one, or it cuts no digit too many.
excess-or :
    (fuel n bound p : ℕ)
    → bound ≡ precision * p
    → 0 < p
    → (0 < excess fuel n bound p)
      × ((excess fuel n bound p ≡ p) ⊎ (precision * excess fuel n bound p ≤ 10 * n))
excess-or zero n bound p e pos = unfold excess in (pos, inl refl)
excess-or (suc fuel) n bound p e pos = elim (Bool-cases (ltb n bound)) [
  | inl fits ↦ rw (excess-stop fuel n bound p fits) (pos, inl refl)
  | inr over ↦
      let le : bound ≤ n = ground arith in
      let (pos', rest) =
        excess-or fuel n (10 * bound) (10 * p) (omega (arith, e)) (omega (arith, pos)) in
      rw (excess-go fuel n bound p over)
        (pos', elim rest [ inl last ↦ inr (omega (arith, last, e, le)) | inr small ↦ inr small ])
]

-- The fuel is enough: the number fits after the cut.
excess-fits :
    (fuel n bound p : ℕ)
    → bound ≡ precision * p
    → 0 < p
    → n < fuel + bound
    → n < precision * excess fuel n bound p
excess-fits zero n bound p e pos h = unfold excess in omega (arith, e, h)
excess-fits (suc fuel) n bound p e pos h = elim (Bool-cases (ltb n bound)) [
  | inl fits ↦
      let lt : n < bound = ground arith in
      rw (excess-stop fuel n bound p fits) (omega (arith, lt, e))
  | inr over ↦
      let le : bound ≤ n = ground arith in
      rw (excess-go fuel n bound p over) (
        excess-fits fuel n (10 * bound) (10 * p) (omega (arith, e)) (omega (arith, pos))
          (omega (arith, h, e, pos)))
]

excess_one : (n : ℕ) → n < precision → excess n n precision 1 ≡ 1
excess_one zero h = unfold excess in refl
excess_one (suc n) h =
    let fits : ltb (suc n) precision ≡ true = ground arith in excess-stop n (suc n) precision 1 fits

round_half_even_near :
    (n p : ℕ)
    → 0 < p
    → (2 * (round_half_even n p * p) ≤ 2 * n + p) × (2 * n ≤ 2 * (round_half_even n p * p) + p)
unfolding round_half_even
round_half_even_near n p pos = grind arith

to_precision_near :
    (n : ℕ)
    → (precision * (2 * to_precision n) ≤ precision * (2 * n) + 10 * n)
      × (precision * (2 * n) ≤ precision * (2 * to_precision n) + 10 * n)
      × (n < precision → to_precision n ≡ n)
unfolding to_precision
to_precision_near n =
    let (pos, cut) = excess-or n n precision 1 refl (omega arith) in
    let near = round_half_even_near n (excess n n precision 1) pos in
    elim cut [
      | inr small ↦ (
        omega (arith, near.0, small),
        omega (arith, near.1, small),
        λ fits. let one = excess_one n fits in omega (arith, near.0, near.1, one, small, fits),
      )
      | inl one ↦
          let exact : round_half_even n (excess n n precision 1) * excess n n precision 1 ≡ n =
            omega (arith, near.0, near.1, one) in
          (omega (arith, exact), omega (arith, exact), λ fits. exact)
    ]

line_amount_near :
    (digits scale price : ℕ)
    → 0 < scale
    → let amount = line_amount digits scale price in
      let product = to_precision (digits * price) in
      (2 * (amount * scale) ≤ 2 * product + scale) × (2 * product < 2 * (amount * scale) + scale)
unfolding line_amount
line_amount_near digits scale price pos = grind arith

times_mono : (k a s : ℕ) → k ≤ a → k * s ≤ a * s
times_mono k a s h = grind arith

-- The amount of a line, if it has one, is the product of quantity and price to within half a cent and
-- 5 parts in 10^28 of the product, and has at most 28 digits. If the digits of the quantity times
-- the price have at most 28 digits, the line has an amount, and it is the exact product rounded to
-- the nearest cent, a half upwards. The quantity is `digits / scale` with a positive `scale`.
pub compute_line_amount_cents_bounds :
    (digits scale price : ℕ)
    → 0 < scale
    → let product = digits * price in
      ((amount : ℕ)
        → compute_line_amount_cents digits scale price ≡ ok amount
        → (amount < precision)
          × (precision * (2 * (amount * scale)) ≤ precision * (2 * product + scale) + 10 * product)
          × (precision * (2 * product) ≤ precision * (2 * (amount * scale) + scale) + 10 * product))
      × (product < precision
          → (amount : ℕ) × (compute_line_amount_cents digits scale price ≡ ok amount)
            × (2 * (amount * scale) ≤ 2 * product + scale)
            × (2 * product < 2 * (amount * scale) + scale))
unfolding compute_line_amount_cents
compute_line_amount_cents_bounds digits scale price pos =
    let near = line_amount_near digits scale price pos in
    let product = to_precision_near (digits * price) in
    let amount = line_amount digits scale price in
    (
      λ a h. elim (Bool-cases (leb precision amount)) [
        | inl large ↦ absurd (ground arith)
        | inr fits ↦
            let same : amount ≡ a = ground arith in
            let less : amount < precision = ground arith in
            rw (← same) (less, omega (arith, near.0, product.0), omega (arith, near.1, product.1))
      ],
      λ small.
          let exact = product.2 small in
          let below = subst (λ n. 2 * (amount * scale) ≤ 2 * n + scale) exact near.0 in
          let above = subst (λ n. 2 * n < 2 * (amount * scale) + scale) exact near.1 in
          let less : leb precision amount ≡ false = elim (Bool-cases (leb precision amount)) [
            | inr fits ↦ fits
            | inl large ↦
                let le : precision ≤ amount = ground arith in
                let more = times_mono precision amount scale le in
                absurd (omega (arith, more, below, small, pos))
          ] in
          (amount, rw less refl, below, above),
    )
