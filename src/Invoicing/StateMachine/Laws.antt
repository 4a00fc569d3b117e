-- ===== src/Invoicing/StateMachine/Laws.antt =====
-- Laws of the pure functions of app/services/invoicing/state_machine.py.
use a2z_core.Prelude.{ℕ, ◌+◌, ◌<◌, ◌≡◌, ◌↔◌, List, arith}
use a2z_core.Invoicing.Errors.{ok, err, validation}
use a2z_core.Invoicing.StateMachine.{sum, compute_totals}

pub compute_totals_exact :
    (amounts : List ℕ) (tax discount : ℕ)
    → ((compute_totals amounts tax discount ≡ err validation) ↔ (sum amounts + tax < discount))
      × ((subtotal total : ℕ)
          → compute_totals amounts tax discount ≡ ok (subtotal, total)
          → (subtotal ≡ sum amounts) × (total + discount ≡ subtotal + tax))
unfolding compute_totals
compute_totals_exact amounts tax discount = ground arith
