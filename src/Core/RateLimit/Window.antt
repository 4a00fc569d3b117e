-- ===== src/Core/RateLimit/Window.antt =====
-- The calls that app/core/rate_limit.py records, counted in sliding windows.
use a2z_core.Prelude.{
  ℕ, ◌+◌, ◌≤◌, ◌<◌, ◌≡◌, refl, Bool, true, false, List, [], ◌∷◌, ◌++◌, length, count, All,
  All-append, count-append, count-le-length, leb, ltb, ◌&&◌, if◌then◌else◌, arith, Bool-cases, inl,
  inr,
}
use a2z_core.Core.RateLimit.{recorded, evict, refuse, check_window}

-- The instants `a` with `a ≤ t < a + window`: those that a window of that length ending at `t` holds.
abbrev pub within : ℕ → ℕ → ℕ → Bool
within window t a = leb a t && ltb t (a + window)

-- Calls at the given instants, one after another, on one deque: the instants that were recorded.
pub run_window : ℕ → ℕ → ℕ → List ℕ → List ℕ → List ℕ
unfolding check_window
run_window hz limit window dq [] = []
run_window hz limit window dq (now ∷ times) =
    let (outcome, dq') = check_window hz limit window now dq in
    let rest = run_window hz limit window dq' times in
    elim outcome [ recorded ↦ now ∷ rest | _ ↦ rest ]

-- The instants of the calls never go back, as those of a monotonic clock.
abbrev pub Monotonic : ℕ → List ℕ → Type 0
Monotonic start [] = Unit
Monotonic start (t ∷ ts) = (start ≤ t) × Monotonic t ts

-- What eviction drops.
expired : ℕ → ℕ → List ℕ → List ℕ
expired window now [] = []
expired window now (t ∷ dq) =
    let rest = expired window now dq in if leb (t + window) now then t ∷ rest else []

abbrev IsPast : ℕ → ℕ → List ℕ → Type 0
IsPast window now = All (λ a. a + window ≤ now)

count-split :
    (p : ℕ → Bool) (window now : ℕ) (dq : List ℕ)
    → count p dq ≡ count p (expired window now dq) + count p (evict window now dq)
unfolding evict expired
count-split p window now [] = refl
count-split p window now (t ∷ dq) = ground (arith, count-split p window now dq)

expired-IsPast : (window now : ℕ) (dq : List ℕ) → IsPast window now (expired window now dq)
unfolding expired
expired-IsPast window now [] = tt
expired-IsPast window now (t ∷ dq) = ground (arith, expired-IsPast window now dq)

IsPast-le : (window a b : ℕ) (xs : List ℕ) → a ≤ b → IsPast window a xs → IsPast window b xs
IsPast-le window a b [] le h = tt
IsPast-le window a b (x ∷ xs) le h = (omega arith, IsPast-le window a b xs le h.1)

-- A window that ends at or after `now` holds none of what has expired.
count-IsPast :
    (window now t : ℕ) (xs : List ℕ)
    → now ≤ t
    → IsPast window now xs
    → count (within window t) xs ≡ 0
count-IsPast window now t [] le h = refl
count-IsPast window now t (x ∷ xs) le h = ground (arith, count-IsPast window now t xs le h.1)

module _ (hz limit window : ℕ) where
  -- `old` has expired at the instant `clock`, and no window holds more than `limit` so far.
  abbrev IsBounded : ℕ → List ℕ → List ℕ → Type 0
  IsBounded clock old dq =
      IsPast window clock old
      × ((t : ℕ) → count (within window t) old + count (within window t) dq ≤ limit)

  -- Evicting keeps the bound: what leaves the deque joins `old`.
  evict-IsBounded :
      (clock now : ℕ) (old dq : List ℕ)
      → clock ≤ now
      → IsBounded clock old dq
      → IsBounded now (old ++ expired window now dq) (evict window now dq)
  evict-IsBounded clock now old dq le h = (
    All-append (λ a. a + window ≤ now) old (expired window now dq)
        (IsPast-le window clock now old le h.0) (expired-IsPast window now dq),
    λ t.
        let e = count-append (within window t) old (expired window now dq) in
        let s = count-split (within window t) window now dq in let b = h.1 t in omega arith,
  )

  -- So does recording a call when fewer than `limit` instants are left.
  record-IsBounded :
      (now : ℕ) (old live : List ℕ)
      → length live < limit
      → IsBounded now old live
      → IsBounded now old (live ++ now ∷ [])
  record-IsBounded now old live room h = (
    h.0,
    λ t. ground (
      arith,
      h.1 t,
      count-IsPast window now t old,
      count-le-length (within window t) live,
      count-append (within window t) live (now ∷ []),
    ),
  )

  run_window-refused :
      (now : ℕ) (times dq : List ℕ)
      → leb limit (length (evict window now dq)) ≡ true
      → run_window hz limit window dq (now ∷ times)
        ≡ run_window hz limit window (evict window now dq) times
  unfolding run_window refuse
  run_window-refused now times dq full = ground arith

  run_window-recorded :
      (now : ℕ) (times dq : List ℕ)
      → leb limit (length (evict window now dq)) ≡ false
      → run_window hz limit window dq (now ∷ times)
        ≡ now ∷ run_window hz limit window (evict window now dq ++ now ∷ []) times
  unfolding run_window
  run_window-recorded now times dq room = ground arith

  run_window-bounded :
      (times : List ℕ) (clock : ℕ) (old dq : List ℕ)
      → Monotonic clock times
      → IsBounded clock old dq
      → (t : ℕ)
      → count (within window t) old
          + count (within window t) dq
          + count (within window t) (run_window hz limit window dq times)
        ≤ limit
  run_window-bounded [] clock old dq m h t = unfold run_window in omega (arith, h.1 t)
  run_window-bounded (now ∷ times) clock old dq m h t =
      let gone = expired window now dq in
      let live = evict window now dq in
      let moved = evict-IsBounded clock now old dq m.0 h in
      let split = count-split (within window t) window now dq in
      let joined = count-append (within window t) old gone in
      elim (Bool-cases (leb limit (length live))) [
        | inl full ↦
            rw (run_window-refused now times dq full) (
              let rest = run_window-bounded times now (old ++ gone) live m.1 moved t in omega arith)
        | inr room ↦ rw (run_window-recorded now times dq room) (
            let kept = record-IsBounded now (old ++ gone) live (ground arith) moved in
            let rest = run_window-bounded times now (old ++ gone) (live ++ now ∷ []) m.1 kept t in
            let last = count-append (within window t) live (now ∷ []) in ground arith)
      ]

-- Whatever the instants of the calls of one org and action, provided the clock never goes back: no
-- window of the configured length, wherever it ends, holds more than `limit` recorded calls.
pub run_window-le-limit :
    (hz limit window : ℕ) (times : List ℕ)
    → Monotonic 0 times
    → (t : ℕ) → count (within window t) (run_window hz limit window [] times) ≤ limit
run_window-le-limit hz limit window times m t =
    let h = run_window-bounded hz limit window times 0 [] [] m (tt, λ u. omega arith) t in
    omega arith
