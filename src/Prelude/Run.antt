-- ===== src/Prelude/Run.antt =====
-- A Python call with state and exceptions: it takes the state and gives back a result, or the
-- exception that it raised, and the state that it leaves.
use mathlib.Core.Path.{◌≡◌, refl, ap}
use mathlib.Core.Logic.{◌⊎◌, inl, inr}
use mathlib.Core.Bool.{Bool, true, false}

pub data Result (E A : Type 0) : Type 0 where
  ok : A → Result E A
  err : E → Result E A

abbrev pub Run : Type 0 → Type 0 → Type 0 → Type 0
Run S E A = S → Result E A × S

infixl 5 ◌>>=◌ ◌>>◌
abbrev pub ◌>>=◌ : {S E A B : Type 0} → Run S E A → (A → Run S E B) → Run S E B
◌>>=◌ m f s = let (r, s') = m s in elim r [ ok a ↦ f a s' | err e ↦ (err e, s') ]

abbrev pub ◌>>◌ : {S E A B : Type 0} → Run S E A → Run S E B → Run S E B
m >> n = m >>= λ _. n

abbrev pub pure : {S E A : Type 0} → A → Run S E A
pure a s = (ok a, s)

abbrev pub raise : {S E A : Type 0} → E → Run S E A
raise e s = (err e, s)

-- `if test: raise e`
abbrev pub raise_if : {S E : Type 0} → Bool → E → Run S E (Unit {0})
raise_if true e s = (err e, s)
raise_if false e s = (ok tt, s)

abbrev pub get_state : {S E : Type 0} → Run S E S
get_state s = (ok s, s)

abbrev pub set_state : {S E : Type 0} → S → Run S E (Unit {0})
set_state s' s = (ok tt, s')

pub Result-cases :
    {E A : Type 0} (r : Result E A) → ((e : E) × (r ≡ err e)) ⊎ ((a : A) × (r ≡ ok a))
Result-cases (ok a) = inr (a, refl)
Result-cases (err e) = inl (e, refl)

module _ {S E A B : Type 0} (m : Run S E A) (f : A → Run S E B) (s s' : S) where
  -- A call whose first part returns goes on with the rest; one whose first part raises, raises.
  pub bind-ok : (a : A) → m s ≡ (ok a, s') → (m >>= f) s ≡ f a s'
  bind-ok a h = ap (λ z. elim z.0 [ ok x ↦ f x z.1 | err e ↦ (err e, z.1) ]) h

  pub bind-err : (e : E) → m s ≡ (err e, s') → (m >>= f) s ≡ (err e, s')
  bind-err e h = ap (λ z. elim z.0 [ ok x ↦ f x z.1 | err x ↦ (err x, z.1) ]) h

-- A call that leaves a property of the state as it is, however it ends.
abbrev pub Keeps : {S E A : Type 0} → (S → Type 0) → Run S E A → Type 0
Keeps {S} P m = (s : S) → P s → P (m s).1

module _ {S E A B : Type 0} (P : S → Type 0) where
  pub bind-Keeps :
      (m : Run S E A) (f : A → Run S E B)
      → Keeps P m
      → ((a : A) → Keeps P (f a))
      → Keeps P (m >>= f)
  bind-Keeps m f first rest s p = go (m s) (first s p)
    where
      go :
          (z : Result E A × S)
          → P z.1
          → P (elim z.0 as (λ _. Result E B × S) [ ok a ↦ f a z.1 | err e ↦ (err e, z.1) ]).1
      go (ok a, s') p' = rest a s' p'
      go (err e, s') p' = p'

module _ {S E : Type 0} (P : S → Type 0) where
  pub raise_if-Keeps : (b : Bool) (e : E) → Keeps P (raise_if b e)
  raise_if-Keeps true e s p = p
  raise_if-Keeps false e s p = p
