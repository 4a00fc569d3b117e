-- ===== src/Omnichannel/Inbox/Keyset/Sorting.antt =====
-- Sorting by the order of the inbox, and selecting from what is sorted.
use a2z_core.Prelude.{
  ◌≡◌, ◌≢◌, refl, inl, inr, Bool, true, List, [], ◌∷◌, select, count, All, if◌then◌else◌, arith,
  Bool-cases,
}
use a2z_core.Omnichannel.Inbox.Order.{Key, before, before_trans, before_total}
use a2z_core.Omnichannel.Inbox.Keyset.{insert_row, order_by}

module _ {A : Type 0} (key : A → Key) (desc : Bool) where
  abbrev pub Before : A → A → Type 0
  Before a b = before desc (key a) (key b) ≡ true

  -- Each row comes before all that follow.
  abbrev pub IsSorted : List A → Type 0
  IsSorted [] = Unit
  IsSorted (a ∷ xs) = All (Before a) xs × IsSorted xs

  -- No two rows have the same id.
  abbrev pub HasIds : List A → Type 0
  HasIds [] = Unit
  HasIds (a ∷ xs) = All (λ b. (key a).1 ≢ (key b).1) xs × HasIds xs

  All-Before_trans : (a b : A) (xs : List A) → Before a b → All (Before b) xs → All (Before a) xs
  All-Before_trans a b [] h hs = tt
  All-Before_trans a b (x ∷ xs) h hs =
      (before_trans desc (key a) (key b) (key x) h hs.0, All-Before_trans a b xs h hs.1)

  All-insert_row :
      (P : A → Type 0) (a : A) (xs : List A) → P a → All P xs → All P (insert_row key desc a xs)
  unfolding insert_row
  All-insert_row P a [] h hs = (h, tt)
  All-insert_row P a (b ∷ xs) h hs = elim (Bool-cases (before desc (key a) (key b))) [
    | inl first ↦ rw first (h, hs)
    | inr later ↦ rw later (hs.0, All-insert_row P a xs h hs.1)
  ]

  pub All-order_by : (P : A → Type 0) (xs : List A) → All P xs → All P (order_by key desc xs)
  unfolding order_by
  All-order_by P [] hs = tt
  All-order_by P (a ∷ xs) hs =
      All-insert_row P a (order_by key desc xs) hs.0 (All-order_by P xs hs.1)

  insert_row-IsSorted :
      (a : A) (xs : List A)
      → All (λ b. (key a).1 ≢ (key b).1) xs
      → IsSorted xs
      → IsSorted (insert_row key desc a xs)
  unfolding insert_row
  insert_row-IsSorted a [] ne s = (tt, tt)
  insert_row-IsSorted a (b ∷ xs) ne s = elim (Bool-cases (before desc (key a) (key b))) [
    | inl first ↦ rw first ((first, All-Before_trans a b xs first s.0), s)
    | inr later ↦ rw later (
      All-insert_row (Before b) a xs (before_total desc (key a) (key b) ne.0 later) s.0,
      insert_row-IsSorted a xs ne.1 s.1,
    )
  ]

  pub order_by-IsSorted : (xs : List A) → HasIds xs → IsSorted (order_by key desc xs)
  unfolding order_by
  order_by-IsSorted [] ids = tt
  order_by-IsSorted (a ∷ xs) ids =
      insert_row-IsSorted a (order_by key desc xs)
        (All-order_by (λ b. (key a).1 ≢ (key b).1) xs ids.0) (order_by-IsSorted xs ids.1)

  count-insert_row :
      (p : A → Bool) (a : A) (xs : List A) → count p (insert_row key desc a xs) ≡ count p (a ∷ xs)
  unfolding insert_row
  count-insert_row p a [] = refl
  count-insert_row p a (b ∷ xs) = elim (Bool-cases (before desc (key a) (key b))) [
    | inl first ↦ rw first refl
    | inr later ↦ rw later (omega (arith, count-insert_row p a xs))
  ]

  pub count-order_by : (p : A → Bool) (xs : List A) → count p (order_by key desc xs) ≡ count p xs
  unfolding order_by
  count-order_by p [] = refl
  count-order_by p (a ∷ xs) =
      omega (arith, count-insert_row p a (order_by key desc xs), count-order_by p xs)

  insert_row-first : (a : A) (xs : List A) → All (Before a) xs → insert_row key desc a xs ≡ a ∷ xs
  unfolding insert_row
  insert_row-first a [] hs = refl
  insert_row-first a (b ∷ xs) hs = rw hs.0 refl

  pub All-select : (P : A → Type 0) (q : A → Bool) (xs : List A) → All P xs → All P (select q xs)
  All-select P q [] hs = tt
  All-select P q (x ∷ xs) hs = elim (Bool-cases (q x)) [
    | inl in_ ↦ rw in_ (hs.0, All-select P q xs hs.1)
    | inr out ↦ rw out (All-select P q xs hs.1)
  ]

  select-insert_row :
      (q : A → Bool) (a : A) (xs : List A)
      → IsSorted xs
      → select q (insert_row key desc a xs)
        ≡ (if q a then insert_row key desc a (select q xs) else select q xs)
  unfolding insert_row
  select-insert_row q a [] s = refl
  select-insert_row q a (b ∷ xs) s = elim (Bool-cases (before desc (key a) (key b))) [
    | inl first ↦
        let ahead = All-select (Before a) q (b ∷ xs) (first, All-Before_trans a b xs first s.0) in
        rw first (rw (insert_row-first a (select q (b ∷ xs)) ahead) refl)
    | inr later ↦
        let rest = select-insert_row q a xs s.1 in
        rw later (elim (Bool-cases (q b)) [
          | inl in_ ↦ elim (Bool-cases (q a)) [
            | inl in_a ↦ rw in_ (rw rest (rw in_a (rw later refl)))
            | inr out_a ↦ rw in_ (rw rest (rw out_a refl))
          ]
          | inr out ↦ rw out rest
        ])
  ]

  -- Selecting before or after the sort is the same.
  pub select-order_by :
      (q : A → Bool) (xs : List A)
      → HasIds xs
      → order_by key desc (select q xs) ≡ select q (order_by key desc xs)
  unfolding order_by
  select-order_by q [] ids = refl
  select-order_by q (a ∷ xs) ids =
      let rest = select-order_by q xs ids.1 in
      let moved = select-insert_row q a (order_by key desc xs) (order_by-IsSorted xs ids.1) in
      elim (Bool-cases (q a)) [
        | inl in_ ↦ rw in_ (rw rest (rw moved (rw in_ refl)))
        | inr out ↦ rw out (rw moved (rw out rest))
      ]
