-- ===== src/Omnichannel/Inbox/Keyset/Pages.antt =====
-- One page of a query, and where the next one begins.
use a2z_core.Prelude.{
  All-middle, ℕ, zero, suc, ◌≡◌, ◌≤◌, ◌<◌, refl, sym, ◌∙◌, ap, subst, inl, inr, Bool, true, false,
  ltb, Option, none, some, List, [], ◌∷◌, ◌++◌, append_assoc, length, take, drop, select, All,
  take_all, take-take, take-append-drop, length-take, length-drop, arith, Bool-cases,
}
use a2z_core.Omnichannel.Inbox.Order.{Key, before, before_irrefl, before_trans, cursor_predicate}
use a2z_core.Omnichannel.Inbox.Keyset.{order_by, continues, last_key, page_of, fetch}
use a2z_core.Omnichannel.Inbox.Keyset.Sorting.{
  Before, IsSorted, HasIds, All-order_by, order_by-IsSorted, select-order_by,
}

module _ {A : Type 0} (key : A → Key) (desc : Bool) (Ok : Key → Type 0)
    (agrees : (c k : Key) → Ok c → Ok k → cursor_predicate desc c k ≡ before desc c k) where
  -- The cursor stands before `rest` in the whole listing.
  abbrev pub StandsAt : Option Key → List A → List A → Type 0
  StandsAt none rest listing = listing ≡ rest
  StandsAt (some c) rest listing =
      (pre : List A) × (x : A) × (listing ≡ pre ++ x ∷ rest) × (key x ≡ c)

  not_before : (x y : A) → Before key desc y x → before desc (key x) (key y) ≡ false
  not_before x y h = elim (Bool-cases (before desc (key x) (key y))) [
    | inr no_ ↦ no_
    | inl back ↦
        let loop = before_trans desc (key x) (key y) (key x) back h in
        let irrefl = before_irrefl desc (key x) in absurd (ground (arith, loop, irrefl))
  ]

  select-continues :
      (x : A) (rest : List A)
      → Ok (key x)
      → All (λ a. Ok (key a)) rest
      → All (Before key desc x) rest
      → select (continues key desc (some (key x))) rest ≡ rest
  select-continues x [] o os hs = refl
  select-continues x (y ∷ rest) o os hs =
      let hit = agrees (key x) (key y) o os.0 ∙ hs.0 in
      rw hit (ap (λ (ys : List A). y ∷ ys) (select-continues x rest o os.1 hs.1))

  select-after :
      (pre : List A) (x : A) (rest : List A)
      → All (λ a. Ok (key a)) (pre ++ x ∷ rest)
      → IsSorted key desc (pre ++ x ∷ rest)
      → select (continues key desc (some (key x))) (pre ++ x ∷ rest) ≡ rest
  select-after [] x rest os s =
      let skip = agrees (key x) (key x) os.0 os.0 ∙ before_irrefl desc (key x) in
      rw skip (select-continues x rest os.0 os.1 s.0)
  select-after (y ∷ pre) x rest os s =
      let skip =
        agrees (key x) (key y) (All-middle (λ a. Ok (key a)) pre x rest os.1) os.0
        ∙ not_before x y (All-middle (Before key desc y) pre x rest s.0) in
      rw skip (select-after pre x rest os.1 s.1)

  select-StandsAt :
      (c : Option Key) (rest listing : List A)
      → All (λ a. Ok (key a)) listing
      → IsSorted key desc listing
      → StandsAt c rest listing
      → select (continues key desc c) listing ≡ rest
  select-StandsAt none rest listing os s at = all_true listing ∙ at
    where
      all_true : (xs : List A) → select (λ a. true) xs ≡ xs
      all_true [] = refl
      all_true (x ∷ xs) = ap (λ (ys : List A). x ∷ ys) (all_true xs)
  select-StandsAt (some c) rest listing os s (pre, x, e, k) =
      rw (e, sym k)
        (select-after pre x rest (subst (All (λ a. Ok (key a))) e os)
          (subst (IsSorted key desc) e s))

  split_last :
      (a : A) (xs rest : List A)
      → (pre : List A) × (x : A) × ((a ∷ xs) ++ rest ≡ pre ++ x ∷ rest)
        × (key x ≡ last_key key a xs)
  split_last a [] rest = ([], a, refl, refl)
  split_last a (b ∷ xs) rest =
      let (pre, x, e, k) = split_last b xs rest in (a ∷ pre, x, ap (λ (ys : List A). a ∷ ys) e, k)

  StandsAt-last :
      (c : Option Key) (a : A) (xs rest listing : List A)
      → StandsAt c ((a ∷ xs) ++ rest) listing
      → StandsAt (some (last_key key a xs)) rest listing
  StandsAt-last none a xs rest listing at =
      let (pre, x, e, k) = split_last a xs rest in (pre, x, at ∙ e, k)
  StandsAt-last (some c) a xs rest listing (pre', y, e', k') =
      let (pre, x, e, k) = split_last a xs rest in
      (
        pre' ++ y ∷ pre,
        x,
        e' ∙ ap (λ (ys : List A). pre' ++ y ∷ ys) e ∙ sym (append_assoc pre' (y ∷ pre) (x ∷ rest)),
        k,
      )

  -- What a page leaves: nothing, or a shorter rest that its last row stands before.
  abbrev pub Leaves : List A → List A → List A → Option Key → Type 0
  Leaves rest listing items none = items ≡ rest
  Leaves rest listing items (some c) =
      (rest' : List A) × (items ++ rest' ≡ rest)
      × (length rest' < length rest)
      × StandsAt (some c) rest' listing

  more-Leaves :
      (page_size : ℕ) (c : Option Key) (rest listing : List A)
      → 1 ≤ page_size
      → page_size < length rest
      → StandsAt c rest listing
      → Leaves rest listing
          (page_of key page_size (take (suc page_size) rest)).0
          (page_of key page_size (take (suc page_size) rest)).1
  more-Leaves zero c rest listing h more at = absurd (omega (arith, h))
  more-Leaves (suc n) c [] listing h more at = absurd (omega (arith, more))
  more-Leaves (suc n) c (a ∷ rest) listing h more at =
      let whole = take-append-drop n rest in
      let counted = length-take (suc n) rest (omega (arith, more)) in
      let shorter : length (drop n rest) < length (a ∷ rest) = omega (arith, length-drop n rest) in
      let long : ltb (suc n) (length (a ∷ take (suc n) rest)) ≡ true = ground (arith, counted) in
      let cut = take-take n rest in
      rw (long, cut)
        (
          drop n rest,
          ap (λ (ys : List A). a ∷ ys) whole,
          shorter,
          StandsAt-last c a (take n rest) (drop n rest) listing
              (subst (λ (r : List A). StandsAt c (a ∷ r) listing) (sym whole) at),
        )

  page-Leaves :
      (page_size : ℕ) (c : Option Key) (rest listing : List A)
      → 1 ≤ page_size
      → StandsAt c rest listing
      → Leaves rest listing
          (page_of key page_size (take (suc page_size) rest)).0
          (page_of key page_size (take (suc page_size) rest)).1
  page-Leaves page_size c rest listing h at = elim (Bool-cases (ltb page_size (length rest))) [
    | inr last ↦
        let fits : length rest ≤ page_size = ground (arith, last) in
        rw (take_all (suc page_size) rest (omega (arith, fits)), last)
          (take_all page_size rest fits)
    | inl more ↦ more-Leaves page_size c rest listing h (ground (arith, more)) at
  ]

  pub fetch-Leaves :
      (page_size : ℕ) (c : Option Key) (rest rows : List A)
      → 1 ≤ page_size
      → HasIds key desc rows
      → All (λ a. Ok (key a)) rows
      → StandsAt c rest (order_by key desc rows)
      → Leaves rest
          (order_by key desc rows)
          (fetch key desc page_size c rows).0
          (fetch key desc page_size c rows).1
  unfolding fetch
  fetch-Leaves page_size c rest rows h ids os at =
      rw
        (
          select-order_by key desc (continues key desc c) rows ids,
          select-StandsAt c rest (order_by key desc rows)
              (All-order_by key desc (λ a. Ok (key a)) rows os)
              (order_by-IsSorted key desc rows ids) at,
        )
        (page-Leaves page_size c rest (order_by key desc rows) h at)
