-- ===== src/Core/Realtime/Delivery.antt =====
-- The queue of one subscriber of app/core/realtime.py under a sequence of messages.
use a2z_core.Prelude.{
  ℕ, ◌-◌, ◌≤◌, ◌<◌, ◌≡◌, ap, List, [], ◌∷◌, ◌++◌, append_assoc, append-nil, length, length-append,
  length-drop, drop-drop, drop-append, drop, arith, sym, ◌∙◌, Bool-cases, ltb, inl, inr,
}
use a2z_core.Core.Realtime.{put_dropping_oldest}

module _ {ℓ} {M : Type ℓ} where
  -- The newest `n` of a list whose newest element stands last.
  abbrev pub newest : ℕ → List M → List M
  newest n xs = drop (length xs - n) xs

  -- The queue after a sequence of messages.
  pub put_all : ℕ → List M → List M → List M
  put_all maxsize queue [] = queue
  put_all maxsize queue (m ∷ ms) = put_all maxsize (put_dropping_oldest maxsize queue m) ms

  put-newest :
      (maxsize : ℕ) (queue : List M) (m : M)
      → 0 < maxsize
      → length queue ≤ maxsize
      → put_dropping_oldest maxsize queue m ≡ newest maxsize (queue ++ m ∷ [])
  unfolding put_dropping_oldest
  put-newest maxsize queue m pos fits =
      let e = length-append queue (m ∷ []) in
      elim (Bool-cases (ltb (length queue) maxsize)) [
        | inl room ↦ rw room (let z : length (queue ++ m ∷ []) - maxsize ≡ 0 = ground arith in rw z)
        | inr full ↦ rw full (
            let z : length (queue ++ m ∷ []) - maxsize ≡ 1 = ground arith in
            rw z (sym (drop-append 1 queue (m ∷ []) (ground arith))))
      ]

  newest-append : (n : ℕ) (xs ys : List M) → newest n (newest n xs ++ ys) ≡ newest n (xs ++ ys)
  newest-append n xs ys =
      let k = length xs - n in
      rw (← drop-append k xs ys (omega arith)) (
        drop-drop (length (drop k (xs ++ ys)) - n) k (xs ++ ys)
        ∙ ap (λ (j : ℕ). drop j (xs ++ ys))
            (omega (arith, length-drop k (xs ++ ys), length-append xs ys)))

  newest-short : (n : ℕ) (xs : List M) → length xs ≤ n → newest n xs ≡ xs
  newest-short n xs h = let z : length xs - n ≡ 0 = omega arith in rw z

  length-newest-le : (n : ℕ) (xs : List M) → length (newest n xs) ≤ n
  length-newest-le n xs = omega (arith, length-drop (length xs - n) xs)

  -- A queue with a capacity of at least one and within it, after any sequence of messages of which
  -- none has been taken: it holds the newest messages of what it held followed by that sequence, in
  -- order, up to its capacity.
  pub put_all-newest :
      (maxsize : ℕ) (queue ms : List M)
      → 0 < maxsize
      → length queue ≤ maxsize
      → put_all maxsize queue ms ≡ newest maxsize (queue ++ ms)
  unfolding put_all
  put_all-newest maxsize queue [] pos fits = rw append-nil (sym (newest-short maxsize queue fits))
  put_all-newest maxsize queue (m ∷ ms) pos fits = rw (put-newest maxsize queue m pos fits) (
      put_all-newest maxsize (newest maxsize (queue ++ m ∷ [])) ms pos
        (length-newest-le maxsize (queue ++ m ∷ []))
      ∙ newest-append maxsize (queue ++ m ∷ []) ms
      ∙ ap (newest maxsize) (append_assoc queue (m ∷ []) ms))
