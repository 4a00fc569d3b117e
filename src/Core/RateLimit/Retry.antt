-- ===== src/Core/RateLimit/Retry.antt =====
-- The delay that a refused caller of app/core/rate_limit.py is told, and calls under other keys.
use a2z_core.Prelude.{
  ℕ, ◌+◌, ◌-◌, ◌*◌, ◌/◌, ◌≤◌, ◌<◌, ◌≡◌, refl, ◌≢◌, List, [], ◌∷◌, length, length-append, arith,
}
use a2z_core.Prelude.Dict.{Eq, Dict, get, get-put}
use a2z_core.Core.RateLimit.{
  recorded, rate_limited, evict, retry_after, refuse, check_window, check_and_increment,
}

length-evict-le : (window now : ℕ) (dq : List ℕ) → length (evict window now dq) ≤ length dq
unfolding evict
length-evict-le window now [] = omega arith
length-evict-le window now (t ∷ dq) = ground (arith, length-evict-le window now dq)

-- The deque never holds more than `limit` instants.
pub check_window-length :
    (hz limit window now : ℕ) (dq : List ℕ)
    → length dq ≤ limit
    → length (check_window hz limit window now dq).1 ≤ limit
unfolding check_window
check_window-length hz limit window now dq h =
    ground (arith, length-evict-le window now dq, length-append (evict window now dq) (now ∷ []))

-- After an eviction the oldest instant left is still inside the window.
evict-head :
    (window now : ℕ) (dq : List ℕ) (t : ℕ) (rest : List ℕ)
    → evict window now dq ≡ t ∷ rest
    → now < t + window
unfolding evict
evict-head window now [] t rest e = cc
evict-head window now (x ∷ dq) t rest e = ground (arith, evict-head window now dq t rest)

ceil_div_upper : (hz d : ℕ) → 0 < hz → d ≤ ((d + (hz - 1)) / hz) * hz
ceil_div_upper hz d h = grind arith

ceil_div_lower : (hz d : ℕ) → 0 < hz → 0 < d → ((d + (hz - 1)) / hz - 1) * hz < d
ceil_div_lower hz d h p = grind arith

-- What a refusal says of the deque and of the wait.
refused-inv :
    (hz limit window now r : ℕ) (dq live : List ℕ)
    → check_window hz limit window now dq ≡ (rate_limited r, live)
    → (t : ℕ) × (rest : List ℕ) × (live ≡ t ∷ rest)
      × (limit ≤ length live)
      × (now < t + window)
      × (r ≡ retry_after hz window t now)
unfolding check_window
refused-inv hz limit window now r dq live h = go (evict window now dq) refl h
  where
    go :
        (l : List ℕ)
        → evict window now dq ≡ l
        → check_window hz limit window now dq ≡ (rate_limited r, live)
        → (t : ℕ) × (rest : List ℕ) × (live ≡ t ∷ rest)
          × (limit ≤ length live)
          × (now < t + window)
          × (r ≡ retry_after hz window t now)
    go [] e k = absurd (unfold check_window refuse in ground arith)
    go (t ∷ rest) e k =
        unfold check_window refuse in
        (t, rest, ground arith, ground arith, evict-head window now dq t rest e, ground arith)

later-recorded :
    (hz limit window later t : ℕ) (rest : List ℕ)
    → t + window ≤ later
    → length (t ∷ rest) ≤ limit
    → (check_window hz limit window later (t ∷ rest)).0 ≡ recorded
unfolding check_window evict
later-recorded hz limit window later t rest gone short =
    ground (arith, length-evict-le window later rest)

sooner-refused :
    (hz limit window later t : ℕ) (rest : List ℕ)
    → later < t + window
    → limit ≤ length (t ∷ rest)
    → (check_window hz limit window later (t ∷ rest)).0 ≢ recorded
unfolding check_window evict refuse
sooner-refused hz limit window later t rest stays full = ground arith

retry_after-upper :
    (hz window t now : ℕ) → 0 < hz → t + window ≤ now + retry_after hz window t now * hz
unfolding retry_after
retry_after-upper hz window t now pos =
    let c = ceil_div_upper hz (t + window - now) pos in grind arith

retry_after-lower :
    (hz window t now : ℕ)
    → 0 < hz
    → now < t + window
    → now + (retry_after hz window t now - 1) * hz < t + window
unfolding retry_after
retry_after-lower hz window t now pos inside =
    let c = ceil_div_lower hz (t + window - now) pos (omega arith) in grind arith

retry_after-pos : (hz window t now : ℕ) → 1 ≤ retry_after hz window t now
unfolding retry_after
retry_after-pos hz window t now = omega arith

-- The three statements below about a deque that is known to begin with `t`.
wait_is_exact :
    (hz limit window now r : ℕ) (live : List ℕ) (t : ℕ) (rest : List ℕ)
    → 0 < hz
    → live ≡ t ∷ rest
    → length live ≤ limit
    → limit ≤ length live
    → now < t + window
    → r ≡ retry_after hz window t now
    → (1 ≤ r)
      × ((later : ℕ)
          → now + r * hz ≤ later
          → (check_window hz limit window later live).0 ≡ recorded)
      × ((later : ℕ)
          → later ≤ now + (r - 1) * hz
          → (check_window hz limit window later live).0 ≢ recorded)
wait_is_exact hz limit window now r live t rest pos e fits full inside wait =
    rw (wait, e)
      (
        retry_after-pos hz window t now,
        λ later le.
            later-recorded hz limit window later t rest
              (let u = retry_after-upper hz window t now pos in omega arith) (rw e at fits),
        λ later le.
            sooner-refused hz limit window later t rest
              (let u = retry_after-lower hz window t now pos inside in omega arith) (rw e at full),
      )

-- A call that is refused with `retry_after = r` on a deque of at most `limit` instants is told the
-- truth to the second: `r` is at least 1, a call made `r` seconds later or after that is recorded if
-- none came between, and any call up to `r - 1` seconds later is refused.
pub refused-retry_after :
    (hz limit window now r : ℕ) (dq live : List ℕ)
    → 0 < hz
    → length dq ≤ limit
    → check_window hz limit window now dq ≡ (rate_limited r, live)
    → (1 ≤ r)
      × ((later : ℕ)
          → now + r * hz ≤ later
          → (check_window hz limit window later live).0 ≡ recorded)
      × ((later : ℕ)
          → later ≤ now + (r - 1) * hz
          → (check_window hz limit window later live).0 ≢ recorded)
refused-retry_after hz limit window now r dq live pos short h =
    let (t, rest, e, full, inside, wait) = refused-inv hz limit window now r dq live h in
    let kept = check_window-length hz limit window now dq short in
    wait_is_exact hz limit window now r live t rest pos e (rw h at kept) full inside wait

-- A call under one key leaves the deque of every other key as it was.
pub check_and_increment-other {ℓ} :
    {K : Type ℓ} ⦃e : Eq K⦄ (hz limit seconds now : ℕ) (k j : K) (windows : Dict K (List ℕ))
    → k ≢ j
    → get j (check_and_increment hz k limit seconds now windows).1 ≡ get j windows
unfolding check_and_increment
check_and_increment-other ⦃e⦄ hz limit seconds now k j windows ne =
    rw get-put (ground (arith, e.beq_iff k j))
