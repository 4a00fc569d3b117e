-- ===== src/Core/Cache/Laws.antt =====
-- Reads and writes of app/core/cache.py in sequence.
use a2z_core.Prelude.{
  ℕ, ◌+◌, ◌≤◌, ◌<◌, ◌≡◌, ◌≢◌, ◌↔◌, Option, none, some, leb, ltb, if◌then◌else◌, arith,
}
use a2z_core.Prelude.Dict
use a2z_core.Prelude.Dict.{Eq, dict_laws, get-put, get-remove, beq_refl}
use a2z_core.Core.Cache.{TtlCache, get, set, ttl}

module _ {κ} {V : Type κ} where
  -- What `get` returns, in terms of the entry alone.
  live : ℕ → Option (ℕ × V) → Option V
  live now none = none
  live now (some (expires_at, value)) = if leb expires_at now then none else some value

module _ {ℓ κ} {K : Type ℓ} {V : Type κ} ⦃e : Eq K⦄ where
  get-live : (now : ℕ) (k : K) (c : TtlCache K V) → (get now k c).0 ≡ live now (Dict.get k c)
  unfolding get live
  get-live now k c = ground arith

  -- After a write of `k` at `now`, a read of any key at any instant: `k` gives the value exactly while
  -- less than its time to live has passed, and every other key reads as before the write.
  pub get-set :
      (now ttl_seconds later : ℕ) (k j : K) (v : V) (c : TtlCache K V)
      → (get later j (set now k v ttl_seconds c)).0 ≡ (
          if e.beq k j
          then (if ltb later (now + ttl_seconds) then some v else none)
          else (get later j c).0)
  unfolding set
  get-set now ttl_seconds later k j v c =
      rw (get-live, get-live, get-put) (unfold live in ground arith)

  -- A read changes no answer of a later read, although it may drop the entry.
  pub get-get :
      (now later : ℕ) (k j : K) (c : TtlCache K V)
      → now ≤ later
      → (get later j (get now k c).1).0 ≡ (get later j c).0
  get-get now later k j c le =
      rw (get-live, get-live) (unfold get live in ground (arith, get-remove k j c, e.beq_iff k j))

  -- `ttl` tells how long `get` will still answer: if it reports `r` then a read after a further time
  -- `d` gives a value exactly when `d < r`, and if it reports nothing no later read gives one.
  pub ttl-get :
      (now d : ℕ) (k : K) (c : TtlCache K V)
      → ((r : ℕ) → ttl now k c ≡ some r → ((get (now + d) k c).0 ≢ none) ↔ (d < r))
        × (ttl now k c ≡ none → (get (now + d) k c).0 ≡ none)
  unfolding get ttl
  ttl-get now d k c = ground arith
