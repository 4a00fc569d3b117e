-- ===== src/Core/Cache.antt =====
-- app/core/cache.py: the in-process TTL cache. `time.monotonic()` is a number of ticks that the caller
-- passes in; a stored entry is `(expires_at, value)`.
pub mod Laws
use a2z_core.Prelude.{ℕ, ◌+◌, ◌-◌, Option, none, some, [], leb, if◌then◌else◌}
use a2z_core.Prelude.Dict
use a2z_core.Prelude.Dict.{Eq, Dict}

abbrev pub TtlCache {ℓ κ} : Type ℓ → Type κ → Type (ℓ ⊔ κ)
TtlCache K V = Dict K (ℕ × V)

module _ {κ} {V : Type κ} where
  left : ℕ → Option (ℕ × V) → Option ℕ
  left now none = none
  left now (some (expires_at, value)) = if leb expires_at now then none else some (expires_at - now)

module _ {ℓ κ} {K : Type ℓ} {V : Type κ} ⦃e : Eq K⦄ where
  unfoldable pub read : ℕ → K → Option (ℕ × V) → TtlCache K V → Option V × TtlCache K V
  read now key none c = (none, c)
  read now key (some (expires_at, value)) c =
      if leb expires_at now then (none, Dict.remove key c) else (some value, c)

  -- `get`, which drops an entry that it finds expired.
  unfoldable pub get : ℕ → K → TtlCache K V → Option V × TtlCache K V
  unfolding read
  get now key c = read now key (Dict.get key c) c

  unfoldable pub set : ℕ → K → V → ℕ → TtlCache K V → TtlCache K V
  set now key value ttl_seconds c = Dict.put key (now + ttl_seconds, value) c

  unfoldable pub ttl : ℕ → K → TtlCache K V → Option ℕ
  unfolding left
  ttl now key c = left now (Dict.get key c)

  unfoldable pub delete : K → TtlCache K V → TtlCache K V
  delete key c = Dict.remove key c

  unfoldable pub clear : TtlCache K V → TtlCache K V
  clear c = []
