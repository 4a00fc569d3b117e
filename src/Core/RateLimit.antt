-- ===== src/Core/RateLimit.antt =====
-- app/core/rate_limit.py: the sliding-window limiter. The deque of one `(org_id, action)` is a list
-- of timestamps, oldest first. `time.monotonic()` is a number of ticks, `hz` to the second.
pub mod Window
pub mod Retry
use a2z_core.Prelude.{
  ℕ, ◌+◌, ◌-◌, ◌*◌, ◌/◌, max, Bool, Option, none, some, List, [], ◌∷◌, ◌++◌, length, leb,
  if◌then◌else◌,
}
use a2z_core.Prelude.Text.{Text, codes}
use a2z_core.Prelude.Dict.{Eq, Dict, get, put}

-- `while dq and dq[0] <= window_start: dq.popleft()`, with `window` in ticks.
unfoldable pub evict : ℕ → ℕ → List ℕ → List ℕ
evict window now [] = []
evict window now (t ∷ dq) =
    let rest = evict window now dq in if leb (t + window) now then rest else t ∷ dq

-- How a call ends: it returns, raises RateLimitError with `retry_after`, or fails on `dq[0]` of an
-- empty deque.
pub data Outcome : Type 0 where
  recorded : Outcome
  rate_limited : ℕ → Outcome
  index_error : Outcome

-- `max(1, math.ceil(dq[0] + window_seconds - now))`, in seconds.
unfoldable pub retry_after : ℕ → ℕ → ℕ → ℕ → ℕ
retry_after hz window oldest now = max 1 ((oldest + window - now + (hz - 1)) / hz)

unfoldable pub refuse : ℕ → ℕ → ℕ → List ℕ → Outcome
unfolding retry_after
refuse hz window now [] = index_error
refuse hz window now (t ∷ dq) = rate_limited (retry_after hz window t now)

-- `RATE_LIMITS` of app/config.py: the limit and the window in seconds of an action.
abbrev pub rate_limits : Dict Text (ℕ × ℕ)
rate_limits =
    (codes "email.send", (50, 3600))
    ∷ (codes "ai.parse.user", (30, 60))
    ∷ (codes "ai.parse.org", (500, 86400))
    ∷ (codes "omnichannel.whatsapp.send", (80, 1))
    ∷ (codes "omnichannel.messenger.send", (80, 1))
    ∷ (codes "omnichannel.instagram.send", (80, 1))
    ∷ []

-- The body of `check_and_increment` on the deque of its key.
unfoldable pub check_window : ℕ → ℕ → ℕ → ℕ → List ℕ → Outcome × List ℕ
unfolding evict refuse
check_window hz limit window now dq =
    let live = evict window now dq in
    if leb limit (length live)
    then (refuse hz window now live, live)
    else (recorded, live ++ now ∷ [])

unfoldable pub window_of : Option (List ℕ) → List ℕ
window_of none = []
window_of (some dq) = dq

-- `check_and_increment(org_id, action, limit=…, window_seconds=…)` on the module's `_windows`.
unfoldable pub check_and_increment {ℓ} :
    {K : Type ℓ} ⦃e : Eq K⦄ → ℕ → K → ℕ → ℕ → ℕ → Dict K (List ℕ) → Outcome × Dict K (List ℕ)
unfolding check_window window_of get put
check_and_increment hz key limit window_seconds now windows =
    let (outcome, dq) =
      check_window hz limit (window_seconds * hz) now (window_of (get key windows)) in
    (outcome, put key dq windows)
