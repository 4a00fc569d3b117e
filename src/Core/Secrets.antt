-- ===== src/Core/Secrets.antt =====
-- app/core/secrets.py: the secrets of an org in Secrets Manager, read through the cache of
-- app/core/cache.py. A call gives way to others at each `await`, so it is cut there. The ids of orgs are texts, as in the names.
pub mod Names
pub mod Kept
pub mod Written
use a2z_core.Prelude.{ℕ, Bool, true, false, Option, none, some, List, [], ◌∷◌, ◌++◌, if◌then◌else◌}
use a2z_core.Prelude.Text.{Text, codes, text_eq}
use a2z_core.Prelude.Dict
use a2z_core.Prelude.Dict.{Dict, nat_eq}
use a2z_core.Prelude.Run.{Result, Run, ok, err}
use a2z_core.Core.Cache
use a2z_core.Core.Cache.{TtlCache}

-- SecretNotFoundError, SecretsError, another ClientError, and what `json.loads` raises.
pub data Error : Type 0 where
  secret_not_found secrets_error client_error json_error : Error

-- The `json` module on a secret's value.
pub record Json : Type 0 where
  pub dumps : Dict Text Text → Text
  pub loads : Text → Option (Dict Text Text)

-- Whose secret, of which service, under which key.
pub record Place : Type 0 where
  pub org_id : Text
  pub service_type : Text
  pub key : Text

-- A call of `get_secret_value` that some `get_secret` awaits, with its answer once there is one.
pub data Read : Type 0 where
  asked : Place → Read
  answered : Place → Option Text → Read

-- Secrets Manager by name, the cache of this process, and the calls in flight.
pub record Vault : Type 0 where
  pub secrets : Dict Text Text
  pub cache : TtlCache Text Text
  pub reads : Dict ℕ Read

abbrev pub VaultCall : Type 0 → Type 0
VaultCall = Run Vault Error

-- "/" and ":"
abbrev pub slash : ℕ
slash = 47

abbrev pub colon : ℕ
colon = 58

-- `f"{org_id}{sep}{service_type}{sep}{key}"`
abbrev pub joined : ℕ → Place → Text
joined sep p = p.org_id ++ (sep ∷ (p.service_type ++ (sep ∷ p.key)))

abbrev pub secret_name : Place → Text
secret_name p = codes "a2z/" ++ joined slash p

abbrev pub cache_key : Place → Text
cache_key p = codes "secret:" ++ joined colon p

abbrev pub cache_ttl_seconds : ℕ
cache_ttl_seconds = 300

abbrev pub result_map : {A B : Type 0} → (A → B) → Result Error A → Result Error B
result_map f (err e) = err e
result_map f (ok a) = ok (f a)

abbrev pub parse : Json → Text → Result Error (Dict Text Text)
parse json raw = elim (json.loads raw) [ none ↦ err Error.json_error | some value ↦ ok value ]

-- A value that does not parse raises before it is cached.
abbrev pub cache_parsed :
    ℕ → Place → Text → Result Error (Dict Text Text) → VaultCall (Dict Text Text)
cache_parsed now p raw (err e) s = (err e, s)
cache_parsed now p raw (ok value) s =
    (ok value, record s { cache = Cache.set now (cache_key p) raw cache_ttl_seconds s.cache })

abbrev pub cache_found : Json → ℕ → Place → Option Text → VaultCall (Dict Text Text)
cache_found json now p none s = (err Error.secret_not_found, s)
cache_found json now p (some raw) s = cache_parsed now p raw (parse json raw) s

-- A hit, or else none, and a call of `get_secret_value` under a fresh number.
abbrev pub looked_up : Json → ℕ → Place → Option Text → VaultCall (Option (Dict Text Text))
looked_up json id p (some raw) s = (result_map some (parse json raw), s)
looked_up json id p none s = (ok none, record s { reads = Dict.put id (asked p) s.reads })

-- `get_secret` up to its `await`.
unfoldable pub start : Json → ℕ → ℕ → Place → VaultCall (Option (Dict Text Text))
start json now id p s =
    let (cached, cache') = Cache.get now (cache_key p) s.cache in
    looked_up json id p cached (record s { cache = cache' })

-- Secrets Manager answers the call, with the value it has then.
abbrev pub answer_read : ℕ → Option Read → Vault → Vault
answer_read id none s = s
answer_read id (some (asked p)) s = record s {
  reads = Dict.put id (answered p (Dict.get (secret_name p) s.secrets)) s.reads;
}
answer_read id (some (answered p found)) s = s

unfoldable pub answer : ℕ → Vault → Vault
answer id s = answer_read id (Dict.get id s.reads) s

-- `get_secret` after its `await`. A call without an answer has failed.
abbrev pub finish_read : Json → ℕ → Option Read → VaultCall (Dict Text Text)
finish_read json now none s = (err Error.client_error, s)
finish_read json now (some (asked p)) s = (err Error.client_error, s)
finish_read json now (some (answered p found)) s = cache_found json now p found s

unfoldable pub finish : Json → ℕ → ℕ → VaultCall (Dict Text Text)
finish json now id s =
    finish_read json now (Dict.get id s.reads) (record s { reads = Dict.remove id s.reads })

-- What tasks do between two `await`s: the parts of `get_secret`, and those of `put_secret`.
pub data Step : Type 0 where
  starting : Json → ℕ → ℕ → Place → Step
  answering : ℕ → Step
  finishing : Json → ℕ → ℕ → Step
  storing : Place → Text → Step
  invalidating : Place → Step

unfoldable pub step : Step → Vault → Vault
step (starting json now id p) s = (start json now id p s).1
step (answering id) s = answer id s
step (finishing json now id) s = (finish json now id s).1
step (storing p raw) s = record s { secrets = Dict.put (secret_name p) raw s.secrets }
step (invalidating p) s = record s { cache = Cache.delete (cache_key p) s.cache }

unfoldable pub run : List Step → Vault → Vault
run [] s = s
run (x ∷ steps) s = run steps (step x s)

-- The steps of other tasks while `get_secret` waits, until Secrets Manager answers and after that.
pub record Waiting : Type 0 where
  pub before : List Step
  pub after : List Step

abbrev pub resume :
    Json
    → Bool
    → ℕ
    → ℕ
    → Waiting
    → Result Error (Option (Dict Text Text))
    → VaultCall (Dict Text Text)
resume json fails now id w (err e) s = (err e, s)
resume json fails now id w (ok (some value)) s = (ok value, s)
resume json fails now id w (ok none) s =
    let s' = run w.before s in finish json now id (run w.after (if fails then s' else answer id s'))

-- `get_secret`, which starts at one instant and goes on after its `await` at another, and whether
-- Secrets Manager fails.
unfoldable pub get_secret : Json → Bool → ℕ → ℕ → ℕ → Place → Waiting → VaultCall (Dict Text Text)
get_secret json fails now later id p w s =
    let (found, s') = start json now id p s in resume json fails later id w found s'

-- `put_secret`: `put_secret_value`, or `create_secret` when there is none of the name, and when that
-- has returned, with the steps of other tasks in between, the cached value goes.
unfoldable pub put_secret : Json → Bool → Place → Dict Text Text → List Step → VaultCall (Unit {0})
put_secret json fails p value between s =
    if fails
    then (err Error.secrets_error, s)
    else (ok tt, step (invalidating p) (run between (step (storing p (json.dumps value)) s)))
