-- ===== src/Core/Secrets/Written.antt =====
-- What `get_secret` of app/core/secrets.py reads after `put_secret`.
use a2z_core.Prelude.{
  ℕ, ◌≡◌, ◌≢◌, refl, sym, ◌∙◌, ap, inl, inr, false, leb, ◌==◌, Option, none, some, List, [], ◌∷◌,
  All, Bool-cases, arith,
}
use a2z_core.Prelude.Text.{Text, text_eq}
use a2z_core.Prelude.Dict
use a2z_core.Prelude.Dict.{Dict, nat_eq, get-put, get-remove, beq_refl}
use a2z_core.Prelude.Run.{Result, ok, err}
use a2z_core.Core.Cache
use a2z_core.Core.Cache.{TtlCache}
use a2z_core.Core.Secrets.Names.{IsPlain}
use a2z_core.Core.Secrets.Kept.{
  Spares, AllSettled, Holds, put-AllSettled, get-CachesOnly, storing-keeps, run-Holds,
}
use a2z_core.Core.Secrets.{
  Error, Vault, Json, Place, Read, asked, answered, Step, starting, answering, finishing, storing,
  invalidating, Waiting, secret_name, cache_key, parse, result_map, cache_parsed, looked_up, start,
  answer_read, answer, finish_read, finish, step, run, resume, get_secret, put_secret,
}

-- The step is not one of the call of that number.
abbrev pub IsOther : ℕ → Step → Type 0
IsOther id (starting json now i q) = i ≢ id
IsOther id (answering i) = i ≢ id
IsOther id (finishing json now i) = i ≢ id
IsOther id (storing q raw) = Unit
IsOther id (invalidating q) = Unit

-- What a step of a read leaves: every secret, and the calls in flight but its own.
abbrev Spoils : ℕ → Vault → Vault → Type 0
Spoils i s s' =
    (s'.secrets ≡ s.secrets) × ((id : ℕ) → i ≢ id → Dict.get id s'.reads ≡ Dict.get id s.reads)

put_ne :
    (i id : ℕ) (r : Read) (reads : Dict ℕ Read)
    → i ≢ id
    → Dict.get id (Dict.put i r reads) ≡ Dict.get id reads
put_ne i id r reads ne =
    let differs : (i == id) ≡ false = ground arith in get-put i id r reads ∙ rw differs refl

remove_ne :
    (i id : ℕ) (reads : Dict ℕ Read)
    → i ≢ id
    → Dict.get id (Dict.remove i reads) ≡ Dict.get id reads
remove_ne i id reads ne =
    let differs : (i == id) ≡ false = ground arith in get-remove i id reads ∙ rw differs refl

start-Spoils :
    (json : Json) (now i : ℕ) (q : Place) (s : Vault) → Spoils i s (start json now i q s).1
unfolding start
start-Spoils json now i q s =
    let read = Cache.get now (cache_key q) s.cache in go read.0 (record s { cache = read.1 })
  where
    go : (cached : Option Text) (s' : Vault) → Spoils i s' (looked_up json i q cached s').1
    go (some u) s' = (refl, λ id ne. refl)
    go none s' = (refl, λ id ne. put_ne i id (asked q) s'.reads ne)

answer-Spoils : (i : ℕ) (s : Vault) → Spoils i s (answer i s)
unfolding answer
answer-Spoils i s = go (Dict.get i s.reads)
  where
    go : (r : Option Read) → Spoils i s (answer_read i r s)
    go none = (refl, λ id ne. refl)
    go (some (answered q found)) = (refl, λ id ne. refl)
    go (some (asked q)) =
        (refl, λ id ne. put_ne i id (answered q (Dict.get (secret_name q) s.secrets)) s.reads ne)

finish-Spoils : (json : Json) (now i : ℕ) (s : Vault) → Spoils i s (finish json now i s).1
unfolding finish
finish-Spoils json now i s = go (Dict.get i s.reads)
  where
    s' : Vault
    s' = record s { reads = Dict.remove i s.reads }

    removed : Spoils i s s'
    removed = (refl, λ id ne. remove_ne i id s.reads ne)

    parsed :
        (q : Place) (raw : Text) (r : Result Error (Dict Text Text))
        → Spoils i s (cache_parsed now q raw r s').1
    parsed q raw (err e) = removed
    parsed q raw (ok value) = removed

    go : (r : Option Read) → Spoils i s (finish_read json now r s').1
    go none = removed
    go (some (asked q)) = removed
    go (some (answered q none)) = removed
    go (some (answered q (some raw))) = parsed q raw (parse json raw)

run-reads :
    (id : ℕ) (steps : List Step) (s : Vault)
    → All (IsOther id) steps
    → Dict.get id (run steps s).reads ≡ Dict.get id s.reads
unfolding run step
run-reads id [] s others = refl
run-reads id (starting json now i q ∷ steps) s others =
    run-reads id steps (start json now i q s).1 others.1
    ∙ (start-Spoils json now i q s).1 id others.0
run-reads id (answering i ∷ steps) s others =
    run-reads id steps (answer i s) others.1 ∙ (answer-Spoils i s).1 id others.0
run-reads id (finishing json now i ∷ steps) s others =
    run-reads id steps (finish json now i s).1 others.1 ∙ (finish-Spoils json now i s).1 id others.0
run-reads id (storing q raw ∷ steps) s others = run-reads id steps (step (storing q raw) s) others.1
run-reads id (invalidating q ∷ steps) s others =
    run-reads id steps (step (invalidating q) s) others.1

run-secrets :
    (p : Place)
    → IsPlain p
    → (steps : List Step) (s : Vault) → All (Spares p) steps
    → Dict.get (secret_name p) (run steps s).secrets ≡ Dict.get (secret_name p) s.secrets
unfolding run step
run-secrets p plain [] s spares = refl
run-secrets p plain (starting json now i q ∷ steps) s spares =
    run-secrets p plain steps (start json now i q s).1 spares.1
    ∙ ap (Dict.get (secret_name p)) (start-Spoils json now i q s).0
run-secrets p plain (answering i ∷ steps) s spares =
    run-secrets p plain steps (answer i s) spares.1
    ∙ ap (Dict.get (secret_name p)) (answer-Spoils i s).0
run-secrets p plain (finishing json now i ∷ steps) s spares =
    run-secrets p plain steps (finish json now i s).1 spares.1
    ∙ ap (Dict.get (secret_name p)) (finish-Spoils json now i s).0
run-secrets p plain (storing q raw ∷ steps) s spares =
    run-secrets p plain steps (step (storing q raw) s) spares.1
    ∙ storing-keeps p plain raw q raw s spares.0.0 spares.0.1
run-secrets p plain (invalidating q ∷ steps) s spares =
    run-secrets p plain steps (step (invalidating q) s) spares.1

read-only :
    (now : ℕ) (k raw : Text) (entry : Option (ℕ × Text)) (c : TtlCache Text Text)
    → ((e : ℕ) (u : Text) → entry ≡ some (e, u) → u ≡ raw)
    → (u : Text) → (Cache.read now k entry c).0 ≡ some u
    → u ≡ raw
unfolding Cache.read
read-only now k raw none c only u h = absurd cc
read-only now k raw (some (e, v)) c only u h = elim (Bool-cases (leb e now)) [
  | inr alive ↦
      let r : (Cache.read now k (some (e, v)) c).0 ≡ some v = rw alive refl in
      let same : u ≡ v = let both = sym r ∙ h in cc in same ∙ only e v refl
  | inl expired ↦
      let r : (Cache.read now k (some (e, v)) c).0 ≡ none = rw expired refl in
      absurd (let both = sym r ∙ h in cc)
]

module _ (json : Json) (p : Place) (plain : IsPlain p) (value : Dict Text Text)
    (parses : json.loads (json.dumps value) ≡ some value) where
  abbrev raw : Text
  raw = json.dumps value

  parse-dumps : (u : Text) → u ≡ raw → parse json u ≡ ok value
  parse-dumps u same =
      ap
        (λ o. elim o as (λ _. Result Error (Dict Text Text)) [
          | none ↦ err Error.json_error
          | some v ↦ ok v
        ])
        (ap json.loads same ∙ parses)

  module _ (later id : ℕ) (w : Waiting) (spares_before : All (Spares p) w.before)
      (others_before : All (IsOther id) w.before) (others_after : All (IsOther id) w.after) where
    -- After the `await` that followed a miss.
    finish-value :
        (s : Vault)
        → Holds p plain raw s
        → Dict.get id s.reads ≡ some (asked p)
        → (resume json false later id w (ok none) s).0 ≡ ok value
    unfolding answer finish
    finish-value s holds e =
        let s4 = run w.before s in
        let e4 : Dict.get id s4.reads ≡ some (asked p) =
          run-reads id w.before s others_before ∙ e in
        let holds4 = run-Holds p plain raw w.before s spares_before holds in
        let found = Dict.get (secret_name p) s4.secrets in
        let put_back = Dict.put id (answered p found) s4.reads in
        let e5 : Dict.get id (answer id s4).reads ≡ some (answered p found) =
          ap (λ r. Dict.get id (answer_read id r s4).reads) e4
          ∙ get-put id id (answered p found) s4.reads
          ∙ rw (beq_refl id) refl in
        let s6 = run w.after (answer id s4) in
        let e6 : Dict.get id s6.reads ≡ some (answered p (some raw)) =
          run-reads id w.after (answer id s4) others_after
          ∙ e5
          ∙ ap (λ o. some (answered p o)) holds4.0 in
        let s7 : Vault = record s6 { reads = Dict.remove id s6.reads } in
        ap (λ r. (finish_read json later r s7).0) e6
        ∙ ap (λ r. (cache_parsed later p raw r s7).0) (parse-dumps raw refl)

    looked_up-value :
        (cached : Option Text) (s : Vault)
        → Holds p plain raw s
        → ((u : Text) → cached ≡ some u → u ≡ raw)
        → let (found, s') = looked_up json id p cached s in
          (resume json false later id w found s').0 ≡ ok value
    looked_up-value (some u) s holds only =
        ap (λ r. (resume json false later id w (result_map some r) s).0)
          (parse-dumps u (only u refl))
    looked_up-value none s holds only =
        finish-value (record s { reads = Dict.put id (asked p) s.reads })
          (holds.0, holds.1, put-AllSettled p plain raw id (asked p) s.reads plain holds.2)
          (get-put id id (asked p) s.reads ∙ rw (beq_refl id) refl)

    -- After `put_secret` has written a secret, a `get_secret` of it that starts then or later returns
    -- that value, cached or not, whatever secrets other tasks read and other orgs write, and
    -- whatever is dropped from the cache, during the write, after it, and while this read waits. When
    -- the write returns, no read of the secret that Secrets Manager answered with another value may
    -- still be on its way to the cache, and Secrets Manager answers this read. The ids of orgs and
    -- the names of services hold no "/" and no ":", and `json` reads the value that it wrote.
    pub get_secret-put_secret :
        (now : ℕ) (between steps : List Step) (s : Vault)
        → All (Spares p) between
        → All (Spares p) steps
        → let s' = (put_secret json false p value between s).1 in
          AllSettled p plain (json.dumps value) s'.reads
          → (get_secret json false now later id p w (run steps s')).0 ≡ ok value
    unfolding get_secret put_secret start step Cache.get Cache.delete
    get_secret-put_secret now between steps s during spares settled =
        let s0 = step (storing p raw) s in
        let s1 = run between s0 in
        let written : Dict.get (secret_name p) s1.secrets ≡ some raw =
          run-secrets p plain between s0 during
          ∙ get-put (secret_name p) (secret_name p) raw s.secrets
          ∙ rw (beq_refl (secret_name p)) refl in
        let gone : Dict.get (cache_key p) (Dict.remove (cache_key p) s1.cache) ≡ none =
          get-remove (cache_key p) (cache_key p) s1.cache ∙ rw (beq_refl (cache_key p)) refl in
        let s2 = run steps (step (invalidating p) s1) in
        let holds =
          run-Holds p plain raw steps (step (invalidating p) s1) spares
            (written, (λ e u h. absurd (let both = sym gone ∙ h in cc)), settled) in
        let entry = Dict.get (cache_key p) s2.cache in
        let read = Cache.read now (cache_key p) entry s2.cache in
        looked_up-value read.0 (record s2 { cache = read.1 })
          (holds.0, get-CachesOnly p plain raw now (cache_key p) s2.cache entry holds.1, holds.2)
          (read-only now (cache_key p) raw entry s2.cache holds.1)
