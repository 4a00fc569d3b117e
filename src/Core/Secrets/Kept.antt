-- ===== src/Core/Secrets/Kept.antt =====
-- What stays true of a secret that was written (app/core/secrets.py) while others read and write theirs.
use a2z_core.Prelude.{
  ℕ, ◌+◌, ◌≡◌, ◌≢◌, refl, sym, ◌∙◌, ap, subst, inl, inr, leb, ◌==◌, Option, none, some, List, [],
  ◌∷◌, All, Bool-cases,
}
use a2z_core.Prelude.Text.{Text, text_eq, text_beq, text_beq_iff}
use a2z_core.Prelude.Dict
use a2z_core.Prelude.Dict.{Dict, nat_eq, get-put, get-remove, beq_refl}
use a2z_core.Prelude.Run.{Result, ok, err}
use a2z_core.Core.Cache
use a2z_core.Core.Cache.{TtlCache}
use a2z_core.Core.Secrets.Names.{IsPlain, cache_key-name, secret_name-org}
use a2z_core.Core.Secrets.{
  Error, Vault, Json, Place, Read, asked, answered, Step, starting, answering, finishing, storing,
  invalidating, secret_name, cache_key, cache_ttl_seconds, parse, cache_parsed, looked_up, start,
  answer_read, answer, finish_read, finish, step, run,
}

-- Reads are by anyone, writes by other orgs, and anyone drops what is cached.
abbrev pub Spares : Place → Step → Type 0
Spares p (starting json now id q) = IsPlain q
Spares p (answering id) = Unit
Spares p (finishing json now id) = Unit
Spares p (storing q raw) = IsPlain q × (q.org_id ≢ p.org_id)
Spares p (invalidating q) = Unit

module _ (p : Place) (plain : IsPlain p) (raw : Text) where
  -- Whatever is cached for the place is the text.
  abbrev pub CachesOnly : TtlCache Text Text → Type 0
  CachesOnly c = (e : ℕ) (u : Text) → Dict.get (cache_key p) c ≡ some (e, u) → u ≡ raw

  -- A call in flight of the place that has its answer was answered with the text.
  abbrev pub IsSettled : Read → Type 0
  IsSettled (asked q) = IsPlain q
  IsSettled (answered q found) = cache_key q ≡ cache_key p → found ≡ some raw

  abbrev pub AllSettled : Dict ℕ Read → Type 0
  AllSettled reads = (id : ℕ) (r : Read) → Dict.get id reads ≡ some r → IsSettled r

  abbrev pub Holds : Vault → Type 0
  Holds s =
      (Dict.get (secret_name p) s.secrets ≡ some raw) × CachesOnly s.cache × AllSettled s.reads

  pub put-AllSettled :
      (i : ℕ) (r : Read) (reads : Dict ℕ Read)
      → IsSettled r
      → AllSettled reads
      → AllSettled (Dict.put i r reads)
  put-AllSettled i r reads settled all id r' h =
      let found = get-put i id r reads in
      elim (Bool-cases (i == id)) [
        | inl same ↦
            let e : some r ≡ some r' = sym (found ∙ rw same refl) ∙ h in
            let equal : r ≡ r' = cc in subst IsSettled equal settled
        | inr differs ↦
            let e : Dict.get id (Dict.put i r reads) ≡ Dict.get id reads =
              found ∙ rw differs refl in
            all id r' (sym e ∙ h)
      ]

  remove-AllSettled :
      (i : ℕ) (reads : Dict ℕ Read) → AllSettled reads → AllSettled (Dict.remove i reads)
  remove-AllSettled i reads all id r h =
      let found = get-remove i id reads in
      elim (Bool-cases (i == id)) [
        | inl same ↦
            let e : Dict.get id (Dict.remove i reads) ≡ none = found ∙ rw same refl in
            absurd (let both = sym e ∙ h in cc)
        | inr differs ↦
            let e : Dict.get id (Dict.remove i reads) ≡ Dict.get id reads =
              found ∙ rw differs refl in
            all id r (sym e ∙ h)
      ]

  remove-CachesOnly :
      (k : Text) (c : TtlCache Text Text) → CachesOnly c → CachesOnly (Dict.remove k c)
  remove-CachesOnly k c only e u h =
      let found = get-remove k (cache_key p) c in
      elim (Bool-cases (text_beq k (cache_key p))) [
        | inl same ↦
            let r : Dict.get (cache_key p) (Dict.remove k c) ≡ none = found ∙ rw same refl in
            absurd (let both = sym r ∙ h in cc)
        | inr differs ↦
            let r : Dict.get (cache_key p) (Dict.remove k c) ≡ Dict.get (cache_key p) c =
              found ∙ rw differs refl in
            only e u (sym r ∙ h)
      ]

  put-CachesOnly :
      (k : Text) (t : ℕ) (u' : Text) (c : TtlCache Text Text)
      → (k ≡ cache_key p → u' ≡ raw)
      → CachesOnly c
      → CachesOnly (Dict.put k (t, u') c)
  put-CachesOnly k t u' c is_raw only e u h =
      let found = get-put k (cache_key p) (t, u') c in
      elim (Bool-cases (text_beq k (cache_key p))) [
        | inl same ↦
            let r : Dict.get (cache_key p) (Dict.put k (t, u') c) ≡ some (t, u') =
              found ∙ rw same refl in
            let both = sym r ∙ h in
            let equal : u' ≡ u = cc in sym equal ∙ is_raw ((text_beq_iff k (cache_key p)).0 same)
        | inr differs ↦
            let r : Dict.get (cache_key p) (Dict.put k (t, u') c) ≡ Dict.get (cache_key p) c =
              found ∙ rw differs refl in
            only e u (sym r ∙ h)
      ]

  pub get-CachesOnly :
      (now : ℕ) (k : Text) (c : TtlCache Text Text) (entry : Option (ℕ × Text))
      → CachesOnly c
      → CachesOnly (Cache.read now k entry c).1
  unfolding Cache.read
  get-CachesOnly now k c none only = only
  get-CachesOnly now k c (some (expires_at, u)) only = elim (Bool-cases (leb expires_at now)) [
    | inl expired ↦ rw expired (remove-CachesOnly k c only)
    | inr alive ↦ rw alive only
  ]

  cache_parsed-Holds :
      (now : ℕ) (q : Place) (raw' : Text) (parsed : Result Error (Dict Text Text)) (s : Vault)
      → (cache_key q ≡ cache_key p → raw' ≡ raw)
      → Holds s
      → Holds (cache_parsed now q raw' parsed s).1
  unfolding Cache.set
  cache_parsed-Holds now q raw' (err e) s is_raw holds = holds
  cache_parsed-Holds now q raw' (ok value) s is_raw holds = (
    holds.0,
    put-CachesOnly (cache_key q) (now + cache_ttl_seconds) raw' s.cache is_raw holds.1,
    holds.2,
  )

  start-Holds :
      (json : Json) (now id : ℕ) (q : Place) (s : Vault)
      → IsPlain q
      → Holds s
      → Holds (start json now id q s).1
  unfolding start Cache.get
  start-Holds json now id q s lq holds =
      let entry = Dict.get (cache_key q) s.cache in
      let read = Cache.read now (cache_key q) entry s.cache in
      go read.0 (record s { cache = read.1 })
        (holds.0, get-CachesOnly now (cache_key q) s.cache entry holds.1, holds.2)
    where
      go : (cached : Option Text) (s' : Vault) → Holds s' → Holds (looked_up json id q cached s').1
      go (some u) s' h = h
      go none s' h = (h.0, h.1, put-AllSettled id (asked q) s'.reads lq h.2)

  pub answer-Holds : (id : ℕ) (s : Vault) → Holds s → Holds (answer id s)
  unfolding answer
  answer-Holds id s holds = go (Dict.get id s.reads) refl
    where
      go : (r : Option Read) → Dict.get id s.reads ≡ r → Holds (answer_read id r s)
      go none e = holds
      go (some (answered q found)) e = holds
      go (some (asked q)) e =
          let name = cache_key-name p q plain (holds.2 id (asked q) e) in
          (
            holds.0,
            holds.1,
            put-AllSettled id (answered q (Dict.get (secret_name q) s.secrets)) s.reads
                (λ same. ap (λ n. Dict.get n s.secrets) (name same) ∙ holds.0) holds.2,
          )

  finish-Holds : (json : Json) (now id : ℕ) (s : Vault) → Holds s → Holds (finish json now id s).1
  unfolding finish
  finish-Holds json now id s holds = go (Dict.get id s.reads) refl
    where
      s' : Vault
      s' = record s { reads = Dict.remove id s.reads }

      holds' : Holds s'
      holds' = (holds.0, holds.1, remove-AllSettled id s.reads holds.2)

      go : (r : Option Read) → Dict.get id s.reads ≡ r → Holds (finish_read json now r s').1
      go none e = holds'
      go (some (asked q)) e = holds'
      go (some (answered q none)) e = holds'
      go (some (answered q (some raw'))) e =
          let settled : cache_key q ≡ cache_key p → some raw' ≡ some raw =
            holds.2 id (answered q (some raw')) e in
          cache_parsed-Holds now q raw' (parse json raw') s'
            (λ same. let equal = settled same in cc) holds'

  pub storing-keeps :
      (q : Place) (raw' : Text) (s : Vault)
      → IsPlain q
      → q.org_id ≢ p.org_id
      → Dict.get (secret_name p) (Dict.put (secret_name q) raw' s.secrets)
        ≡ Dict.get (secret_name p) s.secrets
  storing-keeps q raw' s lq other =
      let found = get-put (secret_name q) (secret_name p) raw' s.secrets in
      elim (Bool-cases (text_beq (secret_name q) (secret_name p))) [
        | inr differs ↦ found ∙ rw differs refl
        | inl same ↦ absurd (
            other (
              secret_name-org p q plain lq ((text_beq_iff (secret_name q) (secret_name p)).0 same)))
      ]

  step-Holds : (x : Step) (s : Vault) → Spares p x → Holds s → Holds (step x s)
  unfolding step Cache.delete
  step-Holds (starting json now id q) s lq holds = start-Holds json now id q s lq holds
  step-Holds (answering id) s spares holds = answer-Holds id s holds
  step-Holds (finishing json now id) s spares holds = finish-Holds json now id s holds
  step-Holds (storing q raw') s (lq, other) holds =
      (storing-keeps q raw' s lq other ∙ holds.0, holds.1, holds.2)
  step-Holds (invalidating q) s spares holds =
      (holds.0, remove-CachesOnly (cache_key q) s.cache holds.1, holds.2)

  pub run-Holds :
      (steps : List Step) (s : Vault) → All (Spares p) steps → Holds s → Holds (run steps s)
  unfolding run
  run-Holds [] s spares holds = holds
  run-Holds (x ∷ steps) s spares holds =
      run-Holds steps (step x s) spares.1 (step-Holds x s spares.0 holds)
