-- ===== src/Omnichannel/Media/Validity.antt =====
-- The URLs that app/services/omnichannel/media.py hands out.
use a2z_core.Prelude.{
  ℕ, ◌+◌, ◌≡◌, ◌≤◌, refl, sym, ◌∙◌, ap, subst, inl, inr, Bool, true, false, not, leb, Option, none,
  some, List, [], ◌∷◌, Bool-cases, arith,
}
use a2z_core.Prelude.Text.{Text, text_eq, text_beq, text_beq_iff}
use a2z_core.Prelude.Dict
use a2z_core.Prelude.Dict.{Dict, get-put, get-remove}
use a2z_core.Prelude.Run.{Result, ok, err, ◌>>=◌, raise_if}
use a2z_core.Core.Cache
use a2z_core.Core.Cache.{TtlCache}
use a2z_core.Core.Storage.{Error, in_scope}
use a2z_core.Omnichannel.Media.{
  Presign, sign_expiry_seconds, cache_ttl_seconds, cache_key, or_sign, cached_url,
  signed_url_for_attachment,
}

cache_key-injective : (a b : Text) → text_beq (cache_key a) (cache_key b) ≡ true → a ≡ b
cache_key-injective a b h = let e = (text_beq_iff (cache_key a) (cache_key b)).0 h in cc

-- One call, with its instant, org and key.
abbrev pub UrlRequest : Type 0
UrlRequest = ℕ × Text × Text

unfoldable pub run : Presign → List UrlRequest → TtlCache Text Text → TtlCache Text Text
run presign [] c = c
run presign ((now, org_id, s3_key) ∷ requests) c =
    run presign requests (signed_url_for_attachment presign now org_id s3_key c).1

module _ (presign : Presign) (valid_until : Text → ℕ) (signed_for : Text → Text) where
  module _ (until : (s3_key : Text) (now d : ℕ) → valid_until (presign s3_key now d) ≡ now + d)
      (names : (s3_key : Text) (now d : ℕ) → signed_for (presign s3_key now d) ≡ s3_key) where
    -- A cached URL is for the object of its entry, and outlives the entry by an hour.
    abbrev pub IsSafe : TtlCache Text Text → Type 0
    IsSafe c =
        (s3_key : Text) (expires_at : ℕ) (url : Text)
        → Dict.get (cache_key s3_key) c ≡ some (expires_at, url)
        → (expires_at + 3600 ≤ valid_until url) × (signed_for url ≡ s3_key)

    set-IsSafe :
        (now : ℕ) (s3_key : Text) (c : TtlCache Text Text)
        → IsSafe c
        → IsSafe (
            Cache.set now
              (cache_key s3_key)
              (presign s3_key now sign_expiry_seconds)
              cache_ttl_seconds
              c)
    unfolding Cache.set
    set-IsSafe now s3_key c safe k expires_at url h =
        let signed = presign s3_key now sign_expiry_seconds in
        let found = get-put (cache_key s3_key) (cache_key k) (now + cache_ttl_seconds, signed) c in
        elim (Bool-cases (text_beq (cache_key s3_key) (cache_key k))) [
          | inr differs ↦
              let r : Dict.get (cache_key k)
                    (Dict.put (cache_key s3_key) (now + cache_ttl_seconds, signed) c)
                  ≡ Dict.get (cache_key k) c =
                found ∙ rw differs refl in
              safe k expires_at url (sym r ∙ h)
          | inl same ↦
              let r : Dict.get (cache_key k)
                    (Dict.put (cache_key s3_key) (now + cache_ttl_seconds, signed) c)
                  ≡ some (now + cache_ttl_seconds, signed) =
                found ∙ rw same refl in
              let both = sym r ∙ h in
              let at : now + cache_ttl_seconds ≡ expires_at = cc in
              let is_url : signed ≡ url = cc in
              let lasts = until s3_key now sign_expiry_seconds in
              let lasts' = ap valid_until is_url in
              (
                omega (arith, at, lasts, lasts'),
                ap signed_for (sym is_url)
                    ∙ names s3_key now sign_expiry_seconds
                    ∙ cache_key-injective s3_key k same,
              )
        ]

    Good : ℕ → Text → Result Error Text × TtlCache Text Text → Type 0
    Good now s3_key (err e, c') = IsSafe c'
    Good now s3_key (ok url, c') =
        IsSafe c' × (now + 3600 ≤ valid_until url) × (signed_for url ≡ s3_key)

    remove-IsSafe :
        (s3_key : Text) (c : TtlCache Text Text)
        → IsSafe c
        → IsSafe (Dict.remove (cache_key s3_key) c)
    remove-IsSafe s3_key c safe k expires_at url h =
        let found = get-remove (cache_key s3_key) (cache_key k) c in
        elim (Bool-cases (text_beq (cache_key s3_key) (cache_key k))) [
          | inl same ↦
              let r : Dict.get (cache_key k) (Dict.remove (cache_key s3_key) c) ≡ none =
                found ∙ rw same refl in
              absurd (let both = sym r ∙ h in cc)
          | inr differs ↦
              let r : Dict.get (cache_key k) (Dict.remove (cache_key s3_key) c)
                  ≡ Dict.get (cache_key k) c =
                found ∙ rw differs refl in
              safe k expires_at url (sym r ∙ h)
        ]

    signed-Good :
        (now : ℕ) (s3_key : Text) (c : TtlCache Text Text)
        → IsSafe c
        → Good now s3_key (or_sign presign now s3_key none c)
    unfolding Good
    signed-Good now s3_key c safe = (
      set-IsSafe now s3_key c safe,
      omega (arith, until s3_key now sign_expiry_seconds),
      names s3_key now sign_expiry_seconds,
    )

    read-Good :
        (now : ℕ) (s3_key : Text) (c : TtlCache Text Text) (entry : Option (ℕ × Text))
        → IsSafe c
        → Dict.get (cache_key s3_key) c ≡ entry
        → Good now s3_key (
            or_sign presign now s3_key
              (Cache.read now (cache_key s3_key) entry c).0
              (Cache.read now (cache_key s3_key) entry c).1)
    unfolding Good Cache.read
    read-Good now s3_key c none safe e = signed-Good now s3_key c safe
    read-Good now s3_key c (some (expires_at, url)) safe e =
        let holds = safe s3_key expires_at url e in
        elim (Bool-cases (leb expires_at now)) [
          | inl expired ↦
              let r : Cache.read now (cache_key s3_key) (some (expires_at, url)) c
                  ≡ (none, Dict.remove (cache_key s3_key) c) =
                rw expired refl in
              subst (λ z. Good now s3_key (or_sign presign now s3_key z.0 z.1)) (sym r)
                (signed-Good now s3_key (Dict.remove (cache_key s3_key) c)
                  (remove-IsSafe s3_key c safe))
          | inr alive ↦
              let r : Cache.read now (cache_key s3_key) (some (expires_at, url)) c ≡ (some url, c) =
                rw alive refl in
              let later : now ≤ expires_at = ground (arith, alive) in
              subst (λ z. Good now s3_key (or_sign presign now s3_key z.0 z.1)) (sym r)
                (safe, omega (arith, later, holds.0), holds.1)
        ]

    signed_url-Good :
        (now : ℕ) (org_id s3_key : Text) (c : TtlCache Text Text)
        → IsSafe c
        → Good now s3_key (signed_url_for_attachment presign now org_id s3_key c)
    unfolding Good signed_url_for_attachment Cache.get
    signed_url-Good now org_id s3_key c safe = go (in_scope org_id s3_key)
      where
        go :
            (own : Bool)
            → Good now s3_key
                ((raise_if (not own) Error.storage_error >>= λ _. cached_url presign now s3_key) c)
        go true = read-Good now s3_key c (Dict.get (cache_key s3_key) c) safe refl
        go false = safe

    Good-state :
        (now : ℕ) (s3_key : Text) (z : Result Error Text × TtlCache Text Text)
        → Good now s3_key z
        → IsSafe z.1
    unfolding Good
    Good-state now s3_key (err e, c') good = good
    Good-state now s3_key (ok url, c') good = good.0

    run-IsSafe :
        (requests : List UrlRequest) (c : TtlCache Text Text)
        → IsSafe c
        → IsSafe (run presign requests c)
    unfolding run Good
    run-IsSafe [] c safe = safe
    run-IsSafe ((now, org_id, s3_key) ∷ requests) c safe =
        run-IsSafe requests (signed_url_for_attachment presign now org_id s3_key c).1 (
          Good-state now s3_key (signed_url_for_attachment presign now org_id s3_key c)
            (signed_url-Good now org_id s3_key c safe))

    -- Whatever URLs were asked for before, one that `signed_url_for_attachment` returns is signed for
    -- the object that was asked for, and stays valid for at least an hour. S3's signature names its
    -- object and is valid for the seconds it was asked for, on the clock of the cache.
    pub signed_url-valid :
        (requests : List UrlRequest) (now : ℕ) (org_id s3_key url : Text) (c : TtlCache Text Text)
        → signed_url_for_attachment presign now org_id s3_key (run presign requests [])
          ≡ (ok url, c)
        → (now + 3600 ≤ valid_until url) × (signed_for url ≡ s3_key)
    unfolding Good Dict.get
    signed_url-valid requests now org_id s3_key url c returned =
        let good = subst (Good now s3_key) returned (
          signed_url-Good now org_id s3_key (run presign requests [])
            (run-IsSafe requests [] (λ k expires_at u h. absurd (empty k expires_at u h)))) in
        (good.1, good.2)
      where
        empty :
            (k : Text) (expires_at : ℕ) (u : Text)
            → ¬ (◌≡◌ {A = Option (ℕ × Text)} (Dict.get (cache_key k) []) (some (expires_at, u)))
        empty k expires_at u h = cc
