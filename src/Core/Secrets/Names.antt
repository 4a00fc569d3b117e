-- ===== src/Core/Secrets/Names.antt =====
-- The names of secrets and their keys in the cache of app/core/secrets.py.
use a2z_core.Prelude.{ℕ, ◌≡◌, refl, sym, ◌∙◌, ap, [], ◌∷◌, ◌++◌}
use a2z_core.Prelude.Text.{Text, Lacks, text_eq}
use a2z_core.Core.Secrets.{Place, slash, colon, joined, secret_name, cache_key}

-- A separator that neither name holds splits a text in one way.
split_name :
    (sep : ℕ) (a b s t : Text)
    → Lacks sep a
    → Lacks sep b
    → a ++ (sep ∷ s) ≡ b ++ (sep ∷ t)
    → (a ≡ b) × (s ≡ t)
split_name sep [] [] s t la lb e = (refl, cc)
split_name sep [] (y ∷ b) s t la lb e = absurd (lb.0 (sym cc))
split_name sep (x ∷ a) [] s t la lb e = absurd (la.0 cc)
split_name sep (x ∷ a) (y ∷ b) s t la lb e =
    let tail : a ++ (sep ∷ s) ≡ b ++ (sep ∷ t) = cc in
    let same : x ≡ y = cc in
    let (e', rest) = split_name sep a b s t la.1 lb.1 tail in
    (ap (λ (z : ℕ). z ∷ a) same ∙ ap (λ (z : Text). y ∷ z) e', rest)

-- The parts of a place hold no separator, but for the key.
abbrev pub IsPlain : Place → Type 0
IsPlain p =
    (Lacks slash p.org_id × Lacks colon p.org_id)
    × (Lacks slash p.service_type × Lacks colon p.service_type)

pub cache_key-name :
    (p q : Place)
    → IsPlain p
    → IsPlain q
    → cache_key q ≡ cache_key p
    → secret_name q ≡ secret_name p
cache_key-name p q lp lq e =
    let tail : joined colon q ≡ joined colon p = cc in
    let (org, rest) =
      split_name colon q.org_id p.org_id (q.service_type ++ (colon ∷ q.key))
        (p.service_type ++ (colon ∷ p.key)) lq.0.1 lp.0.1 tail in
    let (service, key) =
      split_name colon q.service_type p.service_type q.key p.key lq.1.1 lp.1.1 rest in
    cc

pub secret_name-org :
    (p q : Place) → IsPlain p → IsPlain q → secret_name q ≡ secret_name p → q.org_id ≡ p.org_id
secret_name-org p q lp lq e =
    let tail : joined slash q ≡ joined slash p = cc in
    (split_name slash q.org_id p.org_id (q.service_type ++ (slash ∷ q.key))
      (p.service_type ++ (slash ∷ p.key)) lq.0.0 lp.0.0 tail).0
