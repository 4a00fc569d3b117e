-- ===== src/Tests/Secrets.antt =====
-- The theorem on secrets at a concrete input.
use a2z_core.Prelude.{ℕ, ◌≡◌, ◌≢◌, ap, refl, false, some, List, [], ◌∷◌, arith}
use a2z_core.Prelude.Text.{Text, codes}
use a2z_core.Prelude.Dict
use a2z_core.Prelude.Dict.{Dict, nat_eq}
use a2z_core.Prelude.Run.{ok}
use a2z_core.Core.Secrets.{
  Json, Place, Vault, Read, Step, starting, answering, finishing, storing, invalidating, Waiting,
  run, step, get_secret, put_secret,
}
use a2z_core.Core.Secrets.Names.{IsPlain}
use a2z_core.Core.Secrets.Kept.{IsSettled}
use a2z_core.Core.Secrets.Written.{get_secret-put_secret}

abbrev value : Dict Text Text
value = (codes "k", codes "v") ∷ []

-- A `json` that is right on this value.
abbrev json : Json
json = record { dumps = λ v. codes "v"; loads = λ s. some value }

abbrev place : Text → Place
place org_id = record { org_id = org_id; service_type = codes "s"; key = codes "8" }

plain : (c : ℕ) → c ≢ 47 → c ≢ 58 → IsPlain (place (c ∷ []))
plain c a b = (((a, tt), (b, tt)), (((λ e. omega (arith, e)), tt), ((λ e. omega (arith, e)), tt)))

first : Text → ℕ
first [] = 0
first (c ∷ s) = c

differ : codes "b" ≢ codes "a"
unfolding first
differ e = let e' = ap first e in omega (arith, e')

abbrev a : Place
a = place (codes "a")

abbrev b : Place
b = place (codes "b")

-- Another task reads the secret, and the other org writes one.
abbrev steps : List Step
steps =
    starting json 5 2 a
    ∷ answering 2
    ∷ storing b (codes "w")
    ∷ invalidating b
    ∷ finishing json 6 2
    ∷ []

-- While the read waits, the cache loses the secret again, and the other org reads.
abbrev waiting : Waiting
waiting = record { before = invalidating a ∷ []; after = starting json 400 3 b ∷ [] }

abbrev vault : Vault
vault = record { secrets = []; cache = []; reads = [] }

abbrev written : Vault
written = (put_secret json false a value [] vault).1

no_reads :
    (id : ℕ) (r : Read)
    → Dict.get id written.reads ≡ some r
    → IsSettled a (plain 97 (λ e. omega (arith, e)) (λ e. omega (arith, e))) (json.dumps value) r
unfolding put_secret run step Dict.get
no_reads id r h = absurd cc

get_secret-put_secret_example :
    (get_secret json false 500 501 1 a waiting
      (run steps (put_secret json false a value [] vault).1)).0
    ≡ ok value
get_secret-put_secret_example =
    let plain_a = plain 97 (λ e. omega (arith, e)) (λ e. omega (arith, e)) in
    let plain_b = plain 98 (λ e. omega (arith, e)) (λ e. omega (arith, e)) in
    get_secret-put_secret json a plain_a value refl 501 1 waiting (tt, tt) (tt, tt)
      ((λ e. omega (arith, e)), tt) 500 [] steps vault tt
      (plain_a, (tt, ((plain_b, differ), (tt, (tt, tt))))) no_reads
