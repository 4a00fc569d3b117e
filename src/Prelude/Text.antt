-- ===== src/Prelude/Text.antt =====
-- Text as a list of code points, for the modules that build and take apart keys and addresses.
use Prim.Native.Nat.{ℕ}
use Prim.Native.Char.{code}
use Prim.Native.String.{String}
use mathlib.Core.Path.{◌≡◌, refl}
use mathlib.Core.Logic.{◌≢◌, ◌↔◌}
use mathlib.Core.Bool.{Bool, true, false, ◌&&◌}
use mathlib.Core.List.{List, [], ◌∷◌, ◌++◌}
use native.Mathlib.Omega.{arith}
use a2z_core.Prelude.Tests.{◌==◌}
use a2z_core.Prelude.Lists.{All}
use a2z_core.Prelude.Dict.{Eq}

abbrev pub Text : Type 0
Text = List ℕ

abbrev pub codes : String → Text
codes String.[] = []
codes (String.◌∷◌ c s) = code c ∷ codes s

unfoldable pub text_beq : Text → Text → Bool
text_beq [] [] = true
text_beq [] (y ∷ ys) = false
text_beq (x ∷ xs) [] = false
text_beq (x ∷ xs) (y ∷ ys) = x == y && text_beq xs ys

pub text_beq_iff : (s t : Text) → (text_beq s t ≡ true) ↔ (s ≡ t)
unfolding text_beq
text_beq_iff [] [] = (λ h. refl, λ h. refl)
text_beq_iff [] (y ∷ ys) = (λ h. cc, λ h. cc)
text_beq_iff (x ∷ xs) [] = (λ h. cc, λ h. cc)
text_beq_iff (x ∷ xs) (y ∷ ys) =
    (λ h. ground (arith, text_beq_iff xs ys), λ h. ground (arith, text_beq_iff xs ys))

instance abbrev pub text_eq : Eq Text
text_eq = record { beq = text_beq; beq_iff = text_beq_iff }

-- The key of an org's resource.
abbrev pub scoped_beq : ℕ × Text → ℕ × Text → Bool
scoped_beq a b = a.0 == b.0 && text_beq a.1 b.1

pub scoped_beq_iff : (a b : ℕ × Text) → (scoped_beq a b ≡ true) ↔ (a ≡ b)
scoped_beq_iff (a, s) (b, t) = ground (arith, text_beq_iff s t)

instance abbrev pub scoped_eq : Eq (ℕ × Text)
scoped_eq = record { beq = scoped_beq; beq_iff = scoped_beq_iff }

-- A key of two texts.
abbrev pub texts_beq : Text × Text → Text × Text → Bool
texts_beq a b = text_beq a.0 b.0 && text_beq a.1 b.1

pub texts_beq_iff : (a b : Text × Text) → (texts_beq a b ≡ true) ↔ (a ≡ b)
texts_beq_iff (s, t) (s', t') = ground (arith, text_beq_iff s s', text_beq_iff t t')

instance abbrev pub texts_eq : Eq (Text × Text)
texts_eq = record { beq = texts_beq; beq_iff = texts_beq_iff }

-- `s.startswith(prefix)`, the prefix first.
unfoldable pub starts_with : Text → Text → Bool
starts_with [] s = true
starts_with (p ∷ ps) [] = false
starts_with (p ∷ ps) (c ∷ s) = p == c && starts_with ps s

pub starts_with-append : (p s : Text) → starts_with p (p ++ s) ≡ true
unfolding starts_with
starts_with-append [] s = refl
starts_with-append (c ∷ p) s = ground (arith, starts_with-append p s)

-- The text holds no occurrence of the code point.
abbrev pub Lacks : ℕ → Text → Type 0
Lacks c = All (λ x. x ≢ c)

-- A prefix that ends in a separator which neither name holds fixes the name.
pub starts_with_name :
    (sep : ℕ) (a b s : Text)
    → Lacks sep a
    → Lacks sep b
    → starts_with (a ++ sep ∷ []) (b ++ sep ∷ s) ≡ true
    → a ≡ b
unfolding starts_with
starts_with_name sep [] [] s la lb h = refl
starts_with_name sep [] (y ∷ b) s la lb h = ground (arith, lb.0)
starts_with_name sep (x ∷ a) [] s la lb h = ground (arith, la.0)
starts_with_name sep (x ∷ a) (y ∷ b) s la lb h =
    ground (arith, starts_with_name sep a b s la.1 lb.1)

pub ruleset text_laws = (starts_with-append, text_beq_iff)
