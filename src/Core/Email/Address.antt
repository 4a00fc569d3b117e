-- ===== src/Core/Email/Address.antt =====
-- The addresses that `_ADDRESS_RE` of app/core/email.py matches, with `re`'s white space as a
-- parameter.
use a2z_core.Prelude.{ℕ, Bool, true, false, ◌==◌, ◌&&◌, ◌||◌, not, [], ◌∷◌, if◌then◌else◌}
use a2z_core.Prelude.Text.{Text}

-- "@", "." and the line feed
abbrev pub at_sign : ℕ
at_sign = 64

abbrev pub dot : ℕ
dot = 46

abbrev pub line_feed : ℕ
line_feed = 10

-- `[^@\s]`
abbrev pub is_plain : (ℕ → Bool) → ℕ → Bool
is_plain is_space c = not (c == at_sign) && not (is_space c)

-- `$` matches at the end, and before a line feed that ends the text.
abbrev pub at_end : Text → Bool
at_end [] = true
at_end (c ∷ []) = c == line_feed
at_end (c ∷ d ∷ s) = false

-- `[^@\s]*$`
unfoldable pub plain_rest : (ℕ → Bool) → Text → Bool
plain_rest is_space [] = true
plain_rest is_space (c ∷ s) =
    let rest = plain_rest is_space s in at_end (c ∷ s) || is_plain is_space c && rest

-- `[^@\s]+$`
abbrev pub plain_end : (ℕ → Bool) → Text → Bool
plain_end is_space [] = false
plain_end is_space (c ∷ s) = is_plain is_space c && plain_rest is_space s

-- `[^@\s]*\.[^@\s]+$`
unfoldable pub domain_rest : (ℕ → Bool) → Text → Bool
domain_rest is_space [] = false
domain_rest is_space (c ∷ s) =
    let rest = domain_rest is_space s in
    c == dot && plain_end is_space s || is_plain is_space c && rest

-- `[^@\s]+\.[^@\s]+$`
abbrev pub domain : (ℕ → Bool) → Text → Bool
domain is_space [] = false
domain is_space (c ∷ s) = is_plain is_space c && domain_rest is_space s

-- `[^@\s]*@` and the domain
unfoldable pub local_rest : (ℕ → Bool) → Text → Bool
local_rest is_space [] = false
local_rest is_space (c ∷ s) =
    let rest = local_rest is_space s in
    if c == at_sign then domain is_space s else is_plain is_space c && rest

-- `_ADDRESS_RE`
unfoldable pub is_address : (ℕ → Bool) → Text → Bool
is_address is_space [] = false
is_address is_space (c ∷ s) = is_plain is_space c && local_rest is_space s
