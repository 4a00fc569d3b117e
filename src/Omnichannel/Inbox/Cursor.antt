-- ===== src/Omnichannel/Inbox/Cursor.antt =====
-- The cursors of app/services/omnichannel/inbox.py: `_encode_cursor` and `_decode_cursor`.
use a2z_core.Prelude.{
  ℕ, zero, suc, ◌-◌, ◌%◌, ◌≡◌, refl, ap, sym, ◌∙◌, ◌==◌, Option, none, some, [], ◌∷◌, ◌++◌, length,
  if◌then◌else◌, arith,
}
use a2z_core.Prelude.Text.{Text, Lacks}
use a2z_core.Prelude.Run.{Result, ok, err}
use a2z_core.Omnichannel.Model.{Error}
use a2z_core.Omnichannel.Inbox.Order.{Key}

-- The modules `json` and `base64`: the JSON text of a time and an id, and base 64. `loads` gives none
-- where it raises, and no id where the second element is not a string.
pub record Codec : Type 0 where
  pub dumps : Key → Text
  pub loads : Text → Option (Option ℕ × Option ℕ)
  pub urlsafe_b64encode : Text → Text
  pub urlsafe_b64decode : Text → Option Text

-- "="
abbrev pub equals : ℕ
equals = 61

abbrev pub replicate : ℕ → Text
replicate zero = []
replicate (suc n) = equals ∷ replicate n

-- `s.rstrip("=")`
abbrev pub strip_cons : ℕ → Text → Text
strip_cons x [] = if x == equals then [] else x ∷ []
strip_cons x (y ∷ ys) = x ∷ y ∷ ys

unfoldable pub rstrip : Text → Text
rstrip [] = []
rstrip (x ∷ xs) = strip_cons x (rstrip xs)

-- `"=" * (-len(cursor) % 4)`
abbrev pub padding : Text → Text
padding cursor = replicate ((4 - length cursor % 4) % 4)

unfoldable pub encode_cursor : Codec → Key → Text
encode_cursor codec key = rstrip (codec.urlsafe_b64encode (codec.dumps key))

abbrev pub decode_key : Option (Option ℕ × Option ℕ) → Result Error Key
decode_key none = err Error.invalid_query
decode_key (some (ts, none)) = err Error.invalid_query
decode_key (some (ts, some id)) = ok (ts, id)

abbrev pub decode_raw : Codec → Option Text → Result Error Key
decode_raw codec none = err Error.invalid_query
decode_raw codec (some raw) = decode_key (codec.loads raw)

unfoldable pub decode_cursor : Codec → Text → Result Error Key
decode_cursor codec cursor = decode_raw codec (codec.urlsafe_b64decode (cursor ++ padding cursor))

-- What `json` and `base64` promise: they give back what they were given, and base 64 is padded with
-- "=" to a length that 4 divides.
pub record IsCodec (codec : Codec) : Type 0 where
  pub loads-dumps : (key : Key) → codec.loads (codec.dumps key) ≡ some (key.0, some key.1)
  pub decode-encode :
      (raw : Text) → codec.urlsafe_b64decode (codec.urlsafe_b64encode raw) ≡ some raw
  pub encode-padding :
      (raw : Text)
      → (body : Text) × (codec.urlsafe_b64encode raw ≡ body ++ padding body) × Lacks equals body

rstrip-replicate : (n : ℕ) → rstrip (replicate n) ≡ []
unfolding rstrip
rstrip-replicate zero = refl
rstrip-replicate (suc n) = rw (rstrip-replicate n) refl

pub rstrip-append : (n : ℕ) (body : Text) → Lacks equals body → rstrip (body ++ replicate n) ≡ body
unfolding rstrip
rstrip-append n [] lacks = rstrip-replicate n
rstrip-append n (x ∷ []) lacks = rw (rstrip-replicate n) (ground (arith, lacks.0))
rstrip-append n (x ∷ y ∷ body) lacks = rw (rstrip-append n (y ∷ body) lacks.1) refl

-- What `_encode_cursor` makes of a key, `_decode_cursor` reads as that key, given that `json` and
-- `base64` give back what they were given and base 64 is padded with "=" to a multiple of 4.
pub decode_cursor-encode_cursor :
    (codec : Codec) (key : Key)
    → IsCodec codec
    → decode_cursor codec (encode_cursor codec key) ≡ ok key
unfolding decode_cursor encode_cursor
decode_cursor-encode_cursor codec key laws =
    let (body, padded, lacks) = laws.encode-padding (codec.dumps key) in
    let stripped : rstrip (codec.urlsafe_b64encode (codec.dumps key)) ≡ body =
      ap rstrip padded ∙ rstrip-append ((4 - length body % 4) % 4) body lacks in
    rw (stripped, sym padded, laws.decode-encode (codec.dumps key), laws.loads-dumps key) refl
