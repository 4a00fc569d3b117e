-- ===== src/Omnichannel/Media.antt =====
-- app/services/omnichannel/media.py: signed URLs of attachments, cached in the cache of
-- app/core/cache.py. The ids of orgs are texts, as in the keys.
pub mod Validity
use a2z_core.Prelude.{
  ℕ, ◌*◌, Bool, true, false, not, Option, none, some, List, [], ◌∷◌, ◌++◌, if◌then◌else◌,
}
use a2z_core.Prelude.Text.{Text, codes, text_eq}
use a2z_core.Prelude.Run.{Result, Run, ok, err, ◌>>=◌, raise_if}
use a2z_core.Core.Cache
use a2z_core.Core.Cache.{TtlCache}
use a2z_core.Core.Storage.{Error, in_scope}

-- S3's signature of a key at an instant for a number of seconds.
abbrev pub Presign : Type 0
Presign = Text → ℕ → ℕ → Text

abbrev pub UrlCall : Type 0 → Type 0
UrlCall = Run (TtlCache Text Text) Error

abbrev pub sign_expiry_seconds : ℕ
sign_expiry_seconds = 2 * 3600

abbrev pub cache_ttl_seconds : ℕ
cache_ttl_seconds = 3600

-- `_cache_key`
abbrev pub cache_key : Text → Text
cache_key s3_key = codes "mediaurl:" ++ s3_key

-- What the cache has answered, and the cache after it.
abbrev pub or_sign : Presign → ℕ → Text → Option Text → UrlCall Text
or_sign presign now s3_key (some url) c = (ok url, c)
or_sign presign now s3_key none c =
    let url = presign s3_key now sign_expiry_seconds in
    (ok url, Cache.set now (cache_key s3_key) url cache_ttl_seconds c)

abbrev pub cached_url : Presign → ℕ → Text → UrlCall Text
cached_url presign now s3_key c =
    let (cached, c') = Cache.get now (cache_key s3_key) c in or_sign presign now s3_key cached c'

unfoldable pub signed_url_for_attachment : Presign → ℕ → Text → Text → UrlCall Text
signed_url_for_attachment presign now org_id s3_key =
    raise_if (not (in_scope org_id s3_key)) Error.storage_error >>= λ _.
    cached_url presign now s3_key
