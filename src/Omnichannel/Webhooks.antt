-- ===== src/Omnichannel/Webhooks.antt =====
-- app/services/omnichannel/webhooks.py with the signatures of adapters/_meta.py and adapters/email.py:
-- what of the calls from outside is verified and queued for the worker.
pub mod Verified
pub mod Disabled
use a2z_core.Prelude.{
  ℕ, Bool, true, false, ◌==◌, ◌&&◌, ◌||◌, not, Option, none, some, List, [], ◌∷◌, ◌++◌, find,
  if◌then◌else◌,
}
use a2z_core.Prelude.Text.{Text, codes, text_beq, text_eq, scoped_eq}
use a2z_core.Prelude.Dict
use a2z_core.Prelude.Dict.{Dict}
use a2z_core.Prelude.Run.{Result, Run, ok, err, ◌>>=◌, ◌>>◌, pure, raise, raise_if, get_state}
use a2z_core.Omnichannel.Model.{ChannelConnection, Error}
use a2z_core.Omnichannel.Connections.{
  Inbound, Hub, HubCall, Adapter, email, meta, get_adapter, get_secret, has_id, answer,
}

-- `hmac` with SHA-256 as hexadecimal digits (the key first), `str.lower`, `json.loads` (none where it
-- raises), and whether Secrets Manager and SQS fail in this call.
pub record Outside : Type 0 where
  pub hexdigest : Text → Text → Text
  pub lower : Text → Text
  pub loads : Text → Option Text
  pub secrets_fail : Bool
  pub queue_fails : Bool

pub record Webhook : Type 0 where
  pub channel_type : Text
  pub connection_id : ℕ
  pub raw_body : Text
  pub headers : Dict Text Text

-- `_load_connection` and `_resolve_connection`
unfoldable pub resolve : Text → Option ChannelConnection → Result Error ChannelConnection
resolve channel_type none = err Error.connection_not_found
resolve channel_type (some connection) =
    if connection.is_active && text_beq connection.channel_type channel_type
    then ok connection
    else err Error.connection_not_found

abbrev pub resolve_connection : Text → ℕ → HubCall ChannelConnection
resolve_connection channel_type connection_id s =
    (resolve channel_type (find (has_id connection_id) s.connections), s)

-- `_get_header`
unfoldable pub get_header : Outside → Text → Dict Text Text → Option Text
get_header outside name [] = none
get_header outside name ((key, value) ∷ headers) =
    if text_beq (outside.lower key) (outside.lower name)
    then some value
    else get_header outside name headers

-- `_compute_signature`
abbrev pub compute_signature : Outside → Text → Text → Text
compute_signature outside raw_body secret = codes "sha256=" ++ outside.hexdigest secret raw_body

abbrev pub matches_signature : Outside → Text → Text → Option Text → Bool
matches_signature outside raw_body secret none = false
matches_signature outside raw_body secret (some []) = false
matches_signature outside raw_body secret (some (c ∷ received)) =
    text_beq (c ∷ received) (compute_signature outside raw_body secret)

abbrev pub signature_header : Text
signature_header = codes "X-Hub-Signature-256"

-- `signing_secret_key`
abbrev pub signing_secret_key : Adapter → Text
signing_secret_key email = []
signing_secret_key meta = codes "app_secret"

-- `secret_bundle.get(key, "")`
abbrev pub get_or_empty : Option Text → Text
get_or_empty none = []
get_or_empty (some s) = s

abbrev pub signing_secret : Adapter → Dict Text Text → Text
signing_secret adapter bundle = get_or_empty (Dict.get (signing_secret_key adapter) bundle)

-- `verify_inbound_signature`
unfoldable pub verify_inbound_signature : Outside → Adapter → Webhook → Text → Bool
verify_inbound_signature outside email webhook secret = true
verify_inbound_signature outside meta webhook secret =
    matches_signature outside webhook.raw_body secret
      (get_header outside signature_header webhook.headers)

-- `enqueue_inbound`
abbrev pub enqueue_inbound : Outside → Inbound → HubCall (Unit {0})
enqueue_inbound outside item s =
    if outside.queue_fails
    then (err Error.queue_error, s)
    else (ok tt, record s { inbound = s.inbound ++ item ∷ [] })

-- `json.loads` of the body, and the queue.
unfoldable pub enqueue_payload :
    Outside → Webhook → ChannelConnection → Option Text → HubCall (Unit {0})
enqueue_payload outside webhook connection none = raise Error.json_error
enqueue_payload outside webhook connection (some raw_payload) = enqueue_inbound outside (record {
  org_id = connection.org_id;
  channel_type = webhook.channel_type;
  connection_id = connection.id;
  raw_payload = raw_payload;
})

-- `if not await adapter.verify_inbound_signature(...)`, and the rest.
unfoldable pub handle_signed : Outside → Webhook → ChannelConnection → Bool → HubCall (Unit {0})
handle_signed outside webhook connection false = raise Error.signature_error
handle_signed outside webhook connection true =
    enqueue_payload outside webhook connection (outside.loads webhook.raw_body)

-- With the adapter, and with the secret's bundle too.
abbrev pub handle_bundle :
    Outside → Webhook → ChannelConnection → Adapter → Dict Text Text → HubCall (Unit {0})
handle_bundle outside webhook connection adapter bundle =
    handle_signed outside webhook connection
      (verify_inbound_signature outside adapter webhook (signing_secret adapter bundle))

abbrev pub handle_adapter : Outside → Webhook → ChannelConnection → Adapter → HubCall (Unit {0})
handle_adapter outside webhook connection adapter =
    get_secret outside.secrets_fail connection.org_id connection.credentials_secret_key
    >>= handle_bundle outside webhook connection adapter

-- `handle_webhook` from `get_adapter` on.
unfoldable pub handle_resolved : Outside → Webhook → ChannelConnection → HubCall (Unit {0})
handle_resolved outside webhook connection =
    get_adapter Error.adapter_error webhook.channel_type
    >>= handle_adapter outside webhook connection

unfoldable pub handle_webhook : Outside → Webhook → HubCall (Unit {0})
handle_webhook outside webhook =
    resolve_connection webhook.channel_type webhook.connection_id
    >>= handle_resolved outside webhook

-- `verify_subscription`: Meta's challenge comes back when the token is the connection's.
pub record Subscription : Type 0 where
  pub mode : Option Text
  pub verify_token : Option Text
  pub challenge : Option Text

abbrev pub is_mode : Option Text → Bool
is_mode none = false
is_mode (some mode) = text_beq mode (codes "subscribe")

abbrev pub is_token : Option Text → Option Text → Bool
is_token none received = false
is_token (some []) received = false
is_token (some (c ∷ expected)) none = false
is_token (some (c ∷ expected)) (some received) = text_beq received (c ∷ expected)

abbrev pub accept : Bool → Option Text → HubCall Text
accept checks none = raise Error.adapter_error
accept checks (some []) = raise Error.adapter_error
accept checks (some (c ∷ challenge)) =
    if checks then pure (c ∷ challenge) else raise Error.adapter_error

unfoldable pub answer_subscription : Adapter → Subscription → Dict Text Text → HubCall Text
answer_subscription email params credentials = raise Error.adapter_error
answer_subscription meta params credentials =
    accept
      (is_mode params.mode
        && is_token (Dict.get (codes "verify_token") credentials) params.verify_token)
      params.challenge

unfoldable pub verify_subscription : Outside → Text → ℕ → Subscription → HubCall Text
verify_subscription outside channel_type connection_id params = do
  connection ← resolve_connection channel_type connection_id
  adapter ← get_adapter Error.adapter_error channel_type
  bundle ← get_secret outside.secrets_fail connection.org_id connection.credentials_secret_key
  answer_subscription adapter params bundle
