-- ===== src/Omnichannel/Connections.antt =====
-- app/services/omnichannel/connections.py: connecting a channel and disabling it, with the registry of
-- adapters/registry.py.
pub mod Disabling
use a2z_core.Prelude.{
  ℕ, Bool, true, false, ◌==◌, ◌&&◌, ◌||◌, not, Option, none, some, List, [], ◌∷◌, ◌++◌, map, select,
  find, leb, if◌then◌else◌,
}
use a2z_core.Prelude.Text.{Text, codes, text_beq, text_eq, scoped_eq}
use a2z_core.Prelude.Dict
use a2z_core.Prelude.Dict.{Dict}
use a2z_core.Prelude.Run.{
  Result, Run, ok, err, ◌>>=◌, ◌>>◌, pure, raise, raise_if, get_state, set_state,
}
use a2z_core.Core.Role.{owner_or_admin}
use a2z_core.Omnichannel.Access.{Memberships, require_role}
use a2z_core.Omnichannel.Model.{ChannelConnection, Error}

-- The table, the secrets of the service by org and key, and the inbound queue, oldest first.
pub record Inbound : Type 0 where
  pub org_id : ℕ
  pub channel_type : Text
  pub connection_id : ℕ
  pub raw_payload : Text

pub record Hub : Type 0 where
  pub connections : List ChannelConnection
  pub secrets : Dict (ℕ × Text) (Dict Text Text)
  pub inbound : List Inbound

abbrev pub HubCall : Type 0 → Type 0
HubCall = Run Hub Error

abbrev pub answer : {A : Type 0} → Result Error A → HubCall A
answer r s = (r, s)

-- The adapters of the registry: the three of Meta share what is modelled of them.
pub data Adapter : Type 0 where
  email meta : Adapter

-- `_REGISTRY`
unfoldable pub registry : Text → Option Adapter
registry channel_type =
    if text_beq channel_type (codes "email")
    then some email
    else if text_beq channel_type (codes "whatsapp")
        || text_beq channel_type (codes "messenger")
        || text_beq channel_type (codes "instagram")
    then some meta
    else none

abbrev pub found_or : {A : Type 0} → Error → Option A → Result Error A
found_or error none = err error
found_or error (some a) = ok a

-- `get_adapter`
abbrev pub get_adapter : Error → Text → HubCall Adapter
get_adapter error channel_type s = (found_or error (registry channel_type), s)

-- What the services outside answer to one call: the uuid as an id and as text, Postgres's `now()`,
-- whether Secrets Manager, SES, the audit log and EventBridge fail.
pub record Answers : Type 0 where
  pub memberships : Memberships
  pub connection_id : ℕ
  pub connection_text : Text
  pub created_at : ℕ
  pub secrets_fail : Bool
  pub verification_fails : Text → Bool
  pub audit_fails : Bool
  pub publish_fails : Bool

pub record NewConnection : Type 0 where
  pub channel_type : Text
  pub display_name : Text
  pub provider_account_id : Text
  pub credentials : Option (Dict Text Text)
  pub credentials_secret_key : Option Text

-- `_require_admin`
abbrev pub require_admin : Answers → ℕ → ℕ → HubCall (Unit {0})
require_admin a org_id actor_user_id =
    answer (require_role a.memberships actor_user_id org_id owner_or_admin) >> pure tt

abbrev pub has_id : ℕ → ChannelConnection → Bool
has_id connection_id connection = connection.id == connection_id

abbrev pub own : ℕ → Option ChannelConnection → Result Error ChannelConnection
own org_id none = err Error.connection_not_found
own org_id (some connection) =
    if connection.org_id == org_id then ok connection else err Error.connection_not_found

-- `_load`
abbrev pub load : ℕ → ℕ → HubCall ChannelConnection
load org_id connection_id s = (own org_id (find (has_id connection_id) s.connections), s)

abbrev pub secret_result : Bool → Option (Dict Text Text) → Result Error (Dict Text Text)
secret_result true found = err Error.secret_error
secret_result false found = found_or Error.secret_error found

-- `put_secret` and `get_secret` of the service's secrets.
abbrev pub put_secret : Answers → ℕ → Text → Dict Text Text → HubCall (Unit {0})
put_secret a org_id key value s =
    if a.secrets_fail
    then (err Error.secret_error, s)
    else (ok tt, record s { secrets = Dict.put (org_id, key) value s.secrets })

abbrev pub get_secret : Bool → ℕ → Text → HubCall (Dict Text Text)
get_secret fails org_id key s = (secret_result fails (Dict.get (org_id, key) s.secrets), s)

-- "@"
abbrev pub at_sign : ℕ
at_sign = 64

unfoldable pub has_at : Text → Bool
has_at [] = false
has_at (c ∷ s) = c == at_sign || has_at s

-- `s.rsplit("@", 1)[1]` of a text with an "@": what follows the last.
unfoldable pub after_at : Text → Text
after_at [] = []
after_at (c ∷ s) = if has_at s then after_at s else if c == at_sign then s else after_at s

abbrev pub both_given : NewConnection → Bool
both_given request = elim request.credentials [
  | none ↦ false
  | some credentials ↦ elim request.credentials_secret_key [ none ↦ false | some key ↦ true ]
]

-- The key of a channel that needs credentials.
abbrev pub credentials_key : Answers → ℕ → Option (Dict Text Text) → Option Text → HubCall Text
credentials_key a org_id (some credentials) key =
    put_secret a org_id a.connection_text credentials >>= λ _. pure a.connection_text
credentials_key a org_id none (some key) = get_secret a.secrets_fail org_id key >>= λ _. pure key
credentials_key a org_id none none = raise Error.connection_invalid

-- `start_domain_verification` on the domain of an address.
abbrev pub verify_domain : Answers → Text → HubCall Text
verify_domain a provider_account_id s =
    if has_at provider_account_id
    then (if a.verification_fails (after_at provider_account_id)
        then (err Error.verification_error, s)
        else (ok [], s))
    else (err Error.connection_invalid, s)

abbrev pub secret_key : Answers → ℕ → NewConnection → Adapter → HubCall Text
secret_key a org_id request meta =
    credentials_key a org_id request.credentials request.credentials_secret_key
secret_key a org_id request email = verify_domain a request.provider_account_id

abbrev pub new_connection : Answers → ℕ → NewConnection → Text → ChannelConnection
new_connection a org_id request key = record {
  id = a.connection_id;
  org_id = org_id;
  channel_type = request.channel_type;
  display_name = request.display_name;
  provider_account_id = request.provider_account_id;
  is_active = true;
  created_at = a.created_at;
  credentials_secret_key = key;
}

-- `log_audit` and `publish_event`, after the commit.
abbrev pub announce : Answers → HubCall (Unit {0})
announce a = raise_if a.audit_fails Error.audit_error >> raise_if a.publish_fails Error.event_error

-- `session.add(connection)` and the rest.
abbrev pub add_connection : Answers → ℕ → NewConnection → Text → HubCall ChannelConnection
add_connection a org_id request key s =
    let connection = new_connection a org_id request key in
    (announce a >>= λ _. pure connection)
      (record s { connections = s.connections ++ connection ∷ [] })

abbrev pub connect : Answers → ℕ → NewConnection → Adapter → HubCall ChannelConnection
connect a org_id request adapter =
    secret_key a org_id request adapter >>= add_connection a org_id request

unfoldable pub create_connection : Answers → ℕ → ℕ → NewConnection → HubCall ChannelConnection
create_connection a org_id actor_user_id request = do
  require_admin a org_id actor_user_id
  adapter ← get_adapter Error.connection_invalid request.channel_type
  raise_if (both_given request) Error.connection_invalid
  connect a org_id request adapter

-- `ORDER BY created_at`
abbrev pub insert_row : ChannelConnection → List ChannelConnection → List ChannelConnection
insert_row row [] = row ∷ []
insert_row row (other ∷ rows) =
    let rest = insert_row row rows in
    if leb row.created_at other.created_at then row ∷ other ∷ rows else other ∷ rest

abbrev pub order_by_created : List ChannelConnection → List ChannelConnection
order_by_created [] = []
order_by_created (row ∷ rows) = insert_row row (order_by_created rows)

unfoldable pub list_connections : Answers → ℕ → ℕ → HubCall (List ChannelConnection)
list_connections a org_id actor_user_id = do
  require_admin a org_id actor_user_id
  s ← get_state
  pure (order_by_created (select (λ connection. connection.org_id == org_id) s.connections))

unfoldable pub get_connection : Answers → ℕ → ℕ → ℕ → HubCall ChannelConnection
get_connection a org_id actor_user_id connection_id = do
  require_admin a org_id actor_user_id
  load org_id connection_id

abbrev pub disabled : ChannelConnection → ChannelConnection
disabled connection = record connection { is_active = false }

abbrev pub disable_row : ℕ → ChannelConnection → ChannelConnection
disable_row connection_id row = if row.id == connection_id then disabled row else row

abbrev pub disable_loaded : Answers → ℕ → ChannelConnection → HubCall ChannelConnection
disable_loaded a connection_id connection s =
    (announce a >>= λ _. pure (disabled connection))
      (record s { connections = map (disable_row connection_id) s.connections })

unfoldable pub disable_connection : Answers → ℕ → ℕ → ℕ → HubCall ChannelConnection
disable_connection a org_id actor_user_id connection_id = do
  require_admin a org_id actor_user_id
  connection ← load org_id connection_id
  disable_loaded a connection_id connection
