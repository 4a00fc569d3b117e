-- ===== src/Omnichannel/Worker/Outbound.antt =====
-- `_process_outbound_message` and `_find_connection` of app/services/omnichannel/worker.py: one
-- receipt of a queued message. The result says whether it is deleted from the queue.
pub mod Retries
use a2z_core.Prelude.{
  ℕ, Bool, true, false, ◌==◌, ◌&&◌, leb, ltb, Option, none, some, List, [], ◌∷◌, select,
  if◌then◌else◌,
}
use a2z_core.Prelude.Text.{Text, text_beq}
use a2z_core.Prelude.Dict
use a2z_core.Prelude.Dict.{Dict, nat_eq}
use a2z_core.Prelude.Run.{Result, ok, err, ◌>>=◌, ◌>>◌, pure, raise, raise_if, get_state}
use a2z_core.Omnichannel.Connections.{Adapter, email, meta, registry, found_or}
use a2z_core.Omnichannel.Model.{
  ChannelConnection, ChannelIdentity, Conversation, Message, MessageStatus, Db, World, EventType,
  Effect, Error, Call, commit, emit_or, emit,
}

-- How `adapter.send_outbound` ends: with the provider's id of the message, a ChannelAdapterError, or
-- another exception.
pub data SendAnswer : Type 0 where
  accepted : Text → SendAnswer
  adapter_error : SendAnswer
  raised : Error → SendAnswer

-- What the outside answers during one receipt.
pub record Env : Type 0 where
  pub secret_fails : Bool
  pub send_outbound : ChannelIdentity → Message → SendAnswer
  pub publish_fails : Bool

-- `_OUTBOUND_MAX_ATTEMPTS`
abbrev pub outbound_max_attempts : ℕ
outbound_max_attempts = 5

-- `order_by(created_at)` and `first()`: the earlier row of two that are equally old.
abbrev pub older : ChannelConnection → Option ChannelConnection → ChannelConnection
older c none = c
older c (some d) = if ltb d.created_at c.created_at then d else c

abbrev pub oldest : List ChannelConnection → Option ChannelConnection
oldest [] = none
oldest (c ∷ cs) = some (older c (oldest cs))

abbrev pub is_usable : ℕ → Text → ChannelConnection → Bool
is_usable org_id channel_type c =
    c.org_id == org_id && text_beq c.channel_type channel_type && c.is_active

unfoldable pub find_connection : Db → ℕ → Text → Option ChannelConnection
find_connection db org_id channel_type =
    oldest (select (is_usable org_id channel_type) db.connections)

-- The identity that the message goes to, if its conversation, identity and connection are there.
unfoldable pub identity_of : Db → Option Conversation → Option ChannelIdentity
identity_of db none = none
identity_of db (some c) = Dict.get c.customer_identity_id db.identities

abbrev pub with_connection :
    Option ChannelIdentity → Option ChannelConnection → Option ChannelIdentity
with_connection none c = none
with_connection (some i) none = none
with_connection (some i) (some c) = some i

unfoldable pub context : Db → Message → Option ChannelIdentity
context db m =
    with_connection (identity_of db (Dict.get m.conversation_id db.conversations))
      (find_connection db m.org_id m.channel_type)

abbrev pub set_message : ℕ → Message → Db → Db
set_message id m db = record db { messages = Dict.put id m db.messages }

-- A failed attempt: the message is given up in Postgres at the last one, and stays in the queue.
unfoldable pub give_up : ℕ → ℕ → Message → Call Bool
give_up id receive_count m w =
    if leb outbound_max_attempts receive_count
    then (
      ok false,
      record w { db = set_message id (record m { status = MessageStatus.failed }) w.db },
    )
    else (ok false, w)

-- A send that was accepted, with an id that no other message of the channel type has.
unfoldable pub finish : Env → ℕ → Message → Text → Call Bool
finish env id m external_message_id = do
  w ← get_state
  commit (
      set_message id
        (record m { external_message_id = external_message_id; status = MessageStatus.sent }) w.db)
  emit_or env.publish_fails Error.event_error
      (Effect.published m.org_id EventType.message_sent m.conversation_id)
  emit (Effect.inbox_update m.org_id EventType.message_sent m.conversation_id)
  pure true

-- `supported_features.requires_credentials`
abbrev pub requires_credentials : Adapter → Bool
requires_credentials email = false
requires_credentials meta = true

-- `get_adapter`, outside the `try`: an error of it is not a failed send.
abbrev pub adapter_of : Text → Call Adapter
adapter_of channel_type w = (found_or Error.adapter_error (registry channel_type), w)

-- `secrets.get_secret`, if the adapter needs it.
abbrev pub load_credentials : Env → Adapter → Call (Unit {0})
load_credentials env adapter =
    raise_if (requires_credentials adapter && env.secret_fails) Error.secret_error

-- `try: await adapter.send_outbound(...)` and what follows.
unfoldable pub after_send : Env → ℕ → ℕ → Message → SendAnswer → Call Bool
after_send env id receive_count m adapter_error = give_up id receive_count m
after_send env id receive_count m (raised e) = raise e
after_send env id receive_count m (accepted external_message_id) =
    finish env id m external_message_id

unfoldable pub attempt : Env → ℕ → ℕ → Message → ChannelIdentity → Call Bool
attempt env id receive_count m identity = do
  adapter ← adapter_of m.channel_type
  load_credentials env adapter
  after_send env id receive_count m (env.send_outbound identity m)

unfoldable pub process_outbound_message : Env → ℕ → ℕ → Call Bool
process_outbound_message env message_id receive_count w = elim (Dict.get message_id w.db.messages) [
  | none ↦ (ok true, w)
  | some m ↦ elim (context w.db m) [
    | none ↦ (ok true, w)
    | some identity ↦ attempt env message_id receive_count m identity w
  ]
]
