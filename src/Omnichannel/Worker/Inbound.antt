-- ===== src/Omnichannel/Worker/Inbound.antt =====
-- `_process_inbound_message` of app/services/omnichannel/worker.py up to the delivery statuses: each
-- normalized item of a webhook payload becomes a message, unless it was delivered before.
pub mod Once
pub mod Redelivery
use a2z_core.Prelude.{
  ℕ, ◌+◌, Bool, true, false, ◌==◌, ◌&&◌, Option, none, some, List, [], ◌∷◌, ◌++◌, take, find, map,
  if◌then◌else◌,
}
use a2z_core.Prelude.Text.{Text, text_beq}
use a2z_core.Prelude.Dict
use a2z_core.Prelude.Dict.{Dict, nat_eq}
use a2z_core.Prelude.Run.{Result, ok, err, ◌>>=◌, ◌>>◌, pure, raise, raise_if, get_state}
use a2z_core.Omnichannel.Model.{
  ChannelIdentity, ConversationStatus, Conversation, Direction, Message, MessageAttachment,
  MessageStatus, Db, World, EventType, Effect, Error, Call, commit, emit_or, emit,
}
use a2z_core.Omnichannel.Routing.{Env, apply_single_assignee_if_configured}

pub record InboundAttachment : Type 0 where
  pub content_type : Text
  pub size_bytes : ℕ

-- `NormalizedInboundMessage`, as the channel's adapter makes it from the payload.
pub record NormalizedInboundMessage : Type 0 where
  pub external_id : Text
  pub display_name : Option Text
  pub external_message_id : Text
  pub body_text : Option Text
  pub content_type : Text
  pub attachments : List InboundAttachment

-- What the outside answers while one item is processed: three fresh uuids, the clock, the keys under
-- which `upload_file` stored the attachments (or that it raised), and the rest.
pub record Answers : Type 0 where
  pub identity_id : ℕ
  pub conversation_id : ℕ
  pub message_id : ℕ
  pub now : ℕ
  -- `now()` of Postgres
  pub created_at : ℕ
  pub uploaded : Option (List Text)
  pub env : Env

abbrev pub is_identity : ℕ → Text → Text → ℕ × ChannelIdentity → Bool
is_identity org_id channel_type external_id row =
    row.1.org_id == org_id
    && text_beq row.1.channel_type channel_type
    && text_beq row.1.external_id external_id

abbrev pub new_identity : Answers → ℕ → Text → NormalizedInboundMessage → ChannelIdentity
new_identity a org_id channel_type item = record {
  id = a.identity_id;
  org_id = org_id;
  channel_type = channel_type;
  external_id = item.external_id;
  display_name = item.display_name;
}

-- `_find_or_create_identity`, with the tables as they are flushed.
unfoldable pub find_or_create_identity :
    Answers → ℕ → Text → NormalizedInboundMessage → Db → ChannelIdentity × Db
find_or_create_identity a org_id channel_type item db =
    elim (find (is_identity org_id channel_type item.external_id) db.identities) [
      | some row ↦ (row.1, db)
      | none ↦
          let identity = new_identity a org_id channel_type item in
          (identity, record db { identities = Dict.put identity.id identity db.identities })
    ]

abbrev pub is_conversation : ℕ → ℕ → ℕ × Conversation → Bool
is_conversation org_id identity_id row =
    row.1.org_id == org_id && row.1.customer_identity_id == identity_id

abbrev pub new_conversation : Answers → ℕ → ℕ → Conversation
new_conversation a org_id identity_id = record {
  id = a.conversation_id;
  org_id = org_id;
  customer_identity_id = identity_id;
  status = ConversationStatus.is_open;
  assigned_user_id = none;
  last_message_at = none;
  last_message_preview = none;
  unread_count = 0;
}

-- `_find_or_create_conversation`: the conversation, and whether it is new.
unfoldable pub find_or_create_conversation : Answers → ℕ → ℕ → Db → Conversation × Bool
find_or_create_conversation a org_id identity_id db =
    elim (find (is_conversation org_id identity_id) db.conversations) [
      | some row ↦ (row.1, false)
      | none ↦ (new_conversation a org_id identity_id, true)
    ]

-- `uq_message_idempotency`: the row's channel type and external id.
abbrev pub is_delivery : Text → Text → ℕ × Message → Bool
is_delivery channel_type external_message_id row =
    text_beq row.1.channel_type channel_type
    && text_beq row.1.external_message_id external_message_id

abbrev pub new_message : Answers → ℕ → Text → ℕ → NormalizedInboundMessage → Message
new_message a org_id channel_type conversation_id item = record {
  id = a.message_id;
  org_id = org_id;
  conversation_id = conversation_id;
  direction = Direction.inbound;
  channel_type = channel_type;
  external_message_id = item.external_message_id;
  subject = none;
  body_text = item.body_text;
  content_type = item.content_type;
  status = MessageStatus.received;
  sent_by_user_id = none;
  client_dedup_key = none;
  created_at = a.created_at;
}

abbrev pub new_attachments : ℕ → ℕ → List InboundAttachment → List Text → List MessageAttachment
new_attachments org_id message_id [] keys = []
new_attachments org_id message_id (x ∷ xs) [] = []
new_attachments org_id message_id (x ∷ xs) (key ∷ keys) =
    record {
      message_id = message_id;
      org_id = org_id;
      s3_key = key;
      content_type = x.content_type;
      size_bytes = x.size_bytes;
    }
    ∷ new_attachments org_id message_id xs keys

-- `(item.body_text or "")[:200]`
abbrev pub preview : Option Text → Text
preview none = []
preview (some text) = take 200 text

abbrev pub with_message : ℕ → NormalizedInboundMessage → Conversation → Conversation
with_message now item conversation = record conversation {
  last_message_at = some now;
  last_message_preview = some (preview item.body_text);
  unread_count = conversation.unread_count + 1;
}

unfoldable pub route : Answers → Bool → Conversation → Call Conversation
route a is_new conversation w = elim is_new [
  | true ↦ apply_single_assignee_if_configured a.env conversation w
  | false ↦ (ok conversation, w)
]

-- The event, the update of the org's inbox, and the notification of the assignee.
unfoldable pub announce : Answers → ℕ → Conversation → Call (Unit {0})
announce a org_id conversation = do
  emit_or a.env.publish_fails Error.event_error
      (Effect.published org_id EventType.message_received conversation.id)
  emit (Effect.inbox_update org_id EventType.message_received conversation.id)
  elim conversation.assigned_user_id [
    | none ↦ pure tt
    | some user_id ↦ emit (Effect.notification user_id EventType.message_received conversation.id)
  ]

-- The tables at the commit of one item.
abbrev pub received_db :
    Answers → ℕ → Text → NormalizedInboundMessage → List Text → Conversation → Db → Db
received_db a org_id channel_type item keys conversation db = record db {
  conversations = Dict.put conversation.id (with_message a.now item conversation) db.conversations;
  messages =
      Dict.put a.message_id (new_message a org_id channel_type conversation.id item) db.messages;
  attachments = db.attachments ++ new_attachments org_id a.message_id item.attachments keys;
}

-- From the commit of an item on.
unfoldable pub receive :
    Answers
    → ℕ
    → Text
    → NormalizedInboundMessage
    → List Text
    → Conversation
    → Bool
    → Db
    → Call (Unit {0})
receive a org_id channel_type item keys conversation is_new db = do
  commit (received_db a org_id channel_type item keys conversation db)
  routed ← route a is_new (with_message a.now item conversation)
  announce a org_id routed

-- One item of the loop. A duplicate rolls the whole session back: nothing of the item stays.
unfoldable pub process_item : Answers → ℕ → Text → NormalizedInboundMessage → Call (Unit {0})
process_item a org_id channel_type item w =
    let (identity, db) = find_or_create_identity a org_id channel_type item w.db in
    let (conversation, is_new) = find_or_create_conversation a org_id identity.id db in
    elim (find (is_delivery channel_type item.external_message_id) w.db.messages) [
      | some duplicate ↦ (ok tt, w)
      | none ↦ elim a.uploaded [
        | none ↦ (err Error.storage_error, w)
        | some keys ↦ receive a org_id channel_type item keys conversation is_new db w
      ]
    ]

-- The loop over the items of a payload.
unfoldable pub process_items :
    ℕ → Text → List (Answers × NormalizedInboundMessage) → Call (Unit {0})
process_items org_id channel_type [] = pure tt
process_items org_id channel_type ((a, item) ∷ items) =
    process_item a org_id channel_type item >> process_items org_id channel_type items
