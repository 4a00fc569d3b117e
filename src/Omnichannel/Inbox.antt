-- ===== src/Omnichannel/Inbox.antt =====
-- app/services/omnichannel/inbox.py: listing the conversations of an org, page by page.
pub mod Order
pub mod Keyset
pub mod Cursor
pub mod Bounds
pub mod Pages
use a2z_core.Prelude.{
  ℕ, zero, suc, ◌≡◌, refl, Bool, true, false, ◌==◌, ◌&&◌, ◌||◌, not, min, Option, none, some, List,
  [], ◌∷◌, map, select, if◌then◌else◌,
}
use a2z_core.Prelude.Text.{Text, codes, text_beq}
use a2z_core.Prelude.Dict
use a2z_core.Prelude.Dict.{Dict, nat_eq}
use a2z_core.Prelude.Run.{Result, ok, err, ◌>>=◌, ◌>>◌, pure, raise, raise_if, get_state}
use a2z_core.Omnichannel.Access.{Memberships, require_membership, load_conversation}
use a2z_core.Omnichannel.Model.{
  ChannelIdentity, ConversationStatus, Conversation, Message, Db, World, Error, Call, lift, commit,
}
use a2z_core.Omnichannel.Inbox.Order.{Key}
use a2z_core.Omnichannel.Inbox.Keyset.{fetch}
use a2z_core.Omnichannel.Inbox.Cursor.{Codec, encode_cursor, decode_cursor}

pub record ConversationSummary : Type 0 where
  pub id : ℕ
  pub status : ConversationStatus
  pub assigned_user_id : Option ℕ
  pub last_message_at : Option ℕ
  pub last_message_preview : Option Text
  pub unread_count : ℕ
  pub channel_type : Text
  pub customer_external_id : Text
  pub customer_display_name : Option Text

pub record ConversationPage : Type 0 where
  pub items : List ConversationSummary
  pub next_cursor : Option Text

-- What the code outside answers: the memberships, the codec of cursors, and Postgres's text search
-- (`to_tsvector(text) @@ plainto_tsquery(q)` and `display_name ILIKE '%q%'`, the query first).
pub record Outside : Type 0 where
  pub memberships : Memberships
  pub codec : Codec
  pub full_text : Text → Text → Bool
  pub ilike : Text → Text → Bool

-- Python's `int`
pub data ℤ : Type 0 where
  pos negsuc : ℕ → ℤ

-- The arguments of `list_conversations` but the cursor.
pub record Query : Type 0 where
  pub org_id : ℕ
  pub user_id : ℕ
  pub status : Option ConversationStatus
  pub assigned_user_id : Option ℕ
  pub q : Option Text
  pub sort : Text
  pub limit : ℤ

abbrev pub max_limit : ℕ
max_limit = 100

abbrev pub default_conversation_limit : ℕ
default_conversation_limit = 50

-- `_clamp`
unfoldable pub clamp : ℤ → ℕ → ℕ
clamp (pos zero) default = default
clamp (pos (suc limit)) default = min (suc limit) max_limit
clamp (negsuc limit) default = default

abbrev pub Row : Type 0
Row = Conversation × ChannelIdentity

-- `_summary`
abbrev pub summary : Row → ConversationSummary
summary (conversation, identity) = record {
  id = conversation.id;
  status = conversation.status;
  assigned_user_id = conversation.assigned_user_id;
  last_message_at = conversation.last_message_at;
  last_message_preview = conversation.last_message_preview;
  unread_count = conversation.unread_count;
  channel_type = identity.channel_type;
  customer_external_id = identity.external_id;
  customer_display_name = identity.display_name;
}

abbrev pub row_key : Row → Key
row_key (conversation, identity) = (conversation.last_message_at, conversation.id)

abbrev pub status_beq : ConversationStatus → ConversationStatus → Bool
status_beq ConversationStatus.is_open ConversationStatus.is_open = true
status_beq ConversationStatus.pending ConversationStatus.pending = true
status_beq ConversationStatus.closed ConversationStatus.closed = true
status_beq _ _ = false

-- `if status is not None`
abbrev pub status_filter : Option ConversationStatus → Conversation → Bool
status_filter none conversation = true
status_filter (some status) conversation = status_beq conversation.status status

-- `if assigned_user_id is not None`; NULL is not equal to an id.
abbrev pub assigned_filter : Option ℕ → Option ℕ → Bool
assigned_filter none assignee = true
assigned_filter (some user_id) none = false
assigned_filter (some user_id) (some assignee) = assignee == user_id

abbrev pub coalesce : Option Text → Text
coalesce none = []
coalesce (some body_text) = body_text

-- `EXISTS` a message of the conversation that the search matches.
unfoldable pub body_match : Outside → ℕ → Text → ℕ → Dict ℕ Message → Bool
body_match outside org_id q conversation_id [] = false
body_match outside org_id q conversation_id ((id, message) ∷ messages) =
    message.org_id == org_id
      && message.conversation_id == conversation_id
      && outside.full_text q (coalesce message.body_text)
    || body_match outside org_id q conversation_id messages

abbrev pub name_match : Outside → Text → Option Text → Bool
name_match outside q none = false
name_match outside q (some display_name) = outside.ilike q display_name

-- `if q`: an empty search is none.
abbrev pub search_filter : Outside → Db → ℕ → Option Text → Row → Bool
search_filter outside db org_id none row = true
search_filter outside db org_id (some []) row = true
search_filter outside db org_id (some (c ∷ q)) (conversation, identity) =
    body_match outside org_id (c ∷ q) conversation.id db.messages
    || name_match outside (c ∷ q) identity.display_name

-- The `WHERE` clause but for the cursor.
abbrev pub matches : Outside → Db → Query → Row → Bool
matches outside db query (conversation, identity) =
    conversation.org_id == query.org_id
    && status_filter query.status conversation
    && assigned_filter query.assigned_user_id conversation.assigned_user_id
    && search_filter outside db query.org_id query.q (conversation, identity)

-- `JOIN` of a conversation with its customer's identity.
abbrev pub with_identity : Conversation → Option ChannelIdentity → List Row → List Row
with_identity conversation none rows = rows
with_identity conversation (some identity) rows = (conversation, identity) ∷ rows

unfoldable pub join : Dict ℕ ChannelIdentity → Dict ℕ Conversation → List Row
join identities [] = []
join identities ((id, conversation) ∷ conversations) =
    with_identity conversation (Dict.get conversation.customer_identity_id identities)
      (join identities conversations)

-- The rows that the query is about.
abbrev pub matching : Outside → Query → Db → List Row
matching outside query db = select (matches outside db query) (join db.identities db.conversations)

abbrev pub newest_first : Text
newest_first = codes "-last_message_at"

abbrev pub oldest_first : Text
oldest_first = codes "last_message_at"

abbrev pub is_sort_field : Text → Bool
is_sort_field sort = text_beq sort newest_first || text_beq sort oldest_first

abbrev pub sort_desc : Query → Bool
sort_desc query = text_beq query.sort newest_first

unfoldable pub decode_optional : Codec → Option Text → Result Error (Option Key)
decode_optional codec none = ok none
decode_optional codec (some cursor) = elim (decode_cursor codec cursor) [
  | ok key ↦ ok (some key)
  | err e ↦ err e
]

pub decode_optional-some :
    (codec : Codec) (cursor : Text) (key : Key)
    → decode_cursor codec cursor ≡ ok key
    → decode_optional codec (some cursor) ≡ ok (some key)
unfolding decode_optional
decode_optional-some codec cursor key decoded = rw (decode_optional, decoded) refl

abbrev pub encode_optional : Codec → Option Key → Option Text
encode_optional codec none = none
encode_optional codec (some key) = some (encode_cursor codec key)

abbrev pub conversation_page : Codec → List Row × Option Key → ConversationPage
conversation_page codec (rows, next) = record {
  items = map summary rows;
  next_cursor = encode_optional codec next;
}

unfoldable pub list_conversations : Outside → Query → Option Text → Call ConversationPage
list_conversations outside query cursor = do
  lift (require_membership outside.memberships query.user_id query.org_id)
  raise_if (not (is_sort_field query.sort)) Error.invalid_query
  key ← lift (decode_optional outside.codec cursor)
  w ← get_state
  let page_size = clamp query.limit default_conversation_limit
  let rows = matching outside query w.db
  pure (conversation_page outside.codec (fetch row_key (sort_desc query) page_size key rows))

-- `mark_read`
unfoldable pub mark_read : Memberships → ℕ → ℕ → ℕ → Call Conversation
mark_read memberships org_id conversation_id user_id = do
  lift (require_membership memberships user_id org_id)
  w ← get_state
  conversation ← lift (load_conversation w.db org_id conversation_id)
  let read = record conversation { unread_count = 0 }
  commit (record (w.db) { conversations = Dict.put conversation.id read w.db.conversations })
  pure read
