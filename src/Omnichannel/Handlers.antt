-- ===== src/Omnichannel/Handlers.antt =====
-- app/services/omnichannel/handlers.py: an agent's reply, and the outbound queue of queues.py.
pub mod Raises
pub mod Replies
use a2z_core.Prelude.{
  ℕ, Bool, true, false, ◌==◌, ◌&&◌, ◌||◌, Option, none, some, List, [], ◌∷◌, ◌++◌, if◌then◌else◌,
}
use a2z_core.Prelude.Text.{Text, codes, text_beq, text_eq, scoped_eq}
use a2z_core.Prelude.Dict
use a2z_core.Prelude.Dict.{Dict, nat_eq}
use a2z_core.Prelude.Run.{Result, Run, ok, err, ◌>>=◌, ◌>>◌, pure, raise, get_state}
use a2z_core.Core.RateLimit.{Outcome, check_and_increment, rate_limits}
use a2z_core.Omnichannel.Access.{Memberships, non_viewer, require_role, load_conversation}
use a2z_core.Omnichannel.Model.{
  ChannelIdentity, Conversation, Direction, Message, MessageStatus, Db, Error,
}

-- The tables, the windows of the rate limiter by org and action, and the outbound queue of
-- `(org_id, message_id)`, oldest first.
pub record Server : Type 0 where
  pub db : Db
  pub windows : Dict (ℕ × Text) (List ℕ)
  pub outbound : List (ℕ × ℕ)

-- What the services outside answer to one call: `monotonic` in ticks, `hz` to the second, the uuids,
-- Postgres's `now()`, the rows that other transactions commit until this one does, and whether SQS
-- fails.
pub record Answers : Type 0 where
  pub memberships : Memberships
  pub hz : ℕ
  pub monotonic : ℕ
  pub message_id : ℕ
  pub uuid : Text
  pub created_at : ℕ
  pub concurrent : List (ℕ × Message)
  pub queue_fails : Bool

pub record Reply : Type 0 where
  pub org_id : ℕ
  pub conversation_id : ℕ
  pub user_id : ℕ
  pub body_text : Text
  pub client_dedup_key : Option Text
  pub subject : Option Text

-- A column that may be NULL against a value.
abbrev pub is_text : Option Text → Text → Bool
is_text none s = false
is_text (some t) s = text_beq t s

abbrev pub has_dedup_key : ℕ → ℕ → Text → Message → Bool
has_dedup_key org_id conversation_id client_dedup_key m =
    m.org_id == org_id
    && m.conversation_id == conversation_id
    && is_text m.client_dedup_key client_dedup_key

-- `_find_by_dedup_key`
unfoldable pub find_by_dedup_key : ℕ → ℕ → Text → List (ℕ × Message) → Option Message
find_by_dedup_key org_id conversation_id client_dedup_key [] = none
find_by_dedup_key org_id conversation_id client_dedup_key ((id, m) ∷ messages) =
    if has_dedup_key org_id conversation_id client_dedup_key m
    then some m
    else find_by_dedup_key org_id conversation_id client_dedup_key messages

abbrev pub find_existing : Reply → Option Text → List (ℕ × Message) → Option Message
find_existing reply none messages = none
find_existing reply (some client_dedup_key) messages =
    find_by_dedup_key reply.org_id reply.conversation_id client_dedup_key messages

-- `_rate_limit_action`
abbrev pub rate_limit_action : Text → Text
rate_limit_action channel_type = codes "omnichannel." ++ channel_type ++ codes ".send"

abbrev pub limit_result : Outcome → Result Error (Unit {0})
limit_result Outcome.recorded = ok tt
limit_result (Outcome.rate_limited retry_after) = err (Error.rate_limit_error retry_after)
limit_result Outcome.index_error = err Error.index_error

-- `if limits is not None`: the action of a channel without limits is not counted.
unfoldable pub check_limits : Answers → ℕ → Text → Option (ℕ × ℕ) → Run Server Error (Unit {0})
check_limits a org_id action none s = (ok tt, s)
check_limits a org_id action (some (limit, window_seconds)) s =
    let (outcome, windows) =
      check_and_increment a.hz (org_id, action) limit window_seconds a.monotonic s.windows in
    (limit_result outcome, record s { windows = windows })

abbrev pub new_message : Answers → Reply → Text → Message
new_message a reply channel_type = record {
  id = a.message_id;
  org_id = reply.org_id;
  conversation_id = reply.conversation_id;
  direction = Direction.outbound;
  channel_type = channel_type;
  external_message_id = codes "pending:" ++ a.uuid;
  subject = reply.subject;
  body_text = some reply.body_text;
  content_type = codes "text/plain";
  status = MessageStatus.queued;
  sent_by_user_id = some reply.user_id;
  client_dedup_key = reply.client_dedup_key;
  created_at = a.created_at;
}

-- The unique indexes `uq_message_idempotency` and `uq_message_client_dedup`, the latter on rows with
-- a key.
abbrev pub same_dedup_key : Message → Option Text → Message → Bool
same_dedup_key m none row = false
same_dedup_key m (some client_dedup_key) row =
    has_dedup_key m.org_id m.conversation_id client_dedup_key row

unfoldable pub violates_unique : Message → List (ℕ × Message) → Bool
violates_unique m [] = false
violates_unique m ((id, row) ∷ messages) =
    text_beq row.channel_type m.channel_type
      && text_beq row.external_message_id m.external_message_id
    || same_dedup_key m m.client_dedup_key row
    || violates_unique m messages

abbrev pub with_messages : Dict ℕ Message → Server → Server
with_messages messages s = record s { db = record (s.db) { messages = messages } }

-- `enqueue_outbound`
abbrev pub enqueue_outbound : Answers → ℕ → ℕ → Run Server Error (Unit {0})
enqueue_outbound a org_id message_id s =
    if a.queue_fails
    then (err Error.queue_error, s)
    else (ok tt, record s { outbound = s.outbound ++ (org_id, message_id) ∷ [] })

-- After an IntegrityError: the message of the request that committed first, else the error.
abbrev pub lost_race : Option Message → Run Server Error (Message × Bool)
lost_race none s = (err Error.integrity_error, s)
lost_race (some existing) s = (ok (existing, false), s)

-- From `session.add(message)` on.
unfoldable pub insert : Answers → Reply → Message → Run Server Error (Message × Bool)
insert a reply m s =
    let committed = a.concurrent ++ s.db.messages in
    if violates_unique m committed
    then lost_race (find_existing reply reply.client_dedup_key committed)
        (with_messages committed s)
    else (enqueue_outbound a reply.org_id m.id >>= λ _. pure (m, true))
        (with_messages (Dict.put m.id m committed) s)

abbrev pub customer : Option ChannelIdentity → Result Error ChannelIdentity
customer none = err Error.conversation_not_found
customer (some identity) = ok identity

unfoldable pub send_limited :
    Answers → Reply → Text → Option (ℕ × ℕ) → Run Server Error (Message × Bool)
send_limited a reply channel_type limits = do
  check_limits a reply.org_id (rate_limit_action channel_type) limits
  insert a reply (new_message a reply channel_type)

unfoldable pub send_new : Answers → Reply → Text → Run Server Error (Message × Bool)
send_new a reply channel_type =
    send_limited a reply channel_type (Dict.get (rate_limit_action channel_type) rate_limits)

abbrev pub send_or_find :
    Answers → Reply → Text → Option Message → Run Server Error (Message × Bool)
send_or_find a reply channel_type none = send_new a reply channel_type
send_or_find a reply channel_type (some existing) = pure (existing, false)

abbrev pub answer : {A : Type 0} → Result Error A → Run Server Error A
answer r s = (r, s)

unfoldable pub send_reply : Answers → Reply → Run Server Error (Message × Bool)
send_reply a reply = do
  answer (require_role a.memberships reply.user_id reply.org_id non_viewer)
  s ← get_state
  conversation ← answer (load_conversation s.db reply.org_id reply.conversation_id)
  identity ← answer (customer (Dict.get conversation.customer_identity_id s.db.identities))
  send_or_find a reply identity.channel_type
      (find_existing reply reply.client_dedup_key s.db.messages)
