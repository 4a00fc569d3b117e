-- ===== src/Omnichannel/Model.antt =====
-- The tables of app/services/omnichannel/models.py, the errors of exceptions.py, and what a call of
-- the service leaves outside of Postgres. Ids are only compared, so numbers stand for them.
use a2z_core.Prelude.{ℕ, Bool, true, false, Option, List, ◌∷◌}
use a2z_core.Prelude.Text.{Text}
use a2z_core.Prelude.Dict.{Dict}
use a2z_core.Prelude.Run.{Result, Run, ok, err}

-- `MessageStatus`, with the `received` of inbound messages.
pub data MessageStatus : Type 0 where
  received queued sent delivered read failed : MessageStatus

pub data Direction : Type 0 where
  inbound outbound : Direction

pub record ChannelConnection : Type 0 where
  pub id : ℕ
  pub org_id : ℕ
  pub channel_type : Text
  pub display_name : Text
  pub provider_account_id : Text
  pub is_active : Bool
  pub created_at : ℕ
  pub credentials_secret_key : Text

pub record ChannelIdentity : Type 0 where
  pub id : ℕ
  pub org_id : ℕ
  pub channel_type : Text
  pub external_id : Text
  pub display_name : Option Text

pub data ConversationStatus : Type 0 where
  is_open pending closed : ConversationStatus

pub record Conversation : Type 0 where
  pub id : ℕ
  pub org_id : ℕ
  pub customer_identity_id : ℕ
  pub status : ConversationStatus
  pub assigned_user_id : Option ℕ
  pub last_message_at : Option ℕ
  pub last_message_preview : Option Text
  pub unread_count : ℕ

pub record Message : Type 0 where
  pub id : ℕ
  pub org_id : ℕ
  pub conversation_id : ℕ
  pub direction : Direction
  pub channel_type : Text
  pub external_message_id : Text
  pub subject : Option Text
  pub body_text : Option Text
  pub content_type : Text
  pub status : MessageStatus
  pub sent_by_user_id : Option ℕ
  pub client_dedup_key : Option Text
  pub created_at : ℕ

pub record MessageAttachment : Type 0 where
  pub message_id : ℕ
  pub org_id : ℕ
  pub s3_key : Text
  pub content_type : Text
  pub size_bytes : ℕ

-- Who assigned a conversation: a user, or the strategy ("routing:single_assignee").
pub data Actor : Type 0 where
  user : ℕ → Actor
  routing : Actor

pub data Reason : Type 0 where
  claimed reassigned single_assignee : Reason

pub record ConversationAssignment : Type 0 where
  pub org_id : ℕ
  pub conversation_id : ℕ
  pub assigned_user_id : ℕ
  pub assigned_by : Actor
  pub reason : Reason

pub record Db : Type 0 where
  pub connections : List ChannelConnection
  pub identities : Dict ℕ ChannelIdentity
  pub conversations : Dict ℕ Conversation
  pub messages : Dict ℕ Message
  pub attachments : List MessageAttachment
  pub assignments : List ConversationAssignment

pub data EventType : Type 0 where
  message_received message_sent message_status conversation_assigned : EventType

pub data Effect : Type 0 where
  -- `log_audit` of an assignment, `publish_event` of an org's event on a conversation
  audited : ℕ → ℕ → Actor → Effect
  published : ℕ → EventType → ℕ → Effect
  -- `publish_update` on the channel of an org's conversations, and on that of a user's notifications
  inbox_update : ℕ → EventType → ℕ → Effect
  notification : ℕ → EventType → ℕ → Effect

pub record World : Type 0 where
  pub db : Db
  pub effects : List Effect

pub data Error : Type 0 where
  -- NotFoundError, ForbiddenError, ConversationNotFoundError, ConversationAlreadyAssignedError
  not_a_member forbidden conversation_not_found already_assigned : Error
  invalid_query : Error
  -- the errors of `log_audit`, `publish_event`, `upload_file`, `get_secret`
  audit_error event_error storage_error secret_error : Error
  -- RateLimitError with its `retry_after`, IndexError, IntegrityError, and the errors of SQS
  rate_limit_error : ℕ → Error
  index_error integrity_error queue_error : Error
  -- ConnectionNotFoundError, ConnectionValidationError, ChannelAdapterError, WebhookSignatureError, what
  -- `json.loads` raises, and the errors of `start_domain_verification`
  connection_not_found connection_invalid adapter_error signature_error json_error : Error
  verification_error : Error

abbrev pub Call : Type 0 → Type 0
Call = Run World Error

abbrev pub lift : {A : Type 0} → Result Error A → Call A
lift r w = (r, w)

-- `session.commit()` of the rows as they have been changed.
abbrev pub commit : Db → Call (Unit {0})
commit db w = (ok tt, record w { db = db })

-- A call outside of Postgres that can raise.
abbrev pub emit_or : Bool → Error → Effect → Call (Unit {0})
emit_or fails e x w = elim fails [
  | true ↦ (err e, w)
  | false ↦ (ok tt, record w { effects = x ∷ w.effects })
]

abbrev pub emit : Effect → Call (Unit {0})
emit x w = (ok tt, record w { effects = x ∷ w.effects })
