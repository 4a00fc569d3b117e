-- ===== src/Omnichannel/Worker/Delivery.antt =====
-- `_apply_delivery_status` of app/services/omnichannel/worker.py.
pub mod Ladder
use a2z_core.Prelude.{
  ℕ, Bool, true, false, ◌==◌, ◌&&◌, leb, Option, none, some, List, [], ◌∷◌, find, if◌then◌else◌,
}
use a2z_core.Prelude.Text.{Text, text_beq}
use a2z_core.Prelude.Dict
use a2z_core.Prelude.Dict.{Dict, nat_eq}
use a2z_core.Omnichannel.Model.{MessageStatus, Message, Db, World, EventType, Effect}

pub record DeliveryStatusUpdate : Type 0 where
  pub external_message_id : Text
  pub status : MessageStatus

-- One more than `_STATUS_RANK.get(status, -1)`.
unfoldable pub status_rank : MessageStatus → ℕ
status_rank MessageStatus.received = 0
status_rank MessageStatus.failed = 0
status_rank MessageStatus.queued = 1
status_rank MessageStatus.sent = 2
status_rank MessageStatus.delivered = 3
status_rank MessageStatus.read = 4

unfoldable pub is_failed : MessageStatus → Bool
is_failed MessageStatus.failed = true
is_failed _ = false

-- The update does not apply.
abbrev pub is_stale : MessageStatus → MessageStatus → Bool
is_stale new old = if is_failed new then false else leb (status_rank new) (status_rank old)

-- The `where` of the lookup; `uq_message_idempotency` leaves at most one row.
abbrev pub is_target : ℕ → Text → Text → ℕ × Message → Bool
is_target org_id channel_type external_message_id row =
    row.1.org_id == org_id
    && text_beq row.1.channel_type channel_type
    && text_beq row.1.external_message_id external_message_id

-- `commit` and `publish_update`.
unfoldable pub set_status : ℕ → DeliveryStatusUpdate → ℕ × Message → World → World
set_status org_id update (id, message) w =
    if is_stale update.status message.status then w else record {
      db = record (w.db) {
        messages = Dict.put id (record message { status = update.status }) w.db.messages;
      };
      effects =
          Effect.inbox_update org_id EventType.message_status message.conversation_id ∷ w.effects;
    }

unfoldable pub apply_delivery_status : ℕ → Text → DeliveryStatusUpdate → World → World
apply_delivery_status org_id channel_type update w =
    elim (find (is_target org_id channel_type update.external_message_id) w.db.messages) [
      | none ↦ w
      | some row ↦ set_status org_id update row w
    ]

-- The loop over the updates of a payload.
unfoldable pub apply_all : ℕ → Text → List DeliveryStatusUpdate → World → World
apply_all org_id channel_type [] w = w
apply_all org_id channel_type (u ∷ us) w =
    apply_all org_id channel_type us (apply_delivery_status org_id channel_type u w)
