-- ===== src/Tests/Omnichannel.antt =====
-- The theorems on the omni-channel inbox at concrete inputs.
use a2z_core.Prelude.{
  ℕ, true, ◌≡◌, refl, arith, false, Option, none, some, List, [], ◌∷◌, All, map, max, find,
}
use a2z_core.Prelude.Text.{codes, text_beq}
use a2z_core.Prelude.Dict
use a2z_core.Prelude.Dict.{Dict, nat_eq}
use a2z_core.Prelude.Run.{ok}
use a2z_core.Core.Role.{Role}
use a2z_core.Omnichannel.Model.{
  ConversationStatus, Conversation, ChannelConnection, ChannelIdentity, Direction, Message,
  MessageStatus, World,
}
use a2z_core.Omnichannel.Connections.{meta, registry}
use a2z_core.Omnichannel.Routing.{
  Env, claim, apply_single_assignee_if_configured, record_assignment,
}
use a2z_core.Omnichannel.Routing.History.{
  IsReplayable, Request, claiming, reassigning, run, run-IsReplayable, claim-exclusive,
}
use a2z_core.Omnichannel.Worker.Inbound.{
  NormalizedInboundMessage, Answers, find_or_create_identity, find_or_create_conversation, route,
  announce, receive, process_item, process_items,
}
use a2z_core.Omnichannel.Worker.Inbound.Once.{deliveries}
use a2z_core.Omnichannel.Worker.Inbound.Redelivery.{process_items-once}
use a2z_core.Omnichannel.Worker.Delivery.{
  DeliveryStatusUpdate, status_rank, is_failed, is_target, apply_all,
}
use a2z_core.Omnichannel.Worker.Outbound
use a2z_core.Omnichannel.Worker.Outbound.{
  adapter_error, find_connection, identity_of, context, process_outbound_message,
}
use a2z_core.Omnichannel.Worker.Outbound.Retries.{receipts, given_up, receipts-given_up}
use a2z_core.Omnichannel.Worker.Delivery.Ladder.{highest, apply_all-highest}

abbrev env : Env
env = record {
  memberships = λ user_id org_id. some Role.admin;
  single_assignee = λ org_id. some 20;
  audit_fails = false;
  publish_fails = false;
}

abbrev conversation : Option ℕ → Conversation
conversation assigned_user_id = record {
  id = 1;
  org_id = 5;
  customer_identity_id = 3;
  status = ConversationStatus.is_open;
  assigned_user_id = assigned_user_id;
  last_message_at = none;
  last_message_preview = none;
  unread_count = 0;
}

abbrev message : Message
message = record {
  id = 4;
  org_id = 5;
  conversation_id = 1;
  direction = Direction.outbound;
  channel_type = [];
  external_message_id = [];
  subject = none;
  body_text = none;
  content_type = [];
  status = MessageStatus.sent;
  sent_by_user_id = none;
  client_dedup_key = none;
  created_at = 0;
}

abbrev world : Dict ℕ Conversation → Dict ℕ Message → World
world conversations messages = record {
  db = record {
    connections = [];
    identities = [];
    conversations = conversations;
    messages = messages;
    attachments = [];
    assignments = [];
  };
  effects = [];
}

abbrev empty : World
empty = world [] []

abbrev unassigned : World
unassigned = world ((1, conversation none) ∷ []) []

unassigned-IsReplayable : IsReplayable unassigned.db
unfolding Dict.get
unassigned-IsReplayable = record {
  keyed = λ id c h. ground arith;
  assignee = λ id c h. ground arith;
  absent = λ id h. refl;
}

abbrev requests : List (Env × Request)
requests = (env, claiming 5 1 10) ∷ (env, reassigning 5 1 10 11) ∷ []

run-IsReplayable_example : IsReplayable (run requests unassigned).db
run-IsReplayable_example = run-IsReplayable requests unassigned unassigned-IsReplayable

abbrev taken : World
taken = world ((1, conversation (some 10)) ∷ []) []

claim-exclusive_example :
    ((claim env 5 1 11 taken).1 ≡ taken)
    × ((a : Conversation)
        → (claim env 5 1 11 taken).0 ≡ ok a
        → (a ≡ conversation (some 10)) × ◌≡◌ {A = ℕ} 11 10)
claim-exclusive_example =
    claim-exclusive env 5 1 10 11 taken (conversation (some 10)) (unfold Dict.get in refl) refl

abbrev item : NormalizedInboundMessage
item = record {
  external_id = 1 ∷ [];
  display_name = none;
  external_message_id = 2 ∷ [];
  body_text = some (104 ∷ 105 ∷ []);
  content_type = [];
  attachments = [];
}

abbrev answers : ℕ → Answers
answers n = record {
  identity_id = n;
  conversation_id = n;
  message_id = n;
  created_at = 0;
  now = n;
  uploaded = some [];
  env = env;
}

abbrev payload : ℕ → List (Answers × NormalizedInboundMessage)
payload n = (answers n, item) ∷ []

process_items-once_example :
    let w' = (process_items 5 [] (payload 1) empty).1 in
    All (λ p. deliveries [] p.1.external_message_id w'.db ≡ 1) (payload 1)
    × (process_items 5 [] (payload 2) w' ≡ (ok tt, w'))
process_items-once_example =
    process_items-once 5 [] (payload 1) (payload 2) empty (unfold Dict.get in refl, tt)
      (λ t e. omega arith)
      (unfold process_items process_item find_or_create_identity find_or_create_conversation receive
          route announce apply_single_assignee_if_configured record_assignment in
        refl)
      refl

abbrev update : MessageStatus → DeliveryStatusUpdate
update status = record { external_message_id = []; status = status }

abbrev updates : List DeliveryStatusUpdate
updates = update MessageStatus.read ∷ update MessageStatus.delivered ∷ []

apply_all-highest_example :
    (m : Message) × (find
        (is_target 5 [] [])
        (apply_all 5 [] updates (world [] ((4, message) ∷ []))).db.messages
      ≡ some (4, m))
    × (status_rank m.status
        ≡ max (status_rank MessageStatus.sent) (highest (map (λ u. u.status) updates)))
apply_all-highest_example =
    apply_all-highest 5 [] [] updates (world [] ((4, message) ∷ [])) 4 message
      ((refl, unfold is_failed in refl), ((refl, unfold is_failed in refl), tt))
      (unfold text_beq in refl)

abbrev identity : ChannelIdentity
identity = record {
  id = 3;
  org_id = 5;
  channel_type = codes "whatsapp";
  external_id = [];
  display_name = none;
}

abbrev connection : ChannelConnection
connection = record {
  id = 8;
  org_id = 5;
  channel_type = codes "whatsapp";
  display_name = [];
  provider_account_id = [];
  is_active = true;
  created_at = 0;
  credentials_secret_key = [];
}

abbrev queued : Message
queued = record message { channel_type = codes "whatsapp"; status = MessageStatus.queued }

abbrev outbox : World
outbox = record {
  db = record (unassigned.db) {
    connections = connection ∷ [];
    identities = (3, identity) ∷ [];
    messages = (4, queued) ∷ [];
  };
  effects = [];
}

abbrev outage : Outbound.Env
outage = record {
  secret_fails = false;
  send_outbound = λ i m. adapter_error;
  publish_fails = false;
}

receipts-given_up_example :
    let w' = receipts outage 4 6 outbox in
    ((process_outbound_message outage 4 7 w').0 ≡ ok false)
    × (Dict.get 4 w'.db.messages ≡ some (given_up 6 queued))
    × (context w'.db queued ≡ some identity)
    × (w'.effects ≡ outbox.effects)
receipts-given_up_example =
    receipts-given_up outage 4 identity meta refl (λ i m. refl) 6 queued outbox
      (unfold registry text_beq in refl) (unfold Dict.get in refl)
      (unfold context identity_of find_connection text_beq Dict.get in refl)
