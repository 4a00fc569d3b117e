-- ===== src/Tests/Handlers.antt =====
-- The theorems on replies at concrete inputs.
use a2z_core.Prelude.{◌≡◌, refl, false, true, none, some, [], ◌∷◌}
use a2z_core.Prelude.Text.{codes, text_beq}
use a2z_core.Prelude.Dict
use a2z_core.Prelude.Dict.{Dict, nat_eq}
use a2z_core.Prelude.Run.{ok}
use a2z_core.Core.RateLimit.{check_and_increment, check_window, window_of, evict}
use a2z_core.Core.Role.{Role}
use a2z_core.Omnichannel.Access.{require_role, non_viewer, load_conversation, in_org}
use a2z_core.Omnichannel.Model.{ChannelIdentity, Message}
use a2z_core.Omnichannel.Handlers.{
  Server, Answers, Reply, send_reply, send_new, send_limited, check_limits, insert,
  find_by_dedup_key, violates_unique, new_message,
}
use a2z_core.Omnichannel.Handlers.Replies.{
  Ends, again, send_reply-Ends, send_reply-again, send_reply-queue_error,
}
use a2z_core.Tests.Inbox.{conversation, world}

abbrev customer : ChannelIdentity
customer = record {
  id = 3;
  org_id = 5;
  channel_type = codes "whatsapp";
  external_id = [];
  display_name = none;
}

abbrev server : Server
server = record {
  db = record (world.db) { identities = (3, customer) ∷ [] };
  windows = [];
  outbound = [];
}

abbrev reply : Reply
reply = record {
  org_id = 5;
  conversation_id = 1;
  user_id = 20;
  body_text = codes "Hello";
  client_dedup_key = some (codes "key");
  subject = none;
}

abbrev answers : Answers
answers = record {
  memberships = λ user_id org_id. some Role.admin;
  hz = 1;
  monotonic = 10;
  message_id = 4;
  uuid = codes "1";
  created_at = 10;
  concurrent = [];
  queue_fails = false;
}

abbrev failing : Answers
failing = record answers { queue_fails = true }

-- A request without a key, on which SQS fails.
abbrev keyless : Reply
keyless = record reply { client_dedup_key = none }

send_reply-Ends_example : Ends keyless server (send_reply failing keyless server)
send_reply-Ends_example = send_reply-Ends failing keyless server

send_reply-again_example :
    let s' = (send_reply answers reply server).1 in
    send_reply answers (again 21 (codes "Hi") reply) s'
    ≡ (ok (new_message answers reply (codes "whatsapp"), false), s')
send_reply-again_example =
    send_reply-again answers answers reply server 21 (codes "Hi") (codes "key") Role.admin
      (conversation 1 (some 7)) customer refl (unfold load_conversation in_org Dict.get in refl)
      (unfold Dict.get in refl) (unfold require_role non_viewer in refl)
      (new_message answers reply (codes "whatsapp")) true (send_reply answers reply server).1
      (unfold send_reply send_new send_limited check_limits insert find_by_dedup_key violates_unique
          require_role non_viewer load_conversation in_org Dict.get Dict.put Dict.remove text_beq
          check_and_increment check_window window_of evict in
        refl)

send_reply-queue_error_example :
    let s' = (send_reply failing reply server).1 in
    (m : Message) × (send_reply answers (again 21 (codes "Hi") reply) s' ≡ (ok (m, false), s'))
    × (s'.outbound ≡ [])
send_reply-queue_error_example =
    send_reply-queue_error failing answers reply server 21 (codes "Hi") (codes "key") Role.admin
      (conversation 1 (some 7)) customer refl (unfold load_conversation in_org Dict.get in refl)
      (unfold Dict.get in refl) (unfold require_role non_viewer in refl)
      (send_reply failing reply server).1
      (unfold send_reply send_new send_limited check_limits insert find_by_dedup_key violates_unique
          require_role non_viewer load_conversation in_org Dict.get Dict.put Dict.remove text_beq
          check_and_increment check_window window_of evict in
        refl)
