-- ===== src/Omnichannel/Routing.antt =====
-- app/services/omnichannel/routing.py: claiming, reassigning and the single-assignee strategy.
pub mod History
use a2z_core.Prelude.{
  ℕ, Bool, true, false, ◌==◌, Option, none, some, List, [], ◌∷◌, ◌++◌, if◌then◌else◌,
}
use a2z_core.Prelude.Dict
use a2z_core.Prelude.Dict.{nat_eq}
use a2z_core.Prelude.Run.{Result, ok, err, ◌>>=◌, ◌>>◌, pure, raise, get_state}
use a2z_core.Core.Role.{owner_or_admin}
use a2z_core.Omnichannel.Access.{
  Memberships, non_viewer, require_membership, require_role, load_conversation,
}
use a2z_core.Omnichannel.Model.{
  Conversation, ConversationAssignment, Actor, Reason, Db, World, EventType, Effect, Error, Call,
  lift, commit, emit_or, emit,
}

-- What the services outside answer to one call.
pub record Env : Type 0 where
  pub memberships : Memberships
  -- the user that the org's settings name under the strategy "single_assignee"
  pub single_assignee : ℕ → Option ℕ
  pub audit_fails : Bool
  pub publish_fails : Bool

abbrev pub assign : Conversation → ℕ → Conversation
assign conversation user_id = record conversation { assigned_user_id = some user_id }

-- `_record_assignment`
unfoldable pub record_assignment : Env → Conversation → ℕ → Actor → Reason → Call Conversation
record_assignment env conversation assigned_user_id assigned_by reason = do
  w ← get_state
  let assigned = assign conversation assigned_user_id
  let row : ConversationAssignment = record {
    org_id = conversation.org_id;
    conversation_id = conversation.id;
    assigned_user_id = assigned_user_id;
    assigned_by = assigned_by;
    reason = reason;
  }
  commit (record (w.db) {
    conversations = Dict.put conversation.id assigned w.db.conversations;
    assignments = w.db.assignments ++ row ∷ [];
  })
  emit_or env.audit_fails Error.audit_error
      (Effect.audited conversation.org_id conversation.id assigned_by)
  emit_or env.publish_fails Error.event_error
      (Effect.published conversation.org_id EventType.conversation_assigned conversation.id)
  emit (Effect.inbox_update conversation.org_id EventType.conversation_assigned conversation.id)
  emit (Effect.notification assigned_user_id EventType.conversation_assigned conversation.id)
  pure assigned

-- A caller who has the conversation keeps it, and one that another user has is not taken.
unfoldable pub claim_loaded : Env → ℕ → Conversation → Option ℕ → Call Conversation
claim_loaded env user_id conversation none =
    record_assignment env conversation user_id (Actor.user user_id) Reason.claimed
claim_loaded env user_id conversation (some assignee) =
    if assignee == user_id then pure conversation else raise Error.already_assigned

unfoldable pub claim : Env → ℕ → ℕ → ℕ → Call Conversation
claim env org_id conversation_id user_id = do
  lift (require_role env.memberships user_id org_id non_viewer)
  w ← get_state
  conversation ← lift (load_conversation w.db org_id conversation_id)
  claim_loaded env user_id conversation conversation.assigned_user_id

unfoldable pub reassign : Env → ℕ → ℕ → ℕ → ℕ → Call Conversation
reassign env org_id conversation_id actor_user_id assignee_user_id = do
  lift (require_role env.memberships actor_user_id org_id owner_or_admin)
  lift (require_membership env.memberships assignee_user_id org_id)
  w ← get_state
  conversation ← lift (load_conversation w.db org_id conversation_id)
  record_assignment env conversation assignee_user_id (Actor.user actor_user_id) Reason.reassigned

unfoldable pub apply_single_assignee_if_configured : Env → Conversation → Call Conversation
apply_single_assignee_if_configured env conversation w =
    elim (env.single_assignee conversation.org_id) [
      | none ↦ (ok conversation, w)
      | some user_id ↦
          record_assignment env conversation user_id Actor.routing Reason.single_assignee w
    ]
