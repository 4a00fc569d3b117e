-- ===== src/Omnichannel/Access.antt =====
-- app/services/omnichannel/access.py: the role gates and the loading of a conversation for an org.
use a2z_core.Prelude.{ℕ, Bool, true, false, ◌==◌, Option, none, some, if◌then◌else◌}
use a2z_core.Prelude.Dict
use a2z_core.Prelude.Dict.{nat_eq}
use a2z_core.Prelude.Run.{Result, ok, err}
use a2z_core.Core.Role.{Role}
use a2z_core.Omnichannel.Model.{Conversation, Db, Error}

-- `get_membership`, by user and org.
abbrev pub Memberships : Type 0
Memberships = ℕ → ℕ → Option Role

-- `role in NON_VIEWER_ROLES`
unfoldable pub non_viewer : Role → Bool
non_viewer Role.guest = false
non_viewer _ = true

unfoldable pub require_membership : Memberships → ℕ → ℕ → Result Error Role
require_membership memberships user_id org_id = elim (memberships user_id org_id) [
  | none ↦ err Error.not_a_member
  | some role ↦ ok role
]

unfoldable pub require_role : Memberships → ℕ → ℕ → (Role → Bool) → Result Error Role
require_role memberships user_id org_id allowed = elim (memberships user_id org_id) [
  | none ↦ err Error.not_a_member
  | some role ↦ elim (allowed role) [ true ↦ ok role | false ↦ err Error.forbidden ]
]

unfoldable pub in_org : ℕ → Option Conversation → Result Error Conversation
in_org org_id none = err Error.conversation_not_found
in_org org_id (some conversation) =
    if conversation.org_id == org_id then ok conversation else err Error.conversation_not_found

unfoldable pub load_conversation : Db → ℕ → ℕ → Result Error Conversation
load_conversation db org_id conversation_id =
    in_org org_id (Dict.get conversation_id db.conversations)
