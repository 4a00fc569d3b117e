-- ===== src/Omnichannel/Handlers/Raises.antt =====
-- The errors of the checks of `send_reply` in app/services/omnichannel/handlers.py are none of SQS.
use a2z_core.Prelude.{
  ℕ, ◌≡◌, ◌≢◌, refl, sym, ◌∙◌, inl, inr, ◌==◌, Option, none, some, Bool-cases, Option-cases,
}
use a2z_core.Prelude.Text.{text_eq, scoped_eq}
use a2z_core.Prelude.Dict.{nat_eq}
use a2z_core.Prelude.Run.{ok, err}
use a2z_core.Core.RateLimit.{Outcome}
use a2z_core.Omnichannel.Access.{Memberships, non_viewer, require_role, in_org}
use a2z_core.Omnichannel.Model.{ChannelIdentity, Conversation, Error}
use a2z_core.Omnichannel.Handlers.{limit_result, customer}

pub require_role-raises :
    (memberships : Memberships) (user_id org_id : ℕ) (e : Error)
    → require_role memberships user_id org_id non_viewer ≡ err e
    → e ≢ Error.queue_error
unfolding require_role
require_role-raises memberships user_id org_id e h q =
    elim (Option-cases (memberships user_id org_id)) [
      | inl missing ↦
          let r : require_role memberships user_id org_id non_viewer ≡ err Error.not_a_member =
            rw (require_role, missing) refl in
          let both = sym r ∙ h in cc
      | inr (role, found) ↦ elim (Bool-cases (non_viewer role)) [
        | inl may ↦
            let r : require_role memberships user_id org_id non_viewer ≡ ok role =
              rw (require_role, found, may) refl in
            let both = sym r ∙ h in cc
        | inr may_not ↦
            let r : require_role memberships user_id org_id non_viewer ≡ err Error.forbidden =
              rw (require_role, found, may_not) refl in
            let both = sym r ∙ h in cc
      ]
    ]

pub in_org-raises :
    (org_id : ℕ) (found : Option Conversation) (e : Error)
    → in_org org_id found ≡ err e
    → e ≢ Error.queue_error
unfolding in_org
in_org-raises org_id none e h q = cc
in_org-raises org_id (some conversation) e h q = elim (Bool-cases (conversation.org_id == org_id)) [
  | inl own ↦
      let r : in_org org_id (some conversation) ≡ ok conversation = rw own refl in
      let both = sym r ∙ h in cc
  | inr foreign ↦
      let r : in_org org_id (some conversation) ≡ err Error.conversation_not_found =
        rw foreign refl in
      let both = sym r ∙ h in cc
]

pub customer-raises :
    (found : Option ChannelIdentity) (e : Error) → customer found ≡ err e → e ≢ Error.queue_error
customer-raises none e h q = cc
customer-raises (some identity) e h q = cc

pub limit_result-raises :
    (outcome : Outcome) (e : Error) → limit_result outcome ≡ err e → e ≢ Error.queue_error
limit_result-raises Outcome.recorded e h q = cc
limit_result-raises (Outcome.rate_limited n) e h q = cc
limit_result-raises Outcome.index_error e h q = cc
