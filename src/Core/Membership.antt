-- ===== src/Core/Membership.antt =====
-- app/core/membership.py: the tenancy model, users in orgs with a role. The table's key prefixes
-- (`USER#…/METADATA`, `ORG#…/METADATA`, `USER#…/ORG#…`) keep its three kinds of item apart, so each
-- kind has its own dict; DynamoDB's conditional writes are tests on them.
pub mod Refinement
pub mod Members
use a2z_core.Prelude.{
  ℕ, Bool, true, false, not, ◌==◌, Option, none, some, List, [], ◌∷◌, select, map, leb,
  if◌then◌else◌,
}
use a2z_core.Prelude.Text.{Text}
use a2z_core.Prelude.Dict
use a2z_core.Prelude.Dict.{Dict, nat_eq, pair_eq}
use a2z_core.Prelude.Run.{Run, Result, ok, err, ◌>>=◌, ◌>>◌, pure, raise, get_state, set_state}
use a2z_core.Core.Role.{Role, role_order}

pub record Membership : Type 0 where
  pub user_id : ℕ
  pub org_id : ℕ
  pub role : Role
  pub joined_at : ℕ

pub record Org : Type 0 where
  pub org_id : ℕ
  pub name : Text
  pub owner_id : ℕ
  pub created_at : ℕ

pub data Action : Type 0 where
  org_created member_added member_role_changed member_removed : Action

pub data Effect : Type 0 where
  -- `log_audit` and `publish_event`, with the org and the user that they are about
  audited published : Action → ℕ → ℕ → Effect

pub record Table : Type 0 where
  pub users : Dict ℕ Text
  pub orgs : Dict ℕ Org
  -- by user and org
  pub members : Dict (ℕ × ℕ) Membership
  pub effects : List Effect

pub data Error : Type 0 where
  already_exists not_found membership_error audit_error event_error : Error

-- What the services outside answer to one call.
pub record Env : Type 0 where
  pub now : ℕ
  -- the slug of the org's name with a fresh uuid
  pub fresh_org_id : ℕ
  -- a ClientError other than a failed condition
  pub write_fails : Bool
  pub audit_fails : Bool
  pub publish_fails : Bool

abbrev pub Call : Type 0 → Type 0
Call = Run Table Error

unfoldable pub emit : Bool → Error → Effect → Call (Unit {0})
emit true e x t = (err e, t)
emit false e x t = (ok tt, record t { effects = x ∷ t.effects })

abbrev pub log_audit : Env → Action → ℕ → ℕ → Call (Unit {0})
log_audit env action org_id user_id =
    emit env.audit_fails Error.audit_error (Effect.audited action org_id user_id)

abbrev pub publish_event : Env → Action → ℕ → ℕ → Call (Unit {0})
publish_event env action org_id user_id =
    emit env.publish_fails Error.event_error (Effect.published action org_id user_id)

-- `get_membership`
abbrev pub get_membership : ℕ → ℕ → Table → Option Membership
get_membership user_id org_id t = Dict.get (user_id, org_id) t.members

-- A write under a condition, which DynamoDB tests before anything is written.
unfoldable pub write_if : Env → Bool → Error → (Table → Table) → Call (Unit {0})
write_if env condition failed f t = elim env.write_fails [
  | true ↦ (err Error.membership_error, t)
  | false ↦ elim condition [ true ↦ (ok tt, f t) | false ↦ (err failed, t) ]
]

abbrev pub exists {ℓ} : {A : Type ℓ} → Option A → Bool
exists none = false
exists (some a) = true

abbrev pub put_member : Membership → Table → Table
put_member m t = record t { members = Dict.put (m.user_id, m.org_id) m t.members }

unfoldable pub create_org : Env → Text → ℕ → Call Org
create_org env name owner_id = do
  let org_id = env.fresh_org_id
  let org : Org = record { org_id = org_id; name = name; owner_id = owner_id; created_at = env.now }
  let owner : Membership = record {
    user_id = owner_id;
    org_id = org_id;
    role = Role.owner;
    joined_at = env.now;
  }
  write_if env true Error.membership_error
      (λ t. put_member owner (record t { orgs = Dict.put org_id org t.orgs }))
  log_audit env Action.org_created org_id owner_id
  pure org

unfoldable pub add_member : Env → ℕ → ℕ → Role → Call Membership
add_member env org_id user_id role = do
  let m : Membership = record {
    user_id = user_id;
    org_id = org_id;
    role = role;
    joined_at = env.now;
  }
  t ← get_state
  write_if env (not (exists (get_membership user_id org_id t))) Error.already_exists (put_member m)
  log_audit env Action.member_added org_id user_id
  publish_event env Action.member_added org_id user_id
  pure m

unfoldable pub with_role : Env → ℕ → ℕ → Role → Option Membership → Membership
with_role env org_id user_id role none = record {
  user_id = user_id;
  org_id = org_id;
  role = role;
  joined_at = env.now;
}
with_role env org_id user_id role (some m) = record m { role = role }

unfoldable pub change_role : Env → ℕ → ℕ → Role → Call Membership
change_role env org_id user_id new_role = do
  t ← get_state
  let old = get_membership user_id org_id t
  let new = with_role env org_id user_id new_role old
  write_if env (exists old) Error.not_found
      (λ t. record t { members = Dict.put (user_id, org_id) new t.members })
  log_audit env Action.member_role_changed org_id user_id
  publish_event env Action.member_role_changed org_id user_id
  pure new

unfoldable pub remove_member : Env → ℕ → ℕ → Call (Unit {0})
remove_member env org_id user_id = do
  t ← get_state
  write_if env (exists (get_membership user_id org_id t)) Error.not_found
      (λ t. record t { members = Dict.remove (user_id, org_id) t.members })
  log_audit env Action.member_removed org_id user_id
  publish_event env Action.member_removed org_id user_id

-- The failed condition is caught: the user is there already.
unfoldable pub create_user_if_not_exists : Env → ℕ → Text → Call (Unit {0})
create_user_if_not_exists env user_id email t = elim env.write_fails [
  | true ↦ (err Error.membership_error, t)
  | false ↦ elim (exists (Dict.get user_id t.users)) [
    | true ↦ (ok tt, t)
    | false ↦ (ok tt, record t { users = Dict.put user_id email t.users })
  ]
]

-- `members.sort(key=…)`, which is stable.
unfoldable pub insert_member : Membership → List Membership → List Membership
insert_member m [] = m ∷ []
insert_member m (n ∷ ms) =
    let rest = insert_member m ms in
    if leb (role_order m.role) (role_order n.role) then m ∷ n ∷ ms else n ∷ rest

unfoldable pub sort_members : List Membership → List Membership
sort_members [] = []
sort_members (m ∷ ms) = insert_member m (sort_members ms)

-- The org's rows of the index GSI1.
abbrev pub rows_of_org : ℕ → Table → List Membership
rows_of_org org_id t = select (λ m. m.org_id == org_id) (map (λ kv. kv.1) t.members)

-- DynamoDB's `query`: the first page of the rows that the condition selects, and whether it comes
-- with a LastEvaluatedKey since there are more.
pub record Query : Type 0 where
  pub items : List Membership → List Membership
  pub has_more : List Membership → Bool

-- `list_org_members`: one query, of which the LastEvaluatedKey is not read, then the sort.
abbrev pub list_org_members : Query → ℕ → Table → List Membership
list_org_members query org_id t = sort_members (query.items (rows_of_org org_id t))
