-- ===== src/Core/Membership/Refinement.antt =====
-- The table of app/core/membership.py and the partial map from users and orgs to roles.
use a2z_core.Prelude.{
  ℕ, not, ◌≡◌, refl, ◌∙◌, ap, inl, inr, Bool, true, false, Option, none, some, List, [], ◌∷◌,
  if◌then◌else◌, arith, Bool-cases,
}
use a2z_core.Prelude.Text.{Text}
use a2z_core.Prelude.Dict
use a2z_core.Prelude.Dict.{Dict, nat_eq, pair_eq, get-put, get-remove}
use a2z_core.Core.Role.{Role}
use a2z_core.Core.Membership.{
  Membership, Table, Env, exists, emit, write_if, with_role, create_org, add_member, change_role,
  remove_member, create_user_if_not_exists,
}

pub data Mutation : Type 0 where
  create : Text → ℕ → Mutation
  add change : ℕ → ℕ → Role → Mutation
  remove : ℕ → ℕ → Mutation
  create_user : ℕ → Text → Mutation

unfoldable pub apply : Env → Mutation → Table → Table
apply env (create name owner_id) t = (create_org env name owner_id t).1
apply env (add org_id user_id role) t = (add_member env org_id user_id role t).1
apply env (change org_id user_id role) t = (change_role env org_id user_id role t).1
apply env (remove org_id user_id) t = (remove_member env org_id user_id t).1
apply env (create_user user_id email) t = (create_user_if_not_exists env user_id email t).1

-- Who has which role in which org, by user and org.
abbrev pub Roles : Type 0
Roles = ℕ × ℕ → Option Role

abbrev role_of : Option Membership → Option Role
role_of none = none
role_of (some m) = some m.role

abbrev pub roles : Table → Roles
roles t k = role_of (Dict.get k t.members)

-- The map with another value at one key.
abbrev pub set_at : ℕ × ℕ → Option Role → Roles → Roles
set_at j r f k = if pair_eq.beq j k then r else f k

-- The map after a mutation whose write went through.
abbrev pub effect : Env → Mutation → Roles → Roles
effect env (create name owner_id) f = set_at (owner_id, env.fresh_org_id) (some Role.owner) f
effect env (add org_id user_id role) f =
    if exists (f (user_id, org_id)) then f else set_at (user_id, org_id) (some role) f
effect env (change org_id user_id role) f =
    if exists (f (user_id, org_id)) then set_at (user_id, org_id) (some role) f else f
effect env (remove org_id user_id) f =
    if exists (f (user_id, org_id)) then set_at (user_id, org_id) none f else f
effect env (create_user user_id email) f = f

abbrev pub abstract_apply : Env → Mutation → Roles → Roles
abstract_apply env m f = if env.write_fails then f else effect env m f

-- A value of the env's three outcomes and of a condition.
outcomes :
    (env : Env) (condition : Bool) (P : Type 0)
    → (env.write_fails ≡ true → P)
    → (env.write_fails ≡ false → condition ≡ false → P)
    → (env.write_fails ≡ false → condition ≡ true → env.audit_fails ≡ true → P)
    → (env.write_fails ≡ false
        → condition ≡ true
        → env.audit_fails ≡ false
        → env.publish_fails ≡ true
        → P)
    → (env.write_fails ≡ false
        → condition ≡ true
        → env.audit_fails ≡ false
        → env.publish_fails ≡ false
        → P)
    → P
outcomes env condition P failed refused unlogged unpublished done =
    elim (Bool-cases env.write_fails) [
      | inl f ↦ failed f
      | inr w ↦ elim (Bool-cases condition) [
        | inr r ↦ refused w r
        | inl c ↦ elim (Bool-cases env.audit_fails) [
          | inl f ↦ unlogged w c f
          | inr a ↦ elim (Bool-cases env.publish_fails) [
            | inl f ↦ unpublished w c a f
            | inr p ↦ done w c a p
          ]
        ]
      ]
    ]

-- What each call leaves of the members: the audit log and the events do not matter.
module _ (env : Env) (t : Table) where
  create_org-members :
      (name : Text) (owner_id : ℕ)
      → (create_org env name owner_id t).1.members ≡ (
          if env.write_fails
          then t.members
          else Dict.put
              (owner_id, env.fresh_org_id)
              (record {
                user_id = owner_id;
                org_id = env.fresh_org_id;
                role = Role.owner;
                joined_at = env.now;
              })
              t.members)
  unfolding create_org write_if emit
  create_org-members name owner_id =
      outcomes env true _ (λ f. ground arith) (λ w c. ground arith) (λ w c a. ground arith)
        (λ w c a p. ground arith) (λ w c a p. ground arith)

  add_member-members :
      (org_id user_id : ℕ) (role : Role)
      → (add_member env org_id user_id role t).1.members ≡ (
          if env.write_fails
          then t.members
          else if exists (Dict.get (user_id, org_id) t.members)
          then t.members
          else Dict.put
              (user_id, org_id)
              (record { user_id = user_id; org_id = org_id; role = role; joined_at = env.now })
              t.members)
  unfolding add_member write_if emit
  add_member-members org_id user_id role =
      outcomes env (not (exists (Dict.get (user_id, org_id) t.members))) _ (λ f. ground arith)
        (λ w c. ground arith) (λ w c a. ground arith) (λ w c a p. ground arith)
        (λ w c a p. ground arith)

  change_role-members :
      (org_id user_id : ℕ) (role : Role)
      → (change_role env org_id user_id role t).1.members ≡ (
          if env.write_fails
          then t.members
          else if exists (Dict.get (user_id, org_id) t.members)
          then Dict.put
              (user_id, org_id)
              (with_role env org_id user_id role (Dict.get (user_id, org_id) t.members))
              t.members
          else t.members)
  unfolding change_role write_if emit
  change_role-members org_id user_id role =
      outcomes env (exists (Dict.get (user_id, org_id) t.members)) _ (λ f. ground arith)
        (λ w c. ground arith) (λ w c a. ground arith) (λ w c a p. ground arith)
        (λ w c a p. ground arith)

  remove_member-members :
      (org_id user_id : ℕ)
      → (remove_member env org_id user_id t).1.members ≡ (
          if env.write_fails
          then t.members
          else if exists (Dict.get (user_id, org_id) t.members)
          then Dict.remove (user_id, org_id) t.members
          else t.members)
  unfolding remove_member write_if emit
  remove_member-members org_id user_id =
      outcomes env (exists (Dict.get (user_id, org_id) t.members)) _ (λ f. ground arith)
        (λ w c. ground arith) (λ w c a. ground arith) (λ w c a p. ground arith)
        (λ w c a p. ground arith)

exists-role_of : (o : Option Membership) → exists (role_of o) ≡ exists o
exists-role_of none = refl
exists-role_of (some m) = refl

role_of-if :
    (b : Bool) (x y : Option Membership)
    → role_of (if b then x else y) ≡ (if b then role_of x else role_of y)
role_of-if true x y = refl
role_of-if false x y = refl

role-with_role :
    (env : Env) (org_id user_id : ℕ) (role : Role) (o : Option Membership)
    → (with_role env org_id user_id role o).role ≡ role
unfolding with_role
role-with_role env org_id user_id role none = refl
role-with_role env org_id user_id role (some m) = refl

apply-at :
    (env : Env) (m : Mutation) (t : Table) (k : ℕ × ℕ)
    → roles (apply env m t) k ≡ abstract_apply env m (roles t) k
unfolding apply
apply-at env (create name owner_id) t k =
    rw (create_org-members env t name owner_id) (elim (Bool-cases env.write_fails) [
      | inl failed ↦ rw failed refl
      | inr done ↦ rw done (rw (get-put, role_of-if) refl)
    ])
apply-at env (add org_id user_id role) t k =
    rw (add_member-members env t org_id user_id role, exists-role_of)
      (elim (Bool-cases env.write_fails) [
        | inl failed ↦ rw failed refl
        | inr done ↦ elim (Bool-cases (exists (Dict.get (user_id, org_id) t.members))) [
          | inl there ↦ rw (done, there) refl
          | inr new ↦ rw (done, new) (rw (get-put, role_of-if) refl)
        ]
      ])
apply-at env (change org_id user_id role) t k =
    rw (change_role-members env t org_id user_id role, exists-role_of)
      (elim (Bool-cases env.write_fails) [
        | inl failed ↦ rw failed refl
        | inr done ↦ elim (Bool-cases (exists (Dict.get (user_id, org_id) t.members))) [
          | inl there ↦ rw (done, there) (rw (get-put, role_of-if, role-with_role) refl)
          | inr new ↦ rw (done, new) refl
        ]
      ])
apply-at env (remove org_id user_id) t k =
    rw (remove_member-members env t org_id user_id, exists-role_of)
      (elim (Bool-cases env.write_fails) [
        | inl failed ↦ rw failed refl
        | inr done ↦ elim (Bool-cases (exists (Dict.get (user_id, org_id) t.members))) [
          | inl there ↦ rw (done, there) (rw (get-remove, role_of-if) refl)
          | inr new ↦ rw (done, new) refl
        ]
      ])
apply-at env (create_user user_id email) t k =
    unfold create_user_if_not_exists in
    elim (Bool-cases env.write_fails) [
      | inl failed ↦ ground arith
      | inr done ↦ elim (Bool-cases (exists (Dict.get user_id t.users))) [
        | inl there ↦ ground arith
        | inr new ↦ ground arith
      ]
    ]

-- A sequence of mutations, each with what the outside answers to it.
unfoldable pub run : List (Env × Mutation) → Table → Table
unfolding apply
run [] t = t
run ((env, m) ∷ ms) t = run ms (apply env m t)

abbrev pub abstract_run : List (Env × Mutation) → Roles → Roles
abstract_run [] f = f
abstract_run ((env, m) ∷ ms) f = abstract_run ms (abstract_apply env m f)

-- After any sequence of mutations, with any failures, the roles in the table are those of the
-- abstract map: an org's creator owns it, a user is added only where absent, a role changes only
-- where there is one, a removed user has none, nobody else is affected, and a failed audit write or
-- event leaves the mutation done.
pub run-refines :
    (ms : List (Env × Mutation)) (t : Table) → roles (run ms t) ≡ abstract_run ms (roles t)
unfolding run
run-refines [] t = refl
run-refines ((env, m) ∷ ms) t =
    run-refines ms (apply env m t) ∙ ap (abstract_run ms) (λ i k. apply-at env m t k i)
