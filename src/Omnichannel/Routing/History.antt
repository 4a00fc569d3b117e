-- ===== src/Omnichannel/Routing/History.antt =====
-- The history of assignments and the claims (app/services/omnichannel/routing.py).
use a2z_core.Prelude.{
  ℕ, ◌≡◌, refl, ◌∙◌, ap, ◌⊎◌, inl, inr, ◌==◌, Option, none, some, List, [], ◌∷◌, ◌++◌,
  if◌then◌else◌, arith, Bool-cases, Option-cases,
}
use a2z_core.Prelude.Dict
use a2z_core.Prelude.Dict.{nat_eq, get-put}
use a2z_core.Prelude.Run.{ok, Result-cases}
use a2z_core.Core.Role.{owner_or_admin}
use a2z_core.Omnichannel.Access.{
  non_viewer, require_membership, require_role, in_org, load_conversation,
}
use a2z_core.Omnichannel.Model.{Conversation, ConversationAssignment, Actor, Reason, Db, World}
use a2z_core.Omnichannel.Routing.{Env, assign, record_assignment, claim_loaded, claim, reassign}

-- The assignee that the history gives a conversation, starting from one: that of its last row.
abbrev pub replay_from : ℕ → Option ℕ → List ConversationAssignment → Option ℕ
replay_from id last [] = last
replay_from id last (row ∷ rows) =
    replay_from id (if row.conversation_id == id then some row.assigned_user_id else last) rows

abbrev pub replay : ℕ → List ConversationAssignment → Option ℕ
replay id = replay_from id none

-- Every conversation has its primary key and the assignee that the history gives it, and only
-- conversations that are there have a history.
pub record IsReplayable (db : Db) : Type 0 where
  pub keyed : (id : ℕ) (c : Conversation) → Dict.get id db.conversations ≡ some c → c.id ≡ id
  pub assignee :
      (id : ℕ) (c : Conversation)
      → Dict.get id db.conversations ≡ some c
      → c.assigned_user_id ≡ replay id db.assignments
  pub absent : (id : ℕ) → Dict.get id db.conversations ≡ none → replay id db.assignments ≡ none

replay_from-append :
    (id : ℕ) (last : Option ℕ) (rows : List ConversationAssignment) (row : ConversationAssignment)
    → replay_from id last (rows ++ row ∷ [])
      ≡ (if row.conversation_id == id then some row.assigned_user_id else replay_from id last rows)
replay_from-append id last [] row = refl
replay_from-append id last (x ∷ rows) row =
    replay_from-append id (if x.conversation_id == id then some x.assigned_user_id else last) rows
      row

abbrev pub assigned_db : Conversation → ℕ → Actor → Reason → Db → Db
assigned_db conversation user_id actor reason db = record db {
  conversations = Dict.put conversation.id (assign conversation user_id) db.conversations;
  assignments =
      db.assignments
      ++ record {
        org_id = conversation.org_id;
        conversation_id = conversation.id;
        assigned_user_id = user_id;
        assigned_by = actor;
        reason = reason;
      }
        ∷ [];
}

-- However the audit log and the events answer, the assignment has been committed.
pub record_assignment-db :
    (env : Env) (conversation : Conversation) (user_id : ℕ) (actor : Actor) (reason : Reason)
    (w : World)
    → (record_assignment env conversation user_id actor reason w).1.db
      ≡ assigned_db conversation user_id actor reason w.db
unfolding record_assignment
record_assignment-db env conversation user_id actor reason w = elim (Bool-cases env.audit_fails) [
  | inl failed ↦ ground arith
  | inr logged ↦ elim (Bool-cases env.publish_fails) [
    | inl failed ↦ ground arith
    | inr done ↦ ground arith
  ]
]

pub assigned_db-IsReplayable :
    (conversation : Conversation) (user_id : ℕ) (actor : Actor) (reason : Reason) (db : Db)
    → IsReplayable db
    → Dict.get conversation.id db.conversations ≡ some conversation
    → IsReplayable (assigned_db conversation user_id actor reason db)
assigned_db-IsReplayable conversation user_id actor reason db v present =
    let id = conversation.id in
    record {
      keyed = λ j c h. elim (Bool-cases (id == j)) [
        | inl same ↦
            let e : some (assign conversation user_id) ≡ some c = rw (get-put, same) at h in
            ground (arith, e, same)
        | inr other ↦ v.keyed j c (rw (get-put, other) at h)
      ];
      assignee = λ j c h. elim (Bool-cases (id == j)) [
        | inl same ↦
            let e : some (assign conversation user_id) ≡ some c = rw (get-put, same) at h in
            rw (replay_from-append j none db.assignments _) (rw same (ground (arith, e)))
        | inr other ↦
            rw (replay_from-append j none db.assignments _)
              (rw other (v.assignee j c (rw (get-put, other) at h)))
      ];
      absent = λ j h. elim (Bool-cases (id == j)) [
        | inl same ↦
            absurd
              (let e : some (assign conversation user_id) ≡ none = rw (get-put, same) at h in cc)
        | inr other ↦
            rw (replay_from-append j none db.assignments _)
              (rw other (v.absent j (rw (get-put, other) at h)))
      ];
    }

-- A loaded conversation is the row under its id, of the caller's org.
pub load_conversation-ok :
    (db : Db) (org_id id : ℕ) (c : Conversation)
    → load_conversation db org_id id ≡ ok c
    → (Dict.get id db.conversations ≡ some c) × (c.org_id ≡ org_id)
unfolding load_conversation in_org
load_conversation-ok db org_id id c h = elim (Option-cases (Dict.get id db.conversations)) [
  | inl absent ↦ ground arith
  | inr (row, present) ↦ ground arith
]

-- What a call leaves of the tables: all of them, or one assignment more.
abbrev Assigns : ℕ → ℕ → Db → Db → Type 0
Assigns org_id id db db' =
    (db' ≡ db)
    ⊎ ((c : Conversation) × (user_id : ℕ) × (actor : Actor) × (reason : Reason) × (load_conversation
            db org_id id
          ≡ ok c)
        × (db' ≡ assigned_db c user_id actor reason db))

claim-Assigns :
    (env : Env) (org_id id user_id : ℕ) (w : World)
    → Assigns org_id id w.db (claim env org_id id user_id w).1.db
unfolding claim claim_loaded record_assignment
claim-Assigns env org_id id user_id w =
    elim (Result-cases (require_role env.memberships user_id org_id non_viewer)) [
      | inl (e, refused) ↦ inl (ground arith)
      | inr (role, allowed) ↦ elim (Result-cases (load_conversation w.db org_id id)) [
        | inl (e, missing) ↦ inl (ground arith)
        | inr (c, found) ↦ elim (Option-cases c.assigned_user_id) [
          | inl unassigned ↦ inr (
            c,
            user_id,
            Actor.user user_id,
            Reason.claimed,
            found,
            rw (allowed, found, unassigned)
                (record_assignment-db env c user_id (Actor.user user_id) Reason.claimed w),
          )
          | inr (assignee, taken) ↦ elim (Bool-cases (assignee == user_id)) [
            | inl own ↦ inl (ground arith)
            | inr other ↦ inl (ground arith)
          ]
        ]
      ]
    ]

reassign-Assigns :
    (env : Env) (org_id id actor assignee : ℕ) (w : World)
    → Assigns org_id id w.db (reassign env org_id id actor assignee w).1.db
unfolding reassign
reassign-Assigns env org_id id actor assignee w =
    elim (Result-cases (require_role env.memberships actor org_id owner_or_admin)) [
      | inl (e, refused) ↦ inl (ground arith)
      | inr (role, allowed) ↦
          elim (Result-cases (require_membership env.memberships assignee org_id)) [
            | inl (e, stranger) ↦ inl (ground arith)
            | inr (role', member) ↦ elim (Result-cases (load_conversation w.db org_id id)) [
              | inl (e, missing) ↦ inl (ground arith)
              | inr (c, found) ↦ inr (
                c,
                assignee,
                Actor.user actor,
                Reason.reassigned,
                found,
                rw (allowed, member, found)
                    (record_assignment-db env c assignee (Actor.user actor) Reason.reassigned w),
              )
            ]
          ]
    ]

Assigns-IsReplayable :
    (org_id id : ℕ) (db db' : Db) → IsReplayable db → Assigns org_id id db db' → IsReplayable db'
Assigns-IsReplayable org_id id db db' v (inl same) = rw same v
Assigns-IsReplayable org_id id db db' v (inr (c, user_id, actor, reason, found, e)) =
    let row = (load_conversation-ok db org_id id c found).0 in
    rw e (
      assigned_db-IsReplayable c user_id actor reason db v
        (ap (λ (j : ℕ). Dict.get j db.conversations) (v.keyed id c row) ∙ row))

pub data Request : Type 0 where
  claiming : ℕ → ℕ → ℕ → Request
  reassigning : ℕ → ℕ → ℕ → ℕ → Request

unfoldable pub apply : Env → Request → World → World
apply env (claiming org_id id user_id) w = (claim env org_id id user_id w).1
apply env (reassigning org_id id actor assignee) w = (reassign env org_id id actor assignee w).1

unfoldable pub run : List (Env × Request) → World → World
run [] w = w
run ((env, r) ∷ rs) w = run rs (apply env r w)

-- From tables in which the assignee of every conversation is the one that the last row of its
-- history names, or none without a row, each conversation has its own id, and none that is absent
-- has a history: under any sequence of claims and reassignments, however each ends, this stays so.
pub run-IsReplayable :
    (rs : List (Env × Request)) (w : World) → IsReplayable w.db → IsReplayable (run rs w).db
unfolding run apply
run-IsReplayable [] w v = v
run-IsReplayable ((env, claiming org_id id user_id) ∷ rs) w v =
    run-IsReplayable rs (claim env org_id id user_id w).1
      (Assigns-IsReplayable org_id id w.db _ v (claim-Assigns env org_id id user_id w))
run-IsReplayable ((env, reassigning org_id id actor assignee) ∷ rs) w v =
    run-IsReplayable rs (reassign env org_id id actor assignee w).1
      (Assigns-IsReplayable org_id id w.db _ v (reassign-Assigns env org_id id actor assignee w))

-- While a conversation is assigned to a user, no claim of it changes anything, and a claim that
-- returns is that user's own and gives back the conversation as it is.
pub claim-exclusive :
    (env : Env) (org_id id owner user_id : ℕ) (w : World) (c : Conversation)
    → Dict.get id w.db.conversations ≡ some c
    → c.assigned_user_id ≡ some owner
    → ((claim env org_id id user_id w).1 ≡ w)
      × ((a : Conversation)
          → (claim env org_id id user_id w).0 ≡ ok a
          → (a ≡ c) × (user_id ≡ owner))
unfolding claim claim_loaded load_conversation in_org
claim-exclusive env org_id id owner user_id w c present taken =
    elim (Result-cases (require_role env.memberships user_id org_id non_viewer)) [
      | inl (e, refused) ↦ (ground arith, λ a h. absurd (ground arith))
      | inr (role, allowed) ↦ elim (Bool-cases (c.org_id == org_id)) [
        | inr foreign_ ↦ (ground arith, λ a h. absurd (ground arith))
        | inl own_org ↦ elim (Bool-cases (owner == user_id)) [
          | inl own ↦ (ground arith, λ a h. (ground arith, ground arith))
          | inr other ↦ (ground arith, λ a h. absurd (ground arith))
        ]
      ]
    ]
