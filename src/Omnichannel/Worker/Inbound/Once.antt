-- ===== src/Omnichannel/Worker/Inbound/Once.antt =====
-- How often a message of a webhook payload is persisted (`_process_inbound_message` of
-- app/services/omnichannel/worker.py), for one item.
use a2z_core.Prelude.{
  ℕ, ◌≡◌, ◌≤◌, refl, ◌∙◌, ap, ◌⊎◌, inl, inr, Bool, true, false, none, some, List, [], ◌∷◌, find,
  count, ◌==◌, arith, Bool-cases, Option-cases,
}
use a2z_core.Prelude.Text.{Text, text_beq_iff}
use a2z_core.Prelude.Dict
use a2z_core.Prelude.Dict.{Dict, nat_eq}
use a2z_core.Prelude.Run.{ok, Result-cases}
use a2z_core.Omnichannel.Model.{Actor, Reason, Conversation, Message, Db, World}
use a2z_core.Omnichannel.Routing.{apply_single_assignee_if_configured}
use a2z_core.Omnichannel.Routing.History.{record_assignment-db}
use a2z_core.Omnichannel.Worker.Inbound.{
  NormalizedInboundMessage, Answers, is_delivery, new_message, route, announce, receive,
  is_identity, process_item, find_or_create_identity, find_or_create_conversation, received_db,
  with_message,
}

remove-fresh : {V : Type 0} (k : ℕ) (d : Dict ℕ V) → Dict.get k d ≡ none → Dict.remove k d ≡ d
unfolding Dict.get Dict.remove
remove-fresh k [] h = refl
remove-fresh k ((j, v) ∷ d) h = elim (Bool-cases (j == k)) [
  | inl same ↦ absurd (ground arith)
  | inr other ↦ rw other (rw (remove-fresh k d (rw other at h)) refl)
]

pub count-none : {A : Type 0} (p : A → Bool) (xs : List A) → find p xs ≡ none → count p xs ≡ 0
count-none p [] h = refl
count-none p (x ∷ xs) h = elim (Bool-cases (p x)) [
  | inl yes_ ↦ absurd (ground arith)
  | inr skip ↦ rw skip (omega (arith, count-none p xs (rw skip at h)))
]

pub count-some :
    {A : Type 0} (p : A → Bool) (xs : List A) (x : A) → find p xs ≡ some x → 1 ≤ count p xs
count-some p [] x h = absurd (ground arith)
count-some p (y ∷ xs) x h = elim (Bool-cases (p y)) [
  | inl yes_ ↦ rw yes_ (omega arith)
  | inr skip ↦ rw skip (omega (arith, count-some p xs x (rw skip at h)))
]

-- How many messages have a channel type and an external id.
abbrev pub deliveries : Text → Text → Db → ℕ
deliveries channel_type external_id db = count (is_delivery channel_type external_id) db.messages

announce-db :
    (a : Answers) (org_id : ℕ) (c : Conversation) (w : World) → (announce a org_id c w).1.db ≡ w.db
unfolding announce
announce-db a org_id c w = elim (Bool-cases a.env.publish_fails) [
  | inl failed ↦ ground arith
  | inr done ↦ elim (Option-cases c.assigned_user_id) [
    | inl unassigned ↦ ground arith
    | inr (user_id, assigned) ↦ ground arith
  ]
]

route-messages :
    (a : Answers) (is_new : Bool) (c : Conversation) (w : World)
    → (route a is_new c w).1.db.messages ≡ w.db.messages
unfolding route apply_single_assignee_if_configured
route-messages a false c w = refl
route-messages a true c w = elim (Option-cases (a.env.single_assignee c.org_id)) [
  | inl manual ↦ ground arith
  | inr (user_id, configured) ↦
      let assigned = record_assignment-db a.env c user_id Actor.routing Reason.single_assignee w in
      ground (arith, assigned)
]

receive-messages :
    (a : Answers) (org_id : ℕ) (channel_type : Text) (item : NormalizedInboundMessage)
    (keys : List Text) (c : Conversation) (is_new : Bool) (db : Db) (w : World)
    → (receive a org_id channel_type item keys c is_new db w).1.db.messages
      ≡ Dict.put a.message_id (new_message a org_id channel_type c.id item) db.messages
unfolding receive
receive-messages a org_id channel_type item keys c is_new db w =
    let w' : World = record w { db = received_db a org_id channel_type item keys c db } in
    let c' = with_message a.now item c in
    let routed = route-messages a is_new c' w' in
    elim (Result-cases (route a is_new c' w').0) [
      | inl (e, raised) ↦ ground (arith, routed, raised)
      | inr (c'', ended) ↦
          let told = announce-db a org_id c'' (route a is_new c' w').1 in
          ground (arith, routed, ended, told)
    ]

find_or_create_identity-messages :
    (a : Answers) (org_id : ℕ) (channel_type : Text) (item : NormalizedInboundMessage) (db : Db)
    → (find_or_create_identity a org_id channel_type item db).1.messages ≡ db.messages
unfolding find_or_create_identity
find_or_create_identity-messages a org_id channel_type item db =
    elim (Option-cases (find (is_identity org_id channel_type item.external_id) db.identities)) [
      | inl new ↦ ground arith
      | inr (row, known) ↦ ground arith
    ]

-- What one item leaves of the messages, whatever happens after its commit.
process_item-messages :
    (a : Answers) (org_id : ℕ) (channel_type : Text) (item : NormalizedInboundMessage) (w : World)
    → Dict.get a.message_id w.db.messages ≡ none
    → (((process_item a org_id channel_type item w).1.db.messages ≡ w.db.messages)
        × (((process_item a org_id channel_type item w).0 ≡ ok tt)
            → (row : ℕ × Message) × (find
                  (is_delivery channel_type item.external_message_id)
                  w.db.messages
                ≡ some row)))
      ⊎ ((find (is_delivery channel_type item.external_message_id) w.db.messages ≡ none)
          × ((c : ℕ) × ((process_item a org_id channel_type item w).1.db.messages
                ≡ (a.message_id, new_message a org_id channel_type c item) ∷ w.db.messages)))
unfolding process_item Dict.put
process_item-messages a org_id channel_type item w fresh =
    let (identity, db) = find_or_create_identity a org_id channel_type item w.db in
    let (c, is_new) = find_or_create_conversation a org_id identity.id db in
    elim (Option-cases (find (is_delivery channel_type item.external_message_id) w.db.messages)) [
      | inr (row, known) ↦ inl (ground arith, λ h. (row, known))
      | inl new ↦ elim (Option-cases a.uploaded) [
        | inl failed ↦ inl (ground arith, λ h. absurd (ground arith))
        | inr (keys, stored) ↦ inr (
          new,
          (
            c.id,
            let shape : (process_item a org_id channel_type item w).1
                    ≡ (receive a org_id channel_type item keys c is_new db w).1 =
                  ground arith in
                ap (λ (x : World). x.db.messages) shape
                ∙ receive-messages a org_id channel_type item keys c is_new db w
                ∙ rw (find_or_create_identity-messages a org_id channel_type item w.db)
                    (rw (remove-fresh a.message_id w.db.messages fresh) refl),
          ),
        )
      ]
    ]

-- Each item's message gets a fresh id.
abbrev pub AllFresh : ℕ → Text → List (Answers × NormalizedInboundMessage) → World → Type 0
AllFresh org_id channel_type [] w = Unit
AllFresh org_id channel_type ((a, item) ∷ items) w =
    (Dict.get a.message_id w.db.messages ≡ none)
    × AllFresh org_id channel_type items (process_item a org_id channel_type item w).1

-- `uq_message_idempotency`: no channel type and external id occurs twice.
abbrev pub IsUnique : Db → Type 0
IsUnique db = (channel_type external_id : Text) → deliveries channel_type external_id db ≤ 1

same_delivery :
    (channel_type t' e' : Text) (a : Answers) (org_id c : ℕ) (item : NormalizedInboundMessage)
    → is_delivery t' e' (a.message_id, new_message a org_id channel_type c item) ≡ true
    → (channel_type ≡ t') × (item.external_message_id ≡ e')
same_delivery channel_type t' e' a org_id c item h = (
  (text_beq_iff channel_type t').0 (ground arith),
  (text_beq_iff item.external_message_id e').0 (ground arith),
)

-- One item keeps the messages unique, and loses none.
module _ (a : Answers) (org_id : ℕ) (channel_type : Text) (item : NormalizedInboundMessage)
    (w : World) (fresh : Dict.get a.message_id w.db.messages ≡ none) where
  pub process_item-IsUnique :
      IsUnique w.db → IsUnique (process_item a org_id channel_type item w).1.db
  process_item-IsUnique u t' e' = elim (process_item-messages a org_id channel_type item w fresh) [
    | inl (same, known) ↦ rw same (u t' e')
    | inr (new, (c, e)) ↦
        let m : ℕ × Message = (a.message_id, new_message a org_id channel_type c item) in
        rw e (elim (Bool-cases (is_delivery t' e' m)) [
          | inr other ↦ rw other (omega (arith, u t' e'))
          | inl hit ↦
              let (is_t, is_e) = same_delivery channel_type t' e' a org_id c item hit in
              let zero_ : deliveries t' e' w.db ≡ 0 =
                count-none (is_delivery t' e') w.db.messages (rw (← is_t, ← is_e) new) in
              rw hit (omega (arith, zero_))
        ])
  ]

  pub process_item-kept :
      (t' e' : Text)
      → deliveries t' e' w.db ≤ deliveries t' e' (process_item a org_id channel_type item w).1.db
  process_item-kept t' e' = elim (process_item-messages a org_id channel_type item w fresh) [
    | inl (same, known) ↦ rw same (omega arith)
    | inr (new, (c, e)) ↦ rw e (omega arith)
  ]

  pub process_item-there :
      (process_item a org_id channel_type item w).0 ≡ ok tt
      → 1
        ≤ deliveries channel_type item.external_message_id
            (process_item a org_id channel_type item w).1.db
  process_item-there done = elim (process_item-messages a org_id channel_type item w fresh) [
    | inl (same, known) ↦
        let (row, found) = known done in
        rw same
          (count-some (is_delivery channel_type item.external_message_id) w.db.messages row found)
    | inr (new, (c, e)) ↦
        let hit : is_delivery channel_type item.external_message_id
              (a.message_id, new_message a org_id channel_type c item)
            ≡ true =
          ground (
            arith,
            (text_beq_iff channel_type channel_type).1 refl,
            (text_beq_iff item.external_message_id item.external_message_id).1 refl,
          ) in
        rw e (rw hit (omega arith))
  ]
