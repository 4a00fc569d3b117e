-- ===== src/Omnichannel/Handlers/Replies.antt =====
-- What `send_reply` of app/services/omnichannel/handlers.py leaves, and a second request with the same
-- deduplication key.
use a2z_core.Prelude.{
  ℕ, ◌≡◌, ◌≢◌, refl, sym, ◌∙◌, ap, subst, ◌⊎◌, inl, inr, Bool, true, false, Option, none, some,
  List, [], ◌∷◌, ◌++◌, append-nil, Bool-cases, Option-cases,
}
use a2z_core.Prelude.Text.{Text, text_eq, scoped_eq}
use a2z_core.Prelude.Dict
use a2z_core.Prelude.Dict.{Dict, nat_eq, get-put, beq_refl}
use a2z_core.Prelude.Run.{Result, ok, err, Result-cases, bind-ok, bind-err}
use a2z_core.Core.Role.{Role}
use a2z_core.Core.RateLimit.{check_and_increment, rate_limits}
use a2z_core.Omnichannel.Access.{non_viewer, require_role, in_org, load_conversation}
use a2z_core.Omnichannel.Model.{ChannelIdentity, Conversation, Message, MessageStatus, Error}
use a2z_core.Omnichannel.Handlers.Raises.{
  require_role-raises, in_org-raises, customer-raises, limit_result-raises,
}
use a2z_core.Omnichannel.Handlers.{
  Server, Answers, Reply, find_by_dedup_key, find_existing, rate_limit_action, limit_result,
  check_limits, new_message, violates_unique, with_messages, lost_race, insert, customer,
  send_limited, send_new, send_reply,
}

module _ (reply : Reply) where
  -- The conversations and the customers are the same.
  abbrev pub SameThreads : Server → Server → Type 0
  SameThreads s s' =
      (s'.db.conversations ≡ s.db.conversations) × (s'.db.identities ≡ s.db.identities)

  -- The request's deduplication key, if it has one, finds the message.
  abbrev pub Finds : Server → Option Text → Message → Type 0
  Finds s none m = Unit
  Finds s (some k) m = find_existing reply (some k) s.db.messages ≡ some m

  abbrev pub appended : Bool → ℕ → List (ℕ × ℕ)
  appended true id = (reply.org_id, id) ∷ []
  appended false id = []

  -- The table has the message under its id, and it is the request's: its org, conversation, text and
  -- author, and it waits to be sent.
  abbrev pub Stores : Server → Message → Type 0
  Stores s m =
      (Dict.get m.id s.db.messages ≡ some m)
      × (m.org_id ≡ reply.org_id)
      × (m.conversation_id ≡ reply.conversation_id)
      × (m.body_text ≡ some reply.body_text)
      × (m.sent_by_user_id ≡ some reply.user_id)
      × (m.client_dedup_key ≡ reply.client_dedup_key)
      × (m.status ≡ MessageStatus.queued)

  -- A call that returns leaves the message where its key finds it, stored and in the queue when it is
  -- new. One that fails queues nothing, and when it is SQS that fails the message is stored all the
  -- same.
  abbrev pub Ends : Server → Result Error (Message × Bool) × Server → Type 0
  Ends s (ok (m, created), s') =
      SameThreads s s'
      × Finds s' reply.client_dedup_key m
      × (s'.outbound ≡ s.outbound ++ appended created m.id)
      × (created ≡ true → Stores s' m)
  Ends s (err e, s') =
      (s'.outbound ≡ s.outbound)
      × (e ≡ Error.queue_error
          → SameThreads s s' × ((m : Message) × Finds s' reply.client_dedup_key m × Stores s' m))

find_existing-new :
    (reply : Reply) (a : Answers) (channel_type : Text) (messages : Dict ℕ Message)
    → (key : Option Text) → reply.client_dedup_key ≡ key
    → (s : Server)
    → Finds reply
        (with_messages (Dict.put a.message_id (new_message a reply channel_type) messages) s)
        key
        (new_message a reply channel_type)
unfolding find_by_dedup_key Dict.put
find_existing-new reply a channel_type messages none e s = tt
find_existing-new reply a channel_type messages (some k) e s =
    let org = beq_refl reply.org_id in
    let conversation = beq_refl reply.conversation_id in
    let key = beq_refl k in rw (org, conversation, e, key) refl

new_message-Stores :
    (reply : Reply) (a : Answers) (channel_type : Text) (messages : Dict ℕ Message) (s : Server)
    → Stores reply
        (with_messages (Dict.put a.message_id (new_message a reply channel_type) messages) s)
        (new_message a reply channel_type)
new_message-Stores reply a channel_type messages s = (
  get-put a.message_id a.message_id (new_message a reply channel_type) messages
      ∙ rw (beq_refl a.message_id) refl,
  refl,
  refl,
  refl,
  refl,
  refl,
  refl,
)

found-Finds :
    (reply : Reply) (s : Server) (key : Option Text) (m : Message)
    → find_existing reply key s.db.messages ≡ some m
    → Finds reply s key m
found-Finds reply s none m found = tt
found-Finds reply s (some k) m found = found

lost_race-Ends :
    (reply : Reply) (s : Server) (committed : Dict ℕ Message)
    → Ends reply s (
        lost_race
          (find_existing reply reply.client_dedup_key committed)
          (with_messages committed s))
lost_race-Ends reply s committed =
    elim (Option-cases (find_existing reply reply.client_dedup_key committed)) [
      | inl gone ↦ rw gone (refl, λ q. cc)
      | inr (existing, found) ↦
          let finds =
            found-Finds reply (with_messages committed s) reply.client_dedup_key existing found in
          rw found ((refl, refl), finds, sym (append-nil s.outbound), λ q. absurd cc)
    ]

insert-Ends :
    (a : Answers) (reply : Reply) (channel_type : Text) (s : Server)
    → Ends reply s (insert a reply (new_message a reply channel_type) s)
unfolding insert
insert-Ends a reply channel_type s =
    let m = new_message a reply channel_type in
    let committed = a.concurrent ++ s.db.messages in
    elim (Bool-cases (violates_unique m committed)) [
      | inl taken ↦ rw taken (lost_race-Ends reply s committed)
      | inr free ↦ rw free (elim (Bool-cases a.queue_fails) [
        | inl fails ↦ rw fails (
          refl,
          λ _. (
            (refl, refl),
            (
              m,
              find_existing-new reply a channel_type committed reply.client_dedup_key refl s,
              new_message-Stores reply a channel_type committed s,
            ),
          ),
        )
        | inr sent ↦ rw sent (
          (refl, refl),
          find_existing-new reply a channel_type committed reply.client_dedup_key refl s,
          refl,
          λ _. new_message-Stores reply a channel_type committed s,
        )
      ])
    ]

check_limits-keeps :
    (a : Answers) (org_id : ℕ) (action : Text) (limits : Option (ℕ × ℕ)) (s : Server)
    → ((windows : Dict (ℕ × Text) (List ℕ)) × (check_limits a org_id action limits s
          ≡ (ok tt, record s { windows = windows })))
      ⊎ ((windows : Dict (ℕ × Text) (List ℕ)) × (e : Error) × (check_limits a org_id action limits s
            ≡ (err e, record s { windows = windows }))
          × (e ≢ Error.queue_error))
unfolding check_limits
check_limits-keeps a org_id action none s = inl (s.windows, refl)
check_limits-keeps a org_id action (some (limit, window_seconds)) s =
    let checked =
      check_and_increment a.hz (org_id, action) limit window_seconds a.monotonic s.windows in
    elim (Result-cases (limit_result checked.0)) [
      | inl (e, refused) ↦
          inr (checked.1, e, rw refused refl, limit_result-raises checked.0 e refused)
      | inr (u, counted) ↦ inl (checked.1, rw counted refl)
    ]

send_limited-Ends :
    (a : Answers) (reply : Reply) (channel_type : Text) (limits : Option (ℕ × ℕ)) (s : Server)
    → Ends reply s (send_limited a reply channel_type limits s)
unfolding send_limited
send_limited-Ends a reply channel_type limits s =
    let counting = check_limits a reply.org_id (rate_limit_action channel_type) limits in
    let inserting = λ (_ : Unit {0}). insert a reply (new_message a reply channel_type) in
    elim (check_limits-keeps a reply.org_id (rate_limit_action channel_type) limits s) [
      | inl (windows, counted) ↦
          let s' : Server = record s { windows = windows } in
          subst (Ends reply s) (sym (bind-ok counting inserting s s' tt counted))
            (insert-Ends a reply channel_type s')
      | inr (windows, e, refused, other) ↦
          let s' : Server = record s { windows = windows } in
          subst (Ends reply s) (sym (bind-err counting inserting s s' e refused))
            (refl, λ q. absurd (other q))
    ]

-- A reply that returns leaves the message where its deduplication key, if it has one, finds it, and
-- adds to the queue that message when it is new and nothing when it is not. A new message stands in
-- the table under its id, as a queued message of the request's org, conversation, text, author and
-- key. A reply that raises queues nothing, and if it is SQS that fails such a message stands in
-- the table all the same, key or not, where the key, if there is one, finds it. A reply that returns
-- or that fails on SQS changes no conversation and no customer.
pub send_reply-Ends :
    (a : Answers) (reply : Reply) (s : Server) → Ends reply s (send_reply a reply s)
unfolding send_reply send_new
send_reply-Ends a reply s =
    elim (Result-cases (require_role a.memberships reply.user_id reply.org_id non_viewer)) [
      | inl (e, refused) ↦ rw refused (
        refl,
        λ q. absurd (require_role-raises a.memberships reply.user_id reply.org_id e refused q),
      )
      | inr (role, may) ↦
          elim (Result-cases (load_conversation s.db reply.org_id reply.conversation_id)) [
            | inl (e, missing) ↦
                rw (may, missing)
                  (
                    refl,
                    λ q. absurd (
                        in_org-raises reply.org_id
                          (Dict.get reply.conversation_id s.db.conversations) e
                          (unfold load_conversation in missing) q),
                  )
            | inr (conversation, loaded) ↦
                elim (Result-cases
                  (customer (Dict.get conversation.customer_identity_id s.db.identities))) [
                    | inl (e, unknown) ↦
                        rw (may, loaded, unknown)
                          (
                            refl,
                            λ q. absurd (
                                customer-raises
                                  (Dict.get conversation.customer_identity_id s.db.identities) e
                                  unknown q),
                          )
                    | inr (identity, known) ↦
                        elim (Option-cases
                          (find_existing reply reply.client_dedup_key s.db.messages)) [
                            | inl new ↦
                                rw (may, loaded, known, new)
                                  (send_limited-Ends a reply identity.channel_type
                                    (Dict.get (rate_limit_action identity.channel_type) rate_limits)
                                    s)
                            | inr (existing, found) ↦
                                let finds =
                                  found-Finds reply s reply.client_dedup_key existing found in
                                rw (may, loaded, known, found)
                                  ((refl, refl), finds, sym (append-nil s.outbound), λ q. absurd cc)
                          ]
                  ]
          ]
    ]

send_reply-found :
    (a : Answers) (reply : Reply) (s : Server) (role : Role) (conversation : Conversation)
    (identity : ChannelIdentity) (m : Message)
    → require_role a.memberships reply.user_id reply.org_id non_viewer ≡ ok role
    → load_conversation s.db reply.org_id reply.conversation_id ≡ ok conversation
    → Dict.get conversation.customer_identity_id s.db.identities ≡ some identity
    → find_existing reply reply.client_dedup_key s.db.messages ≡ some m
    → send_reply a reply s ≡ (ok (m, false), s)
unfolding send_reply
send_reply-found a reply s role conversation identity m may loaded known found =
    rw (may, loaded, known, found) refl

-- The same request again, or one with another text by another user, under the same key.
abbrev pub again : ℕ → Text → Reply → Reply
again user_id body_text reply = record reply { user_id = user_id; body_text = body_text }

module _ (a a' : Answers) (reply : Reply) (s : Server) (user_id : ℕ) (body_text k : Text)
    (role : Role) (conversation : Conversation) (identity : ChannelIdentity)
    (keyed : reply.client_dedup_key ≡ some k)
    (loaded : load_conversation s.db reply.org_id reply.conversation_id ≡ ok conversation)
    (known : Dict.get conversation.customer_identity_id s.db.identities ≡ some identity)
    (may : require_role a'.memberships user_id reply.org_id non_viewer ≡ ok role) where
  send_reply-stored :
      (s' : Server) (m : Message)
      → SameThreads reply s s'
      → Finds reply s' reply.client_dedup_key m
      → send_reply a' (again user_id body_text reply) s' ≡ (ok (m, false), s')
  unfolding load_conversation
  send_reply-stored s' m (conversations, identities) finds =
      send_reply-found a' (again user_id body_text reply) s' role conversation identity m may
        (ap (λ cs. in_org reply.org_id (Dict.get reply.conversation_id cs)) conversations ∙ loaded)
        (ap (Dict.get conversation.customer_identity_id) identities ∙ known)
        (ap (λ key. find_existing reply key s'.db.messages) keyed
          ∙ subst (λ key. Finds reply s' key m) keyed finds)

  -- A request with a deduplication key that was answered, made again by any member who may reply and
  -- with any text, gives back the message of the first and changes nothing: no row, no window of the
  -- rate limiter, nothing in the queue. The conversation is one of the org, with a known customer.
  pub send_reply-again :
      (m : Message) (created : Bool) (s' : Server)
      → send_reply a reply s ≡ (ok (m, created), s')
      → send_reply a' (again user_id body_text reply) s' ≡ (ok (m, false), s')
  send_reply-again m created s' first =
      let ends = subst (Ends reply s) first (send_reply-Ends a reply s) in
      send_reply-stored s' m ends.0 ends.1

  -- When SQS fails on a request with a deduplication key, the message is stored but not queued, and
  -- the same request made again by a member who may reply returns it without queueing it. The
  -- conversation is one of the org, with a known customer.
  pub send_reply-queue_error :
      (s' : Server)
      → send_reply a reply s ≡ (err Error.queue_error, s')
      → (m : Message) × (send_reply a' (again user_id body_text reply) s' ≡ (ok (m, false), s'))
        × (s'.outbound ≡ s.outbound)
  send_reply-queue_error s' first =
      let ends = subst (Ends reply s) first (send_reply-Ends a reply s) in
      let (same, (m, finds, stores)) = ends.1 refl in (m, send_reply-stored s' m same finds, ends.0)
