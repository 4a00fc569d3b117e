-- ===== src/Tests/Core.antt =====
-- The theorems on app/core at concrete inputs.
use a2z_core.Prelude.{
  ℕ, ◌+◌, ◌-◌, ◌*◌, ◌≡◌, ◌≢◌, ◌≤◌, ◌<◌, ◌↔◌, refl, arith, Bool, false, none, some, List, [], ◌∷◌,
  ◌++◌, count, map, ◌==◌, ltb, length, take, if◌then◌else◌,
}
use a2z_core.Prelude.Dict
use a2z_core.Prelude.Dict.{Dict, nat_eq}
use a2z_core.Core.Role.{Role}
use a2z_core.Core.RateLimit.{evict, refuse, retry_after, check_window, recorded, rate_limited}
use a2z_core.Core.RateLimit.Window.{run_window, within, run_window-le-limit}
use a2z_core.Core.RateLimit.Retry.{refused-retry_after}
use a2z_core.Core.Cache
use a2z_core.Core.Cache.{TtlCache}
use a2z_core.Core.Cache.Laws.{get-set, get-get, ttl-get}
use a2z_core.Core.Realtime.{
  Broker, queue_maxsize, put_dropping_oldest, contains, or_empty, subscribers_of, publish_update,
  subscribe, unsubscribe,
}
use a2z_core.Core.Realtime.Delivery.{newest, put_all, put_all-newest}
use a2z_core.Core.Realtime.Lifetime.{
  IsValid, mem, with_queue, publish_update-receives, subscribe-subscribed,
}
use a2z_core.Core.Realtime.Blocks
use a2z_core.Core.Realtime.Blocks.{Step, publishing, entering, leaving, unsubscribe-run}
use a2z_core.Core.Membership.{Membership, Table, Env, Query, rows_of_org, list_org_members}
use a2z_core.Core.Membership.Refinement.{
  Mutation, create, add, change, remove, run, roles, abstract_run, run-refines,
}
use a2z_core.Core.Membership.Members.{IsSorted, IsPaged, list_org_members-IsSorted}

run_window-le-limit_example : count (within 10 3) (run_window 1 2 10 [] (1 ∷ 3 ∷ 5 ∷ 11 ∷ [])) ≤ 2
run_window-le-limit_example =
    run_window-le-limit 1 2 10 (1 ∷ 3 ∷ 5 ∷ 11 ∷ [])
      (omega arith, (omega arith, (omega arith, (omega arith, tt)))) 3

refusal : check_window 1 2 10 5 (1 ∷ 3 ∷ []) ≡ (rate_limited 6, 1 ∷ 3 ∷ [])
unfolding check_window evict refuse retry_after
refusal = refl

refused-retry_after_example :
    (1 ≤ 6)
    × ((later : ℕ) → 5 + 6 * 1 ≤ later → (check_window 1 2 10 later (1 ∷ 3 ∷ [])).0 ≡ recorded)
    × ((later : ℕ)
        → later ≤ 5 + (6 - 1) * 1
        → (check_window 1 2 10 later (1 ∷ 3 ∷ [])).0 ≢ recorded)
refused-retry_after_example =
    refused-retry_after 1 2 10 5 6 (1 ∷ 3 ∷ []) (1 ∷ 3 ∷ []) (omega arith) (omega arith) refusal

abbrev cache : TtlCache ℕ ℕ
cache = (7, (20, 70)) ∷ []

get-set_example : (Cache.get 12 7 (Cache.set 5 7 71 10 cache)).0 ≡ (
    if nat_eq.beq 7 7
    then (if ltb 12 (5 + 10) then some 71 else none)
    else (Cache.get 12 7 cache).0)
get-set_example = get-set 5 10 12 7 7 71 cache

get-get_example : (Cache.get 25 7 (Cache.get 21 7 cache).1).0 ≡ (Cache.get 25 7 cache).0
get-get_example = get-get 21 25 7 7 cache (omega arith)

ttl-get_example :
    ((r : ℕ) → Cache.ttl 12 7 cache ≡ some r → ((Cache.get (12 + 5) 7 cache).0 ≢ none) ↔ (5 < r))
    × (Cache.ttl 12 7 cache ≡ none → (Cache.get (12 + 5) 7 cache).0 ≡ none)
ttl-get_example = ttl-get 12 5 7 cache

abbrev old_queue : List ℕ
old_queue = 1 ∷ []

abbrev messages : List ℕ
messages = 2 ∷ 3 ∷ []

put_all-newest_example : put_all 2 old_queue messages ≡ newest 2 (old_queue ++ messages)
put_all-newest_example = put_all-newest 2 old_queue messages (omega arith) (omega arith)

abbrev empty_broker : Broker ℕ ℕ
empty_broker = record { subscribers = []; queues = (0, []) ∷ []; next_queue = 1 }

empty_broker-IsValid : IsValid empty_broker
unfolding subscribers_of or_empty Dict.get contains
empty_broker-IsValid = record { distinct = λ key. tt; used = λ key q h. refl }

publish_update-receives_example :
    (b' : Broker ℕ ℕ) × (publish_update 4 (some 9) empty_broker ≡ some b')
    × (b'.subscribers ≡ empty_broker.subscribers)
    × (Dict.get 0 b'.queues
        ≡ some (
            if contains 0 (subscribers_of 4 empty_broker)
            then put_dropping_oldest queue_maxsize [] 9
            else []))
publish_update-receives_example =
    publish_update-receives empty_broker 4 9 0 [] empty_broker-IsValid (unfold Dict.get in refl)

subscribe-subscribed_example :
    let (q, b') = subscribe (4 ∷ 5 ∷ []) empty_broker in
    IsValid b'
    × (Dict.get q b'.queues ≡ some [])
    × ((key : ℕ) → contains q (subscribers_of key b') ≡ mem key (4 ∷ 5 ∷ []))
    × ((key p : ℕ)
        → p ≢ q
        → contains p (subscribers_of key b') ≡ contains p (subscribers_of key empty_broker))
subscribe-subscribed_example = subscribe-subscribed (4 ∷ 5 ∷ []) empty_broker empty_broker-IsValid

-- Another task joins a channel of the block while it is open, and a message is published.
abbrev steps : List (Step ℕ ℕ)
steps = entering (4 ∷ []) ∷ publishing 4 (some 9) ∷ leaving 7 (5 ∷ []) ∷ []

unsubscribe-run_example :
    let (q, b') = subscribe (4 ∷ 5 ∷ []) empty_broker in
    contains 2 (subscribers_of 4 (unsubscribe q (4 ∷ 5 ∷ []) (Blocks.run steps b')))
    ≡ contains 2 (subscribers_of 4 (Blocks.run steps (with_queue empty_broker)))
unsubscribe-run_example =
    unsubscribe-run (4 ∷ 5 ∷ []) steps empty_broker empty_broker-IsValid
      (tt, (tt, ((λ e. omega (arith, e)), tt))) 4 2

abbrev env : Env
env = record {
  now = 100;
  fresh_org_id = 1;
  write_fails = false;
  audit_fails = false;
  publish_fails = false;
}

abbrev empty_table : Table
empty_table = record { users = []; orgs = []; members = []; effects = [] }

abbrev mutations : List (Env × Mutation)
mutations =
    (env, create [] 10)
    ∷ (env, add 1 11 Role.guest)
    ∷ (env, change 1 11 Role.admin)
    ∷ (env, remove 1 10)
    ∷ []

run-refines_example : roles (run mutations empty_table) ≡ abstract_run mutations (roles empty_table)
run-refines_example = run-refines mutations empty_table

abbrev guest_and_owner : Table
guest_and_owner = record empty_table {
  members =
      ((11, 1), record { user_id = 11; org_id = 1; role = Role.guest; joined_at = 3 })
      ∷ ((10, 1), record { user_id = 10; org_id = 1; role = Role.owner; joined_at = 5 })
      ∷ [];
}

-- Pages of three rows.
abbrev pages : Query
pages = record { items = take 3; has_more = λ rows. ltb 3 (length rows) }

pages-IsPaged : IsPaged pages
pages-IsPaged [] = (([], refl), λ h. refl)
pages-IsPaged (a ∷ []) = (([], refl), λ h. refl)
pages-IsPaged (a ∷ b ∷ []) = (([], refl), λ h. refl)
pages-IsPaged (a ∷ b ∷ c ∷ rows) = ((rows, refl), complete rows)
  where
    complete :
        (rows : List Membership)
        → ltb 3 (length (a ∷ b ∷ c ∷ rows)) ≡ false
        → a ∷ b ∷ c ∷ [] ≡ a ∷ b ∷ c ∷ rows
    complete [] h = refl
    complete (d ∷ rows) h = absurd (ground (arith, h))

list_org_members-IsSorted_example :
    let in_org = λ (p : Membership → Bool).
      count
        (λ m. if m.org_id == 1 then p m else false)
        (map (λ kv. kv.1) guest_and_owner.members) in
    IsSorted (list_org_members pages 1 guest_and_owner)
    × ((p : Membership → Bool) → count p (list_org_members pages 1 guest_and_owner) ≤ in_org p)
    × (pages.has_more (rows_of_org 1 guest_and_owner) ≡ false
        → (p : Membership → Bool) → count p (list_org_members pages 1 guest_and_owner) ≡ in_org p)
list_org_members-IsSorted_example = list_org_members-IsSorted pages pages-IsPaged 1 guest_and_owner
