-- ===== src/Core/Realtime/Lifetime.antt =====
-- The life of a subscription (app/core/realtime.py): who is subscribed, and what entering and leaving a
-- `subscribe` block does to it.
use a2z_core.Prelude.{
  ℕ, ◌+◌, ◌≡◌, refl, ◌≢◌, Bool, false, ◌&&◌, ◌||◌, some, List, [], ◌∷◌, ◌==◌, if◌then◌else◌, arith,
  ◌≤◌, inl, inr, ◌∙◌, Option-cases, Bool-cases,
}
use a2z_core.Prelude.Dict
use a2z_core.Prelude.Dict.{Eq, Dict, nat_eq, get-put, get-remove, dict_laws}
use a2z_core.Core.Realtime.{
  Broker, contains, add, discard, or_empty, subscribers_of, put_dropping_oldest, queue_maxsize,
  put_in, deliver, publish_update, add_to_channels, subscribe, write_back, drop_from, unsubscribe,
}

-- No queue stands twice in the list, which represents a Python set.
abbrev pub IsDistinct : List ℕ → Type 0
IsDistinct [] = Unit
IsDistinct (x ∷ xs) = (contains x xs ≡ false) × IsDistinct xs

contains-add : (q p : ℕ) (xs : List ℕ) → contains p (add q xs) ≡ (q == p || contains p xs)
unfolding add contains
contains-add q p xs = ground arith

contains-discard :
    (q p : ℕ) (xs : List ℕ) → contains p (discard q xs) ≡ (if q == p then false else contains p xs)
unfolding discard contains
contains-discard q p [] = ground arith
contains-discard q p (x ∷ xs) = ground (arith, contains-discard q p xs)

discard-IsDistinct : (q : ℕ) (xs : List ℕ) → IsDistinct xs → IsDistinct (discard q xs)
unfolding discard
discard-IsDistinct q [] h = tt
discard-IsDistinct q (x ∷ xs) h =
    ground (arith, contains-discard q x xs, discard-IsDistinct q xs h.1)

module _ {M : Type 0} where
  put_in-get :
      (x q : ℕ) (message : M) (queues : Dict ℕ (List M)) (queue : List M)
      → Dict.get q queues ≡ some queue
      → Dict.get q (put_in x message (Dict.get x queues) queues)
        ≡ some (if x == q then put_dropping_oldest queue_maxsize queue message else queue)
  unfolding put_in
  put_in-get x q message queues queue h = elim (Option-cases (Dict.get x queues)) [
    | inl absent ↦ rw absent (ground arith)
    | inr (other, found) ↦
        rw found
          (ground (arith, get-put x q (put_dropping_oldest queue_maxsize other message) queues))
  ]

  -- What a delivery does to the queue `q`.
  deliver-get :
      (ids : List ℕ) (message : M) (queues : Dict ℕ (List M)) (q : ℕ) (queue : List M)
      → IsDistinct ids
      → Dict.get q queues ≡ some queue
      → Dict.get q (deliver ids message queues)
        ≡ some (if contains q ids then put_dropping_oldest queue_maxsize queue message else queue)
  unfolding deliver contains
  deliver-get [] message queues q queue d h = h
  deliver-get (x ∷ ids) message queues q queue d h =
      let after = put_dropping_oldest queue_maxsize queue message in
      let now = put_in-get x q message queues queue h in
      let queues' = put_in x message (Dict.get x queues) queues in
      elim (Bool-cases (x == q)) [
        | inl same ↦ rw same (
            let rest = deliver-get ids message queues' q after d.1 (rw same at now) in
            let e : x ≡ q = ground arith in let lone = d.0 in ground arith)
        | inr other ↦ rw other (deliver-get ids message queues' q queue d.1 (rw other at now))
      ]

module _ {Channel M : Type 0} ⦃e : Eq Channel⦄ where
  -- Each channel's subscribers are a set, and the queue ids in use are below the next one.
  pub record IsValid (b : Broker Channel M) : Type 0 where
    pub distinct : (key : Channel) → IsDistinct (subscribers_of key b)
    pub used :
        (key : Channel) (q : ℕ) → b.next_queue ≤ q → contains q (subscribers_of key b) ≡ false

  -- In a valid broker a publication puts its message into a live queue if that queue is subscribed to
  -- the channel, once, and leaves it alone otherwise; who is subscribed does not change.
  pub publish_update-receives :
      (b : Broker Channel M) (key : Channel) (message : M) (q : ℕ) (queue : List M)
      → IsValid b
      → Dict.get q b.queues ≡ some queue
      → (b' : Broker Channel M) × (publish_update key (some message) b ≡ some b')
        × (b'.subscribers ≡ b.subscribers)
        × (Dict.get q b'.queues
            ≡ some (
                if contains q (subscribers_of key b)
                then put_dropping_oldest queue_maxsize queue message
                else queue))
  unfolding publish_update
  publish_update-receives b key message q queue v h = (
    record b { queues = deliver (subscribers_of key b) message b.queues },
    refl,
    refl,
    deliver-get (subscribers_of key b) message b.queues q queue (v.distinct key) h,
  )

module _ {Channel : Type 0} ⦃e : Eq Channel⦄ where
  -- `channel in channels`
  pub mem : Channel → List Channel → Bool
  mem key [] = false
  mem key (k ∷ ks) = e.beq k key || mem key ks

  write_back-get :
      (xs : List ℕ) (k key : Channel) (d : Dict Channel (List ℕ))
      → or_empty (Dict.get key (write_back xs k d))
        ≡ (if e.beq k key then xs else or_empty (Dict.get key d))
  unfolding write_back or_empty
  write_back-get [] k key d = rw get-remove (ground arith)
  write_back-get (x ∷ xs) k key d = rw get-put (ground arith)

module _ {Channel M : Type 0} ⦃e : Eq Channel⦄ where
  subscribers_of-put :
      (b : Broker Channel M) (k key : Channel) (xs : List ℕ)
      → subscribers_of key (record b { subscribers = Dict.put k xs b.subscribers })
        ≡ (if e.beq k key then xs else subscribers_of key b)
  unfolding subscribers_of
  subscribers_of-put b k key xs = rw get-put (ground arith)

  add_to_channels-contains :
      (q p : ℕ) (keys : List Channel) (b : Broker Channel M) (key : Channel)
      → contains p (subscribers_of key (add_to_channels q keys b))
        ≡ ((q == p && mem key keys) || contains p (subscribers_of key b))
  unfolding add_to_channels mem
  add_to_channels-contains q p [] b key = ground arith
  add_to_channels-contains q p (k ∷ keys) b key =
      let xs = add q (subscribers_of k b) in
      add_to_channels-contains q p keys (record b { subscribers = Dict.put k xs b.subscribers }) key
      ∙ rw subscribers_of-put
          (ground (arith, contains-add q p (subscribers_of k b), e.beq_iff k key))

  add_to_channels-IsDistinct :
      (q : ℕ) (keys : List Channel) (b : Broker Channel M)
      → ((key : Channel) → IsDistinct (subscribers_of key b))
      → (key : Channel) → IsDistinct (subscribers_of key (add_to_channels q keys b))
  unfolding add_to_channels
  add_to_channels-IsDistinct q [] b d key = d key
  add_to_channels-IsDistinct q (k ∷ keys) b d key =
      let xs = add q (subscribers_of k b) in
      add_to_channels-IsDistinct q keys (record b { subscribers = Dict.put k xs b.subscribers })
        (λ j. rw (subscribers_of-put b k j xs) (unfold add in ground (arith, d j, d k))) key

  drop_from-subscribers :
      (q : ℕ) (k key : Channel) (b : Broker Channel M)
      → subscribers_of key (drop_from q k (Dict.get k b.subscribers) b)
        ≡ (if e.beq k key then discard q (subscribers_of key b) else subscribers_of key b)
  unfolding subscribers_of drop_from
  drop_from-subscribers q k key b = elim (Option-cases (Dict.get k b.subscribers)) [
    | inl absent ↦ rw absent (unfold or_empty discard in ground (arith, e.beq_iff k key))
    | inr (xs, found) ↦ rw found (
        write_back-get (discard q xs) k key b.subscribers
        ∙ unfold or_empty in ground (arith, e.beq_iff k key))
  ]

  pub unsubscribe-contains :
      (q p : ℕ) (keys : List Channel) (b : Broker Channel M) (key : Channel)
      → contains p (subscribers_of key (unsubscribe q keys b))
        ≡ (if q == p && mem key keys then false else contains p (subscribers_of key b))
  unfolding unsubscribe mem
  unsubscribe-contains q p [] b key = ground arith
  unsubscribe-contains q p (k ∷ keys) b key =
      unsubscribe-contains q p keys (drop_from q k (Dict.get k b.subscribers) b) key
      ∙ rw drop_from-subscribers (ground (arith, contains-discard q p (subscribers_of key b)))

  pub queues-add_to_channels :
      (q : ℕ) (keys : List Channel) (b : Broker Channel M)
      → ((add_to_channels q keys b).queues ≡ b.queues)
        × ((add_to_channels q keys b).next_queue ≡ b.next_queue)
  unfolding add_to_channels
  queues-add_to_channels q [] b = (refl, refl)
  queues-add_to_channels q (k ∷ keys) b =
      queues-add_to_channels q keys
        (record b { subscribers = Dict.put k (add q (subscribers_of k b)) b.subscribers })

  -- The broker with the new queue, before it is added to any channel.
  abbrev pub with_queue : Broker Channel M → Broker Channel M
  with_queue b = record b {
    queues = Dict.put b.next_queue [] b.queues;
    next_queue = b.next_queue + 1;
  }

  pub subscribe-contains :
      (keys : List Channel) (b : Broker Channel M) (key : Channel) (p : ℕ)
      → contains p (subscribers_of key (subscribe keys b).1)
        ≡ ((b.next_queue == p && mem key keys) || contains p (subscribers_of key b))
  unfolding subscribe subscribers_of
  subscribe-contains keys b key p = add_to_channels-contains b.next_queue p keys (with_queue b) key

  subscribe-IsValid :
      (keys : List Channel) (b : Broker Channel M) → IsValid b → IsValid (subscribe keys b).1
  unfolding subscribe
  subscribe-IsValid keys b v = record {
    distinct =
        add_to_channels-IsDistinct b.next_queue keys (with_queue b)
          (λ j. unfold subscribers_of in v.distinct j);
    used = λ key q le.
        let kept = queues-add_to_channels b.next_queue keys (with_queue b) in
        unfold subscribers_of in
        ground
          (arith, add_to_channels-contains b.next_queue q keys (with_queue b) key, v.used key q);
  }

  -- Entering `subscribe` on a valid broker gives a valid one with a new empty queue, which is
  -- subscribed to exactly the listed channels, and leaves every other queue's subscriptions alone.
  pub subscribe-subscribed :
      (keys : List Channel) (b : Broker Channel M)
      → IsValid b
      → let (q, b') = subscribe keys b in
        IsValid b'
        × (Dict.get q b'.queues ≡ some [])
        × ((key : Channel) → contains q (subscribers_of key b') ≡ mem key keys)
        × ((key : Channel) (p : ℕ)
            → p ≢ q
            → contains p (subscribers_of key b') ≡ contains p (subscribers_of key b))
  subscribe-subscribed keys b v = (
    subscribe-IsValid keys b v,
    unfold subscribe in
        rw (queues-add_to_channels b.next_queue keys (with_queue b)).0 (rw get-put (ground arith)),
    λ key. rw subscribe-contains (unfold subscribe in ground (arith, v.used key b.next_queue)),
    λ key p ne.
        rw subscribe-contains (let ne' : p ≢ b.next_queue = unfold subscribe in ne in ground arith),
  )
