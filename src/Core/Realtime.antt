-- ===== src/Core/Realtime.antt =====
-- app/core/realtime.py: the in-process broker. A subscriber's bounded `asyncio.Queue` is a list,
-- oldest message first; `_subscribers` maps a channel to the ids of the live queues, and the queues
-- themselves are shared objects, so they stand in a store of their own.
pub mod Delivery
pub mod Lifetime
pub mod Blocks
use a2z_core.Prelude.{
  ℕ, ◌+◌, Bool, true, false, Option, none, some, List, [], ◌∷◌, ◌++◌, length, drop, select, not,
  ltb, ◌==◌, if◌then◌else◌,
}
use a2z_core.Prelude.Dict
use a2z_core.Prelude.Dict.{Eq, Dict, nat_eq}

abbrev pub queue_maxsize : ℕ
queue_maxsize = 100

-- `_put_dropping_oldest`, at any `maxsize`.
unfoldable pub put_dropping_oldest {ℓ} : {M : Type ℓ} → ℕ → List M → M → List M
put_dropping_oldest maxsize queue message =
    if ltb (length queue) maxsize then queue ++ message ∷ [] else drop 1 queue ++ message ∷ []

pub record Broker (Channel M : Type 0) : Type 0 where
  pub subscribers : Dict Channel (List ℕ)
  pub queues : Dict ℕ (List M)
  pub next_queue : ℕ

unfoldable pub contains : ℕ → List ℕ → Bool
contains q [] = false
contains q (x ∷ xs) = if x == q then true else contains q xs

-- `set.add`, and `set.discard`.
pub add : ℕ → List ℕ → List ℕ
unfolding contains
add q xs = if contains q xs then xs else q ∷ xs

pub discard : ℕ → List ℕ → List ℕ
discard q xs = select (λ x. not (x == q)) xs

unfoldable pub or_empty : Option (List ℕ) → List ℕ
or_empty none = []
or_empty (some xs) = xs

module _ {M : Type 0} where
  put_in : ℕ → M → Option (List M) → Dict ℕ (List M) → Dict ℕ (List M)
  unfolding put_dropping_oldest
  put_in q message none queues = queues
  put_in q message (some queue) queues =
      Dict.put q (put_dropping_oldest queue_maxsize queue message) queues

  -- `for queue in list(...): _put_dropping_oldest(queue, message)`
  pub deliver : List ℕ → M → Dict ℕ (List M) → Dict ℕ (List M)
  unfolding put_in
  deliver [] message queues = queues
  deliver (q ∷ qs) message queues = deliver qs message (put_in q message (Dict.get q queues) queues)

module _ {Channel : Type 0} ⦃e : Eq Channel⦄ where
  write_back : List ℕ → Channel → Dict Channel (List ℕ) → Dict Channel (List ℕ)
  write_back [] key d = Dict.remove key d
  write_back (x ∷ xs) key d = Dict.put key (x ∷ xs) d

module _ {Channel M : Type 0} ⦃e : Eq Channel⦄ where
  -- `_subscribers.get(key, ())`
  unfoldable pub subscribers_of : Channel → Broker Channel M → List ℕ
  unfolding or_empty
  subscribers_of key b = or_empty (Dict.get key b.subscribers)

  -- `publish_update`; `none` is a payload that `json.dumps` refuses, which raises RealtimeError.
  pub publish_update : Channel → Option M → Broker Channel M → Option (Broker Channel M)
  unfolding deliver subscribers_of
  publish_update key none b = none
  publish_update key (some message) b =
      some (record b { queues = deliver (subscribers_of key b) message b.queues })

  -- `for key in keys: _subscribers.setdefault(key, set()).add(queue)`
  pub add_to_channels : ℕ → List Channel → Broker Channel M → Broker Channel M
  unfolding add subscribers_of
  add_to_channels q [] b = b
  add_to_channels q (key ∷ keys) b =
      add_to_channels q keys
        (record b { subscribers = Dict.put key (add q (subscribers_of key b)) b.subscribers })

  -- Entering `subscribe(*channels)`: a new empty queue, whose id is returned.
  pub subscribe : List Channel → Broker Channel M → ℕ × Broker Channel M
  unfolding add_to_channels
  subscribe keys b =
      let q = b.next_queue in
      (q, add_to_channels q keys (record b { queues = Dict.put q [] b.queues; next_queue = q + 1 }))

  drop_from : ℕ → Channel → Option (List ℕ) → Broker Channel M → Broker Channel M
  unfolding discard write_back
  drop_from q key none b = b
  drop_from q key (some subs) b = record b {
    subscribers = write_back (discard q subs) key b.subscribers;
  }

  -- Leaving the block: the queue is discarded from each channel, and an empty channel is deleted.
  pub unsubscribe : ℕ → List Channel → Broker Channel M → Broker Channel M
  unfolding drop_from
  unsubscribe q [] b = b
  unsubscribe q (key ∷ keys) b = unsubscribe q keys (drop_from q key (Dict.get key b.subscribers) b)
