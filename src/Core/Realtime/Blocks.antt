-- ===== src/Core/Realtime/Blocks.antt =====
-- A whole `subscribe` block of app/core/realtime.py, with what other tasks publish, enter and leave
-- while it is open.
use a2z_core.Prelude.{
  ℕ, ◌+◌, ◌≡◌, refl, sym, ◌∙◌, ◌≢◌, ◌<◌, false, ◌&&◌, ◌||◌, Option, none, some, List, [], ◌∷◌, ◌==◌,
  All, arith,
}
use a2z_core.Prelude.Dict
use a2z_core.Prelude.Dict.{Eq, nat_eq}
use a2z_core.Core.Realtime.{
  Broker, contains, subscribers_of, publish_update, subscribe, drop_from, unsubscribe,
}
use a2z_core.Core.Realtime.Lifetime.{
  IsValid, mem, with_queue, subscribe-contains, unsubscribe-contains, queues-add_to_channels,
}

-- What another task does: it publishes a payload, enters a block, or leaves one.
pub data Step (Channel M : Type 0) : Type 0 where
  publishing : Channel → Option M → Step Channel M
  entering : List Channel → Step Channel M
  leaving : ℕ → List Channel → Step Channel M

-- The step does not leave the block of the queue.
abbrev pub Spares : {Channel M : Type 0} → ℕ → Step Channel M → Type 0
Spares q (publishing key payload) = Unit
Spares q (entering keys) = Unit
Spares q (leaving p keys) = p ≢ q

module _ {Channel M : Type 0} ⦃e : Eq Channel⦄ where
  -- A payload that is refused changes nothing.
  abbrev pub or_same : Broker Channel M → Option (Broker Channel M) → Broker Channel M
  or_same b none = b
  or_same b (some b') = b'

  unfoldable pub run : List (Step Channel M) → Broker Channel M → Broker Channel M
  run [] b = b
  run (publishing key payload ∷ steps) b = run steps (or_same b (publish_update key payload b))
  run (entering keys ∷ steps) b = run steps (subscribe keys b).1
  run (leaving q keys ∷ steps) b = run steps (unsubscribe q keys b)

  drop_from-next_queue :
      (q : ℕ) (key : Channel) (found : Option (List ℕ)) (b : Broker Channel M)
      → (drop_from q key found b).next_queue ≡ b.next_queue
  unfolding drop_from
  drop_from-next_queue q key none b = refl
  drop_from-next_queue q key (some subs) b = refl

  unsubscribe-next_queue :
      (q : ℕ) (keys : List Channel) (b : Broker Channel M)
      → (unsubscribe q keys b).next_queue ≡ b.next_queue
  unfolding unsubscribe
  unsubscribe-next_queue q [] b = refl
  unsubscribe-next_queue q (key ∷ keys) b =
      let found = Dict.get key b.subscribers in
      unsubscribe-next_queue q keys (drop_from q key found b) ∙ drop_from-next_queue q key found b

  subscribe-next_queue :
      (keys : List Channel) (b : Broker Channel M)
      → (subscribe keys b).1.next_queue ≡ b.next_queue + 1
  unfolding subscribe
  subscribe-next_queue keys b = (queues-add_to_channels b.next_queue keys (with_queue b)).1

  module _ (q : ℕ) (keys : List Channel) where
    -- The first broker is the second with the queue on the channels, where it is on none.
    record IsJoined (s t : Broker Channel M) : Type 0 where
      same_next : s.next_queue ≡ t.next_queue
      used : q < t.next_queue
      joined :
          (key : Channel) (p : ℕ)
          → contains p (subscribers_of key s)
            ≡ ((q == p && mem key keys) || contains p (subscribers_of key t))
      absent : (key : Channel) → contains q (subscribers_of key t) ≡ false

    publish_update-IsJoined :
        (key : Channel) (payload : Option M) (s t : Broker Channel M)
        → IsJoined s t
        → IsJoined
            (or_same s (publish_update key payload s))
            (or_same t (publish_update key payload t))
    unfolding publish_update subscribers_of
    publish_update-IsJoined key none s t j = j
    publish_update-IsJoined key (some message) s t j = record {
      same_next = j.same_next;
      used = j.used;
      joined = j.joined;
      absent = j.absent;
    }

    subscribe-IsJoined :
        (ks : List Channel) (s t : Broker Channel M)
        → IsJoined s t
        → IsJoined (subscribe ks s).1 (subscribe ks t).1
    subscribe-IsJoined ks s t j = record {
      same_next =
          let a = subscribe-next_queue ks s in
          let b = subscribe-next_queue ks t in let next = j.same_next in omega (arith, a, b, next);
      used = let b = subscribe-next_queue ks t in let below = j.used in omega (arith, b, below);
      joined = λ key p.
          rw (subscribe-contains ks s key p, subscribe-contains ks t key p)
            (ground (arith, j.same_next, j.joined key p));
      absent = λ key. rw (subscribe-contains ks t key q) (ground (arith, j.used, j.absent key));
    }

    unsubscribe-IsJoined :
        (x : ℕ) (ks : List Channel) (s t : Broker Channel M)
        → x ≢ q
        → IsJoined s t
        → IsJoined (unsubscribe x ks s) (unsubscribe x ks t)
    unsubscribe-IsJoined x ks s t ne j = record {
      same_next = unsubscribe-next_queue x ks s ∙ j.same_next ∙ sym (unsubscribe-next_queue x ks t);
      used = let b = unsubscribe-next_queue x ks t in let below = j.used in omega (arith, b, below);
      joined = λ key p.
          rw (unsubscribe-contains x p ks s key, unsubscribe-contains x p ks t key)
            (ground (arith, ne, j.joined key p));
      absent = λ key. rw (unsubscribe-contains x q ks t key) (ground (arith, ne, j.absent key));
    }

    run-IsJoined :
        (steps : List (Step Channel M)) (s t : Broker Channel M)
        → All (Spares q) steps
        → IsJoined s t
        → IsJoined (run steps s) (run steps t)
    unfolding run
    run-IsJoined [] s t spares j = j
    run-IsJoined (publishing key payload ∷ steps) s t spares j =
        run-IsJoined steps (or_same s (publish_update key payload s))
          (or_same t (publish_update key payload t)) spares.1
          (publish_update-IsJoined key payload s t j)
    run-IsJoined (entering ks ∷ steps) s t spares j =
        run-IsJoined steps (subscribe ks s).1 (subscribe ks t).1 spares.1
          (subscribe-IsJoined ks s t j)
    run-IsJoined (leaving x ks ∷ steps) s t spares j =
        run-IsJoined steps (unsubscribe x ks s) (unsubscribe x ks t) spares.1
          (unsubscribe-IsJoined x ks s t spares.0 j)

    leave :
        (s t : Broker Channel M) (key : Channel) (p : ℕ)
        → IsJoined s t
        → contains p (subscribers_of key (unsubscribe q keys s)) ≡ contains p (subscribers_of key t)
    leave s t key p j =
        rw (unsubscribe-contains q p keys s key) (ground (arith, j.joined key p, j.absent key))

  enter-IsJoined :
      (keys : List Channel) (b : Broker Channel M)
      → IsValid b
      → IsJoined b.next_queue keys (subscribe keys b).1 (with_queue b)
  unfolding subscribers_of
  enter-IsJoined keys b v = record {
    same_next = subscribe-next_queue keys b;
    used = omega arith;
    joined = λ key p. subscribe-contains keys b key p;
    absent = λ key. v.used key b.next_queue (omega arith);
  }

  -- A `subscribe` block leaves no trace on who is subscribed: whatever other tasks publish, enter and
  -- leave while it is open, once it is left a queue is on a channel exactly if it were after the
  -- same steps with the block's queue made but never put on a channel. The broker is valid when the
  -- block is entered, and the other tasks leave only blocks of their own.
  pub unsubscribe-run :
      (keys : List Channel) (steps : List (Step Channel M)) (b : Broker Channel M)
      → IsValid b
      → All (Spares b.next_queue) steps
      → let (q, b') = subscribe keys b in
        (key : Channel) (p : ℕ)
        → contains p (subscribers_of key (unsubscribe q keys (run steps b')))
          ≡ contains p (subscribers_of key (run steps (with_queue b)))
  unfolding subscribe
  unsubscribe-run keys steps b v spares key p =
      leave b.next_queue keys (run steps (subscribe keys b).1) (run steps (with_queue b)) key p (
        run-IsJoined b.next_queue keys steps (subscribe keys b).1 (with_queue b) spares
          (enter-IsJoined keys b v))
