-- ===== src/Omnichannel/Worker/Inbound/Redelivery.antt =====
-- The loop over a payload's items (app/services/omnichannel/worker.py), and the same payload delivered
-- again.
use a2z_core.Prelude.{
  ℕ, ◌≡◌, ◌≤◌, refl, sym, inl, inr, List, [], ◌∷◌, find, All, map, arith, Option-cases,
}
use mathlib.Core.Path.{subst}
use a2z_core.Prelude.Text.{Text}
use a2z_core.Prelude.Run.{Result, ok, err, Result-cases}
use a2z_core.Omnichannel.Model.{Db, World, Error}
use a2z_core.Omnichannel.Worker.Inbound.{
  NormalizedInboundMessage, Answers, is_delivery, process_item, process_items,
}
use a2z_core.Omnichannel.Worker.Inbound.Once.{
  count-none, deliveries, AllFresh, IsUnique, process_item-IsUnique, process_item-kept,
  process_item-there,
}

-- The loop ends where an item raises, and goes on where it returns.
module _ (org_id : ℕ) (channel_type : Text) (a : Answers) (item : NormalizedInboundMessage)
    (items : List (Answers × NormalizedInboundMessage)) (w : World) where
  process_items-raised :
      (e : Error)
      → (process_item a org_id channel_type item w).0 ≡ err e
      → process_items org_id channel_type ((a, item) ∷ items) w
        ≡ (err e, (process_item a org_id channel_type item w).1)
  unfolding process_items
  process_items-raised e raised = ground arith

  process_items-ended :
      (t : Unit {0})
      → (process_item a org_id channel_type item w).0 ≡ ok t
      → process_items org_id channel_type ((a, item) ∷ items) w
        ≡ process_items org_id channel_type items (process_item a org_id channel_type item w).1
  unfolding process_items
  process_items-ended t ended = ground arith

process_items-kept :
    (org_id : ℕ) (channel_type : Text) (items : List (Answers × NormalizedInboundMessage))
    (w : World)
    → AllFresh org_id channel_type items w
    → (t' e' : Text)
    → deliveries t' e' w.db ≤ deliveries t' e' (process_items org_id channel_type items w).1.db
unfolding process_items
process_items-kept org_id channel_type [] w fresh t' e' = omega arith
process_items-kept org_id channel_type ((a, item) ∷ items) w fresh t' e' =
    let w' = (process_item a org_id channel_type item w).1 in
    let first = process_item-kept a org_id channel_type item w fresh.0 t' e' in
    elim (Result-cases (process_item a org_id channel_type item w).0) [
      | inl (e, raised) ↦
          rw (process_items-raised org_id channel_type a item items w e raised) first
      | inr (done, ended) ↦
          let rest = process_items-kept org_id channel_type items w' fresh.1 t' e' in
          rw (process_items-ended org_id channel_type a item items w done ended)
            (omega (arith, first, rest))
    ]

process_items-IsUnique :
    (org_id : ℕ) (channel_type : Text) (items : List (Answers × NormalizedInboundMessage))
    (w : World)
    → AllFresh org_id channel_type items w
    → IsUnique w.db
    → IsUnique (process_items org_id channel_type items w).1.db
unfolding process_items
process_items-IsUnique org_id channel_type [] w fresh u = u
process_items-IsUnique org_id channel_type ((a, item) ∷ items) w fresh u =
    let w' = (process_item a org_id channel_type item w).1 in
    let first = process_item-IsUnique a org_id channel_type item w fresh.0 u in
    elim (Result-cases (process_item a org_id channel_type item w).0) [
      | inl (e, raised) ↦
          rw (process_items-raised org_id channel_type a item items w e raised) first
      | inr (done, ended) ↦
          rw (process_items-ended org_id channel_type a item items w done ended)
            (process_items-IsUnique org_id channel_type items w' fresh.1 first)
    ]

-- The item is among the messages.
abbrev IsThere : Text → Db → Answers × NormalizedInboundMessage → Type 0
IsThere channel_type db (a, item) = 1 ≤ deliveries channel_type item.external_message_id db

process_items-IsThere :
    (org_id : ℕ) (channel_type : Text) (items : List (Answers × NormalizedInboundMessage))
    (w : World)
    → AllFresh org_id channel_type items w
    → (process_items org_id channel_type items w).0 ≡ ok tt
    → All (IsThere channel_type (process_items org_id channel_type items w).1.db) items
unfolding process_items
process_items-IsThere org_id channel_type [] w fresh done = tt
process_items-IsThere org_id channel_type ((a, item) ∷ items) w fresh done =
    let w' = (process_item a org_id channel_type item w).1 in
    elim (Result-cases (process_item a org_id channel_type item w).0) [
      | inl (e, raised) ↦ absurd (ground arith)
      | inr (tt, ended) ↦
          let here = process_item-there a org_id channel_type item w fresh.0 ended in
          let kept =
            process_items-kept org_id channel_type items w' fresh.1 channel_type
              item.external_message_id in
          let shape = process_items-ended org_id channel_type a item items w tt ended in
          subst
            (λ (r : Result Error (Unit {0}) × World).
              All (IsThere channel_type r.1.db) ((a, item) ∷ items))
            (sym shape)
            (
              omega (arith, here, kept),
              process_items-IsThere org_id channel_type items w' fresh.1 (rw shape at done),
            )
    ]

-- Items that are all there.
process_items-again :
    (org_id : ℕ) (channel_type : Text) (items : List (Answers × NormalizedInboundMessage))
    (w : World)
    → All (IsThere channel_type w.db) items
    → process_items org_id channel_type items w ≡ (ok tt, w)
unfolding process_items process_item
process_items-again org_id channel_type [] w there = refl
process_items-again org_id channel_type ((a, item) ∷ items) w there =
    elim (Option-cases (find (is_delivery channel_type item.external_message_id) w.db.messages)) [
      | inl new ↦ absurd (
          let zero_ =
            count-none (is_delivery channel_type item.external_message_id) w.db.messages new in
          omega (arith, zero_, there.0))
      | inr (row, known) ↦
          let rest = process_items-again org_id channel_type items w there.1 in
          ground (arith, known, rest)
    ]

transfer :
    (channel_type : Text) (db : Db) (items again : List (Answers × NormalizedInboundMessage))
    → map (λ p. p.1) again ≡ map (λ p. p.1) items
    → All (IsThere channel_type db) items
    → All (IsThere channel_type db) again
transfer channel_type db [] [] e there = tt
transfer channel_type db [] (y ∷ again) e there = absurd (ground arith)
transfer channel_type db (x ∷ items) [] e there = absurd (ground arith)
transfer channel_type db ((a, item) ∷ items) ((b, item') ∷ again) e there =
    let same : item' ≡ item = ground arith in
    let rest : map (λ p. p.1) again ≡ map (λ p. p.1) items = ground arith in
    (rw same there.0, transfer channel_type db items again rest there.1)

All-one :
    (channel_type : Text) (db : Db) (items : List (Answers × NormalizedInboundMessage))
    → IsUnique db
    → All (IsThere channel_type db) items
    → All (λ p. deliveries channel_type p.1.external_message_id db ≡ 1) items
All-one channel_type db [] u there = tt
All-one channel_type db ((a, item) ∷ items) u there = (
  omega (arith, u channel_type item.external_message_id, there.0),
  All-one channel_type db items u there.1,
)

-- From tables in which no channel type and external id occurs twice, when the items of a payload have
-- been processed, each with a fresh id for its message, every one of them has exactly one message;
-- and when the same items come again, whatever fresh ids and answers of the outside they come with,
-- the processing returns and changes nothing: no table, and nothing is published.
pub process_items-once :
    (org_id : ℕ) (channel_type : Text) (items again : List (Answers × NormalizedInboundMessage))
    (w : World)
    → AllFresh org_id channel_type items w
    → IsUnique w.db
    → (process_items org_id channel_type items w).0 ≡ ok tt
    → map (λ p. p.1) again ≡ map (λ p. p.1) items
    → let w' = (process_items org_id channel_type items w).1 in
      All (λ p. deliveries channel_type p.1.external_message_id w'.db ≡ 1) items
      × (process_items org_id channel_type again w' ≡ (ok tt, w'))
process_items-once org_id channel_type items again w fresh u done same =
    let w' = (process_items org_id channel_type items w).1 in
    let there = process_items-IsThere org_id channel_type items w fresh done in
    (
      All-one channel_type w'.db items (process_items-IsUnique org_id channel_type items w fresh u)
          there,
      process_items-again org_id channel_type again w'
          (transfer channel_type w'.db items again same there),
    )
