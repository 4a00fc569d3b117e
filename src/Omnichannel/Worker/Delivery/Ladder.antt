-- ===== src/Omnichannel/Worker/Delivery/Ladder.antt =====
-- Delivery statuses and the order in which they arrive (`_apply_delivery_status` of
-- app/services/omnichannel/worker.py).
use a2z_core.Prelude.{
  ℕ, ◌≡◌, inl, inr, Bool, true, false, some, List, [], ◌∷◌, All, map, find, max, leb, if◌then◌else◌,
  arith, Bool-cases,
}
use mathlib.Core.Path.{subst}
use a2z_core.Prelude.Text.{Text}
use a2z_core.Prelude.Dict
use a2z_core.Prelude.Dict.{nat_eq}
use a2z_core.Omnichannel.Model.{MessageStatus, Message, World}
use a2z_core.Omnichannel.Worker.Delivery.{
  DeliveryStatusUpdate, status_rank, is_failed, is_stale, is_target, set_status,
  apply_delivery_status, apply_all,
}

-- The status of one message under one update.
abbrev pub advance : MessageStatus → MessageStatus → MessageStatus
advance old new = if is_stale new old then old else new

abbrev pub highest : List MessageStatus → ℕ
highest [] = 0
highest (u ∷ us) = max (status_rank u) (highest us)

find-true : {A : Type 0} (p : A → Bool) (xs : List A) (x : A) → find p xs ≡ some x → p x ≡ true
find-true p [] x h = absurd (ground arith)
find-true p (y ∷ xs) x h = elim (Bool-cases (p y)) [
  | inl yes_ ↦ ground arith
  | inr skip ↦ find-true p xs x (rw skip at h)
]

advance-rank :
    (s u : MessageStatus)
    → is_failed u ≡ false
    → status_rank (advance s u) ≡ max (status_rank s) (status_rank u)
advance-rank s u h = elim (Bool-cases (leb (status_rank u) (status_rank s))) [
  | inl stale ↦ ground arith
  | inr new ↦ ground arith
]

-- The message that the lookup finds, after one update of it.
found_after :
    (org_id : ℕ) (channel_type : Text) (u : DeliveryStatusUpdate) (w : World) (id : ℕ) (m : Message)
    → find (is_target org_id channel_type u.external_message_id) w.db.messages ≡ some (id, m)
    → find
        (is_target org_id channel_type u.external_message_id)
        (apply_delivery_status org_id channel_type u w).db.messages
      ≡ some (id, record m { status = advance m.status u.status })
unfolding apply_delivery_status set_status Dict.put
found_after org_id channel_type u w id m found =
    let hit : is_target org_id channel_type u.external_message_id (id, m) ≡ true =
      find-true (is_target org_id channel_type u.external_message_id) w.db.messages (id, m) found in
    elim (Bool-cases (is_stale u.status m.status)) [
      | inl stale ↦ ground (arith, found, stale)
      | inr new ↦ ground (arith, found, new, hit)
    ]

found_after_at :
    (org_id : ℕ) (channel_type e : Text) (u : DeliveryStatusUpdate) (w : World) (id : ℕ)
    (m : Message)
    → u.external_message_id ≡ e
    → find (is_target org_id channel_type e) w.db.messages ≡ some (id, m)
    → find
        (is_target org_id channel_type e)
        (apply_delivery_status org_id channel_type u w).db.messages
      ≡ some (id, record m { status = advance m.status u.status })
found_after_at org_id channel_type e u w id m same =
    subst
      (λ x.
        find (is_target org_id channel_type x) w.db.messages ≡ some (id, m)
        → find (is_target org_id channel_type x)
            (apply_delivery_status org_id channel_type u w).db.messages
          ≡ some (id, record m { status = advance m.status u.status }))
      same (found_after org_id channel_type u w id m)

-- After updates of one message that are not `failed`, in whatever order they arrive and however
-- often, the message that the lookup finds is the same one, and it stands on the highest rung of the
-- ladder among the updates and the one it stood on; a message that had failed stands as if below the
-- lowest rung, so that it leaves `failed` at the first such update.
pub apply_all-highest :
    (org_id : ℕ) (channel_type e : Text) (us : List DeliveryStatusUpdate) (w : World) (id : ℕ)
    (m : Message)
    → All (λ u. (u.external_message_id ≡ e) × (is_failed u.status ≡ false)) us
    → find (is_target org_id channel_type e) w.db.messages ≡ some (id, m)
    → (m' : Message) × (find
          (is_target org_id channel_type e)
          (apply_all org_id channel_type us w).db.messages
        ≡ some (id, m'))
      × (status_rank m'.status ≡ max (status_rank m.status) (highest (map (λ u. u.status) us)))
unfolding apply_all
apply_all-highest org_id channel_type e [] w id m h found = (m, found, omega arith)
apply_all-highest org_id channel_type e (u ∷ us) w id m h found =
    let (same, live) = h.0 in
    let moved : Message = record m { status = advance m.status u.status } in
    let first = found_after_at org_id channel_type e u w id m same found in
    let (m', here, rank) =
      apply_all-highest org_id channel_type e us (apply_delivery_status org_id channel_type u w) id
        moved h.1 first in
    (m', here, omega (arith, rank, advance-rank m.status u.status live))
