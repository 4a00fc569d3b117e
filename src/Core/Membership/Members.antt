-- ===== src/Core/Membership/Members.antt =====
-- The listing of an org's members (app/core/membership.py, `list_org_members`).
use a2z_core.Prelude.{
  ℕ, ◌≡◌, ◌≤◌, refl, ◌∙◌, ap, ◌++◌, inl, inr, Bool, false, ◌==◌, List, [], ◌∷◌, count, select, map,
  leb, All, if◌then◌else◌, arith, Bool-cases,
}
use a2z_core.Core.Role.{role_order}
use a2z_core.Core.Membership.{
  Membership, Table, Query, rows_of_org, insert_member, sort_members, list_org_members,
}

abbrev rank : Membership → ℕ
rank m = role_order m.role

-- Each member ranks before all that follow.
abbrev pub IsSorted : List Membership → Type 0
IsSorted [] = Unit
IsSorted (m ∷ ms) = All (λ n. role_order m.role ≤ role_order n.role) ms × IsSorted ms

All-le :
    (a b : ℕ) (ms : List Membership) → a ≤ b → All (λ n. b ≤ rank n) ms → All (λ n. a ≤ rank n) ms
All-le a b [] h hs = tt
All-le a b (m ∷ ms) h hs = (omega (arith, h, hs.0), All-le a b ms h hs.1)

All-insert_member :
    (a : ℕ) (m : Membership) (ms : List Membership)
    → a ≤ rank m
    → All (λ n. a ≤ rank n) ms
    → All (λ n. a ≤ rank n) (insert_member m ms)
unfolding insert_member
All-insert_member a m [] h hs = (h, tt)
All-insert_member a m (n ∷ ms) h hs = elim (Bool-cases (leb (rank m) (rank n))) [
  | inl first ↦ rw first (h, hs)
  | inr later ↦ rw later (hs.0, All-insert_member a m ms h hs.1)
]

insert_member-IsSorted :
    (m : Membership) (ms : List Membership) → IsSorted ms → IsSorted (insert_member m ms)
unfolding insert_member
insert_member-IsSorted m [] s = (tt, tt)
insert_member-IsSorted m (n ∷ ms) s = elim (Bool-cases (leb (rank m) (rank n))) [
  | inl first ↦
      let le : rank m ≤ rank n = ground arith in
      rw first ((le, All-le (rank m) (rank n) ms le s.0), s)
  | inr later ↦
      let le : rank n ≤ rank m = ground arith in
      rw later (All-insert_member (rank n) m ms le s.0, insert_member-IsSorted m ms s.1)
]

sort_members-IsSorted : (ms : List Membership) → IsSorted (sort_members ms)
unfolding sort_members
sort_members-IsSorted [] = tt
sort_members-IsSorted (m ∷ ms) =
    insert_member-IsSorted m (sort_members ms) (sort_members-IsSorted ms)

count-insert_member :
    (p : Membership → Bool) (m : Membership) (ms : List Membership)
    → count p (insert_member m ms) ≡ count p (m ∷ ms)
unfolding insert_member
count-insert_member p m [] = refl
count-insert_member p m (n ∷ ms) = elim (Bool-cases (leb (rank m) (rank n))) [
  | inl first ↦ rw first refl
  | inr later ↦ rw later (omega (arith, count-insert_member p m ms))
]

count-sort_members :
    (p : Membership → Bool) (ms : List Membership) → count p (sort_members ms) ≡ count p ms
unfolding sort_members
count-sort_members p [] = refl
count-sort_members p (m ∷ ms) =
    omega (arith, count-insert_member p m (sort_members ms), count-sort_members p ms)

count-select :
    (p q : Membership → Bool) (ms : List Membership)
    → count p (select q ms) ≡ count (λ m. if q m then p m else false) ms
count-select p q [] = refl
count-select p q (m ∷ ms) = elim (Bool-cases (q m)) [
  | inl in_ ↦ rw in_ (omega (arith, count-select p q ms))
  | inr out ↦ rw out (omega (arith, count-select p q ms))
]

count-append : (p : Membership → Bool) (xs ys : List Membership) → count p xs ≤ count p (xs ++ ys)
count-append p [] ys = omega arith
count-append p (m ∷ xs) ys = elim (Bool-cases (p m)) [
  | inl in_ ↦ rw in_ (omega (arith, count-append p xs ys))
  | inr out ↦ rw out (omega (arith, count-append p xs ys))
]

-- A page of a query is a beginning of the rows, and all of them when nothing is left to read.
abbrev pub IsPaged : Query → Type 0
IsPaged query =
    (rows : List Membership)
    → ((rest : List Membership) × (rows ≡ query.items rows ++ rest))
      × (query.has_more rows ≡ false → query.items rows ≡ rows)

-- The members of an org are listed owners first, then admins, members and guests. The list has no
-- membership of another org and none more often than the table has it; when the query's one page
-- comes without a LastEvaluatedKey, it has every membership of the org as often as the table. A page
-- of a query is a beginning of the selected rows, and all of them if it comes without that key.
pub list_org_members-IsSorted :
    (query : Query)
    → IsPaged query
    → (org_id : ℕ) (t : Table)
    → let in_org = λ (p : Membership → Bool).
      count (λ m. if m.org_id == org_id then p m else false) (map (λ kv. kv.1) t.members) in
      IsSorted (list_org_members query org_id t)
      × ((p : Membership → Bool) → count p (list_org_members query org_id t) ≤ in_org p)
      × (query.has_more (rows_of_org org_id t) ≡ false
          → (p : Membership → Bool) → count p (list_org_members query org_id t) ≡ in_org p)
list_org_members-IsSorted query paged org_id t =
    let rows = rows_of_org org_id t in
    let ((rest, begins), complete) = paged rows in
    let all = λ (p : Membership → Bool).
      count-select p (λ m. m.org_id == org_id) (map (λ kv. kv.1) t.members) in
    (
      sort_members-IsSorted _,
      λ p.
          let sorted = count-sort_members p (query.items rows) in
          let part = count-append p (query.items rows) rest in
          let whole = ap (count p) begins in
          let selected = all p in omega (arith, sorted, part, whole, selected),
      λ last p. count-sort_members p (query.items rows) ∙ ap (count p) (complete last) ∙ all p,
    )
