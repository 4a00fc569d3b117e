-- ===== src/Omnichannel/Inbox/Order.antt =====
-- The order of the inbox (`ORDER BY last_message_at NULLS LAST, id` in either direction) and the
-- continuation predicate `_cursor_predicate` of app/services/omnichannel/inbox.py.
use a2z_core.Prelude.{
  ℕ, ◌≡◌, ◌≢◌, refl, Bool, true, false, ◌&&◌, ◌||◌, ltb, ◌==◌, Option, none, some, arith,
}

-- What the query sorts on: `last_message_at` and the id, which breaks ties.
abbrev pub Key : Type 0
Key = Option ℕ × ℕ

-- The first key comes before the second, newest first or oldest first.
unfoldable pub before : Bool → Key → Key → Bool
before true (some t, i) (some u, j) = ltb u t || t == u && ltb j i
before false (some t, i) (some u, j) = ltb t u || t == u && ltb i j
before desc (some t, i) (none, j) = true
before desc (none, i) (some u, j) = false
before true (none, i) (none, j) = ltb j i
before false (none, i) (none, j) = ltb i j

-- `_cursor_predicate`: a row's key, after that of the cursor. A comparison with NULL is not true.
unfoldable pub cursor_predicate : Bool → Key → Key → Bool
cursor_predicate true (some ts, id_) (some col, id) = ltb col ts || col == ts && ltb id id_
cursor_predicate true (some ts, id_) (none, id) = true
cursor_predicate true (none, id_) (some col, id) = false
cursor_predicate true (none, id_) (none, id) = ltb id id_
cursor_predicate false (some ts, id_) (some col, id) = ltb ts col || col == ts && ltb id_ id
cursor_predicate false (some ts, id_) (none, id) = false
cursor_predicate false (none, id_) (some col, id) = false
cursor_predicate false (none, id_) (none, id) = ltb id_ id

pub before_irrefl : (desc : Bool) (a : Key) → before desc a a ≡ false
unfolding before
before_irrefl true (some t, i) = ground arith
before_irrefl true (none, i) = ground arith
before_irrefl false (some t, i) = ground arith
before_irrefl false (none, i) = ground arith

pub before_trans :
    (desc : Bool) (a b c : Key)
    → before desc a b ≡ true
    → before desc b c ≡ true
    → before desc a c ≡ true
unfolding before
before_trans true (some t, i) (some u, j) (some v, k) p q = ground arith
before_trans true (some t, i) (some u, j) (none, k) p q = ground arith
before_trans true (some t, i) (none, j) (some v, k) p q = ground arith
before_trans true (some t, i) (none, j) (none, k) p q = ground arith
before_trans true (none, i) (some u, j) c p q = ground arith
before_trans true (none, i) (none, j) (some v, k) p q = ground arith
before_trans true (none, i) (none, j) (none, k) p q = ground arith
before_trans false (some t, i) (some u, j) (some v, k) p q = ground arith
before_trans false (some t, i) (some u, j) (none, k) p q = ground arith
before_trans false (some t, i) (none, j) (some v, k) p q = ground arith
before_trans false (some t, i) (none, j) (none, k) p q = ground arith
before_trans false (none, i) (some u, j) c p q = ground arith
before_trans false (none, i) (none, j) (some v, k) p q = ground arith
before_trans false (none, i) (none, j) (none, k) p q = ground arith

-- Keys with different ids are comparable.
pub before_total :
    (desc : Bool) (a b : Key) → a.1 ≢ b.1 → before desc a b ≡ false → before desc b a ≡ true
unfolding before
before_total true (some t, i) (some u, j) ne p = ground arith
before_total true (some t, i) (none, j) ne p = ground arith
before_total true (none, i) (some u, j) ne p = ground arith
before_total true (none, i) (none, j) ne p = ground arith
before_total false (some t, i) (some u, j) ne p = ground arith
before_total false (some t, i) (none, j) ne p = ground arith
before_total false (none, i) (some u, j) ne p = ground arith
before_total false (none, i) (none, j) ne p = ground arith

abbrev pub is_active : Key → Bool
is_active (none, id) = false
is_active (some ts, id) = true

-- The predicate follows the order: newest first for all keys, oldest first for those with a time.
pub cursor_predicate-before_desc : (c k : Key) → cursor_predicate true c k ≡ before true c k
unfolding cursor_predicate before
cursor_predicate-before_desc (some t, i) (some u, j) = ground arith
cursor_predicate-before_desc (some t, i) (none, j) = refl
cursor_predicate-before_desc (none, i) (some u, j) = refl
cursor_predicate-before_desc (none, i) (none, j) = refl

pub cursor_predicate-before_asc :
    (c k : Key)
    → is_active c ≡ true
    → is_active k ≡ true
    → cursor_predicate false c k ≡ before false c k
unfolding cursor_predicate before
cursor_predicate-before_asc (some t, i) (some u, j) p q = ground arith
cursor_predicate-before_asc (some t, i) (none, j) p q = absurd (ground arith)
cursor_predicate-before_asc (none, i) k p q = absurd (ground arith)
