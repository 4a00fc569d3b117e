-- ===== src/Omnichannel/Inbox/Bounds.antt =====
-- What a page of `list_conversations` in app/services/omnichannel/inbox.py can hold.
use a2z_core.Prelude.{
  length-take-le, length-map, All-take, All-map, All-select_self, ℕ, zero, suc, ◌≡◌, ◌≢◌, ◌≤◌, refl,
  sym, ◌∙◌, ap, inl, inr, Bool, true, false, Option, none, some, List, length, take, select, All,
  Bool-cases, arith,
}
use a2z_core.Prelude.Text.{Text}
use a2z_core.Prelude.Run.{Result, ok, err, Result-cases}
use a2z_core.Omnichannel.Access.{require_membership}
use a2z_core.Omnichannel.Model.{World, Error}
use a2z_core.Omnichannel.Inbox.{
  Outside, Query, Row, ℤ, ConversationPage, clamp, max_limit, summary, row_key, matching,
  is_sort_field, sort_desc, default_conversation_limit, conversation_page, decode_optional,
  decode_optional-some, list_conversations,
}
use a2z_core.Omnichannel.Inbox.Order.{Key, cursor_predicate}
use a2z_core.Omnichannel.Inbox.Cursor.{decode_cursor}
use a2z_core.Omnichannel.Inbox.Keyset.{order_by, continues, fetch}
use a2z_core.Omnichannel.Inbox.Keyset.Sorting.{All-order_by}

clamp-le : (limit : ℤ) → clamp limit default_conversation_limit ≤ max_limit
unfolding clamp
clamp-le (ℤ.pos zero) = omega arith
clamp-le (ℤ.pos (suc n)) = ground arith
clamp-le (ℤ.negsuc n) = omega arith

-- The page that a call answers with is one that was fetched.
list_conversations-fetch :
    (outside : Outside) (query : Query) (cursor : Option Text) (w : World) (page : ConversationPage)
    → list_conversations outside query cursor w ≡ (ok page, w)
    → (key : Option Key) × (decode_optional outside.codec cursor ≡ ok key)
      × (page
          ≡ conversation_page outside.codec (
              fetch row_key
                (sort_desc query)
                (clamp query.limit default_conversation_limit)
                key
                (matching outside query w.db)))
unfolding list_conversations
list_conversations-fetch outside query cursor w page e =
    elim (Result-cases (require_membership outside.memberships query.user_id query.org_id)) [
      | inl (x, refused) ↦
          let r : list_conversations outside query cursor w ≡ (err x, w) = rw refused refl in
          absurd (err≢ok x w (sym r ∙ e))
      | inr (role, member) ↦ elim (Bool-cases (is_sort_field query.sort)) [
        | inr unknown ↦
            let r : list_conversations outside query cursor w ≡ (err Error.invalid_query, w) =
              rw (member, unknown) refl in
            absurd (err≢ok Error.invalid_query w (sym r ∙ e))
        | inl known ↦ elim (Result-cases (decode_optional outside.codec cursor)) [
          | inl (x, malformed) ↦
              let r : list_conversations outside query cursor w ≡ (err x, w) =
                rw (member, known, malformed) refl in
              absurd (err≢ok x w (sym r ∙ e))
          | inr (key, decoded) ↦
              let found = conversation_page outside.codec (
                fetch row_key (sort_desc query) (clamp query.limit default_conversation_limit) key
                  (matching outside query w.db)) in
              let r : list_conversations outside query cursor w ≡ (ok found, w) =
                rw (member, known, decoded) refl in
              (key, decoded, same found (sym e ∙ r))
        ]
      ]
    ]
  where
    err≢ok :
        (x : Error) (w' : World)
        → ◌≢◌ {A = Result Error ConversationPage × World} (err x, w') (ok page, w)
    err≢ok x w' h = let h' = ap (λ z. z.0) h in cc

    same :
        (found : ConversationPage)
        → ◌≡◌ {A = Result Error ConversationPage × World} (ok page, w) (ok found, w)
        → page ≡ found
    same found h = let h' = ap (λ z. z.0) h in cc

-- However large the limit is that the caller asks for, a page of `list_conversations` holds at most
-- 100 conversations.
pub list_conversations-length :
    (outside : Outside) (query : Query) (cursor : Option Text) (w : World) (page : ConversationPage)
    → list_conversations outside query cursor w ≡ (ok page, w)
    → length page.items ≤ 100
unfolding fetch
list_conversations-length outside query cursor w page e =
    let (key, decoded, is_page) = list_conversations-fetch outside query cursor w page e in
    let page_size = clamp query.limit default_conversation_limit in
    let fetched = take (suc page_size) (
      order_by row_key (sort_desc query)
        (select (continues row_key (sort_desc query) key) (matching outside query w.db))) in
    let counted : length page.items ≡ length (take page_size fetched) =
      ap (λ p. length p.items) is_page ∙ length-map summary (take page_size fetched) in
    omega (arith, counted, length-take-le page_size fetched, clamp-le query.limit)

timed : (t i : ℕ) (k : Key) → cursor_predicate false (some t, i) k ≡ true → k.0 ≢ none
unfolding cursor_predicate
timed t i (some u, j) h = λ e. cc
timed t i (none, j) h = cc

fetch-All :
    (P : Row → Type 0) (desc : Bool) (page_size : ℕ) (key : Option Key) (rows : List Row)
    → ((r : Row) → continues row_key desc key r ≡ true → P r)
    → All P (fetch row_key desc page_size key rows).0
unfolding fetch
fetch-All P desc page_size key rows holds =
    let chosen = select (continues row_key desc key) rows in
    let sorted = order_by row_key desc chosen in
    All-take P page_size (take (suc page_size) sorted) (
      All-take P (suc page_size) sorted (
        All-order_by row_key desc P chosen
          (All-select_self P (continues row_key desc key) rows holds)))

-- Oldest first, a page that is reached by a cursor with a time holds no conversation without a
-- `last_message_at`: those are in the order after all others, but no such cursor leads to them.
pub list_conversations-oldest_first :
    (outside : Outside) (query : Query) (cursor : Text) (t i : ℕ) (w : World)
    (page : ConversationPage)
    → decode_cursor outside.codec cursor ≡ ok (some t, i)
    → sort_desc query ≡ false
    → list_conversations outside query (some cursor) w ≡ (ok page, w)
    → All (λ item. item.last_message_at ≢ none) page.items
list_conversations-oldest_first outside query cursor t i w page decoded asc e =
    let (key, decoded', is_page) = list_conversations-fetch outside query (some cursor) w page e in
    let found : key ≡ some (some t, i) =
      let both = sym decoded' ∙ decode_optional-some outside.codec cursor (some t, i) decoded in
      cc in
    let page_size = clamp query.limit default_conversation_limit in
    let fetched =
      fetch-All (λ r. (row_key r).0 ≢ none) false page_size (some (some t, i))
        (matching outside query w.db) (λ r. timed t i (row_key r)) in
    rw (is_page, found, asc)
      (All-map (λ item. item.last_message_at ≢ none) summary
        (fetch row_key false page_size (some (some t, i)) (matching outside query w.db)).0 fetched)
