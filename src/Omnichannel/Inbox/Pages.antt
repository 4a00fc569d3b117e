-- ===== src/Omnichannel/Inbox/Pages.antt =====
-- A client that follows the cursors of `list_conversations` in app/services/omnichannel/inbox.py.
use a2z_core.Prelude.{
  map-append, ℕ, zero, suc, ◌≡◌, ◌≢◌, ◌≤◌, ◌<◌, refl, sym, ◌∙◌, ap, ◌⊎◌, inl, inr, Bool, true,
  Option, none, some, List, [], ◌∷◌, ◌++◌, map, length, select, count, All, Bool-cases, arith,
}
use a2z_core.Prelude.Text.{Text}
use a2z_core.Prelude.Dict
use a2z_core.Prelude.Dict.{Dict, nat_eq}
use a2z_core.Prelude.Run.{Result, ok, err}
use a2z_core.Core.Role.{Role}
use a2z_core.Omnichannel.Access.{require_membership}
use a2z_core.Omnichannel.Model.{ChannelIdentity, Conversation, World, Error}
use a2z_core.Omnichannel.Inbox.{
  Outside, Query, Row, ℤ, ConversationSummary, ConversationPage, clamp, summary, row_key,
  with_identity, join, matches, matching, is_sort_field, sort_desc, default_conversation_limit,
  conversation_page, encode_optional, decode_optional, decode_optional-some, list_conversations,
}
use a2z_core.Omnichannel.Inbox.Order.{
  Key, is_active, before, cursor_predicate, cursor_predicate-before_desc,
  cursor_predicate-before_asc,
}
use a2z_core.Omnichannel.Inbox.Cursor.{IsCodec, encode_cursor, decode_cursor-encode_cursor}
use a2z_core.Omnichannel.Inbox.Keyset.{order_by, fetch}
use a2z_core.Omnichannel.Inbox.Keyset.Sorting.{
  IsSorted, HasIds, All-select, order_by-IsSorted, count-order_by,
}
use a2z_core.Omnichannel.Inbox.Keyset.Pages.{StandsAt, Leaves, fetch-Leaves}

-- What the client does with a page: it calls again while there is a `next_cursor`.
abbrev pub after :
    List ConversationSummary → Option (List ConversationSummary) → Option (List ConversationSummary)
after items none = none
after items (some others) = some (items ++ others)

abbrev pub read_on :
    (Option Text → World → Option (List ConversationSummary))
    → Result Error ConversationPage × World
    → Option (List ConversationSummary)
read_on again (err e, w) = none
read_on again (ok page, w) = elim page.next_cursor [
  | none ↦ some page.items
  | some next ↦ after page.items (again (some next) w)
]

-- Calls until a page has no `next_cursor`; none when the calls are not enough, or one fails.
unfoldable pub read_all :
    ℕ → Outside → Query → Option Text → World → Option (List ConversationSummary)
read_all zero outside query cursor w = none
read_all (suc calls) outside query cursor w =
    read_on (λ next w'. read_all calls outside query next w')
      (list_conversations outside query cursor w)

clamp-positive : (limit : ℤ) → 1 ≤ clamp limit default_conversation_limit
unfolding clamp
clamp-positive (ℤ.pos zero) = omega arith
clamp-positive (ℤ.pos (suc n)) = ground arith
clamp-positive (ℤ.negsuc n) = omega arith

-- Every row can be reached: newest first, or each has a `last_message_at`.
abbrev pub Reachable : Query → Key → Type 0
Reachable query k = (sort_desc query ≡ true) ⊎ (is_active k ≡ true)

agrees :
    (query : Query) (c k : Key)
    → Reachable query c
    → Reachable query k
    → cursor_predicate (sort_desc query) c k ≡ before (sort_desc query) c k
agrees query c k (inl desc) _ = rw desc (cursor_predicate-before_desc c k)
agrees query c k (inr p) (inl desc) = rw desc (cursor_predicate-before_desc c k)
agrees query c k (inr p) (inr q) = elim (Bool-cases (sort_desc query)) [
  | inl desc ↦ rw desc (cursor_predicate-before_desc c k)
  | inr asc ↦ rw asc (cursor_predicate-before_asc c k p q)
]

-- The caller is a member of the org, and the sort is one of the two.
abbrev pub IsAllowed : Outside → Query → Type 0
IsAllowed outside query =
    ((role : Role) × (require_membership outside.memberships query.user_id query.org_id ≡ ok role))
    × (is_sort_field query.sort ≡ true)

decode-encode_optional :
    (outside : Outside) (c : Option Key)
    → IsCodec outside.codec
    → decode_optional outside.codec (encode_optional outside.codec c) ≡ ok c
unfolding decode_optional
decode-encode_optional outside none laws = refl
decode-encode_optional outside (some key) laws =
    decode_optional-some outside.codec (encode_cursor outside.codec key) key
      (decode_cursor-encode_cursor outside.codec key laws)

list_conversations-page :
    (outside : Outside) (query : Query) (c : Option Key) (w : World)
    → IsCodec outside.codec
    → IsAllowed outside query
    → list_conversations outside query (encode_optional outside.codec c) w ≡ (
      ok (
          conversation_page outside.codec (
            fetch row_key
              (sort_desc query)
              (clamp query.limit default_conversation_limit)
              c
              (matching outside query w.db))),
      w,
    )
unfolding list_conversations
list_conversations-page outside query c w laws ((role, member), sorts) =
    rw (member, sorts, decode-encode_optional outside c laws) refl

module _ (outside : Outside) (query : Query) (w : World) (laws : IsCodec outside.codec)
    (allowed : IsAllowed outside query)
    (ids : HasIds row_key (sort_desc query) (matching outside query w.db))
    (reach : All (λ r. Reachable query (row_key r)) (matching outside query w.db)) where
  abbrev listing : List Row
  listing = order_by row_key (sort_desc query) (matching outside query w.db)

  abbrev At : Option Key → List Row → Type 0
  At c rest = StandsAt row_key (sort_desc query) (Reachable query) (agrees query) c rest listing

  abbrev Reads : ℕ → Option Key → List Row → Type 0
  Reads calls c rest =
      read_all calls outside query (encode_optional outside.codec c) w ≡ some (map summary rest)

  read_all-Leaves :
      (calls : ℕ) (c : Option Key) (rest items : List Row) (next : Option Key)
      → list_conversations outside query (encode_optional outside.codec c) w
        ≡ (ok (conversation_page outside.codec (items, next)), w)
      → Leaves row_key (sort_desc query) (Reachable query) (agrees query) rest listing items next
      → ((c' : Option Key) (rest' : List Row)
          → length rest' < length rest
          → At c' rest'
          → Reads calls c' rest')
      → Reads (suc calls) c rest
  unfolding read_all
  read_all-Leaves calls c rest items none e leaves follow =
      ap (read_on (λ next w'. read_all calls outside query next w')) e
      ∙ ap (λ rs. some (map summary rs)) leaves
  read_all-Leaves calls c rest items (some k) e (rest', whole, shorter, at) follow =
      ap (read_on (λ next w'. read_all calls outside query next w')) e
      ∙ ap (after (map summary items)) (follow (some k) rest' shorter at)
      ∙ ap some (sym (map-append summary items rest') ∙ ap (map summary) whole)

  read_all-rest :
      (calls : ℕ) (c : Option Key) (rest : List Row)
      → length rest < calls
      → At c rest
      → Reads calls c rest
  read_all-rest zero c rest h at = absurd (omega (arith, h))
  read_all-rest (suc calls) c rest h at =
      let page_size = clamp query.limit default_conversation_limit in
      let page = fetch row_key (sort_desc query) page_size c (matching outside query w.db) in
      read_all-Leaves calls c rest page.0 page.1
        (list_conversations-page outside query c w laws allowed)
        (fetch-Leaves row_key (sort_desc query) (Reachable query) (agrees query) page_size c rest
          (matching outside query w.db) (clamp-positive query.limit) ids reach at)
        (λ c' rest' shorter at'. read_all-rest calls c' rest' (omega (arith, h, shorter)) at')

abbrev pub conversation_key : ℕ × Conversation → Key
conversation_key (id, conversation) = (conversation.last_message_at, conversation.id)

-- No two rows of the table have the same id.
abbrev pub HasDistinctIds : Dict ℕ Conversation → Type 0
HasDistinctIds = HasIds conversation_key true

All-with_identity :
    (P : ℕ → Type 0) (conversation : Conversation) (identity : Option ChannelIdentity)
    (rows : List Row)
    → P conversation.id
    → All (λ r. P (row_key r).1) rows
    → All (λ r. P (row_key r).1) (with_identity conversation identity rows)
All-with_identity P conversation none rows h hs = hs
All-with_identity P conversation (some identity) rows h hs = (h, hs)

All-join :
    (P : ℕ → Type 0) (identities : Dict ℕ ChannelIdentity) (conversations : Dict ℕ Conversation)
    → All (λ e. P (conversation_key e).1) conversations
    → All (λ r. P (row_key r).1) (join identities conversations)
unfolding join
All-join P identities [] hs = tt
All-join P identities ((id, conversation) ∷ conversations) hs =
    All-with_identity P conversation (Dict.get conversation.customer_identity_id identities)
      (join identities conversations) hs.0 (All-join P identities conversations hs.1)

with_identity-HasIds :
    (desc : Bool) (conversation : Conversation) (identity : Option ChannelIdentity)
    (rows : List Row)
    → All (λ r. conversation.id ≢ (row_key r).1) rows
    → HasIds row_key desc rows
    → HasIds row_key desc (with_identity conversation identity rows)
with_identity-HasIds desc conversation none rows new ids = ids
with_identity-HasIds desc conversation (some identity) rows new ids = (new, ids)

join-HasIds :
    (desc : Bool) (identities : Dict ℕ ChannelIdentity) (conversations : Dict ℕ Conversation)
    → HasDistinctIds conversations
    → HasIds row_key desc (join identities conversations)
unfolding join
join-HasIds desc identities [] ids = tt
join-HasIds desc identities ((id, conversation) ∷ conversations) ids =
    with_identity-HasIds desc conversation (Dict.get conversation.customer_identity_id identities)
      (join identities conversations)
      (All-join (λ j. conversation.id ≢ j) identities conversations ids.0)
      (join-HasIds desc identities conversations ids.1)

select-HasIds :
    (desc : Bool) (p : Row → Bool) (rows : List Row)
    → HasIds row_key desc rows
    → HasIds row_key desc (select p rows)
select-HasIds desc p [] ids = tt
select-HasIds desc p (r ∷ rows) ids = elim (Bool-cases (p r)) [
  | inl in_ ↦ rw in_ (
    All-select row_key desc (λ r'. (row_key r).1 ≢ (row_key r').1) p rows ids.0,
    select-HasIds desc p rows ids.1,
  )
  | inr out ↦ rw out (select-HasIds desc p rows ids.1)
]

count-true : (rows : List Row) → count (λ r. true) rows ≡ length rows
count-true [] = refl
count-true (r ∷ rows) = omega (arith, count-true rows)

-- A member of the org who lists the conversations by one of the two sorts, and calls again with each
-- `next_cursor`, reads the conversations that match the filters, in order, each exactly once, and more
-- calls than there are such conversations are enough. The ids of the conversations are distinct, and
-- the order is newest first or each conversation that matches has a `last_message_at`; `json` and
-- `base64` give back what they were given, with padding to a multiple of 4.
pub read_all-IsSorted :
    (outside : Outside) (query : Query) (w : World) (calls : ℕ)
    → IsCodec outside.codec
    → IsAllowed outside query
    → HasDistinctIds w.db.conversations
    → All (λ r. Reachable query (row_key r)) (matching outside query w.db)
    → length (matching outside query w.db) < calls
    → (rows : List Row) × (read_all calls outside query none w ≡ some (map summary rows))
      × IsSorted row_key (sort_desc query) rows
      × ((p : Row → Bool) → count p rows ≡ count p (matching outside query w.db))
read_all-IsSorted outside query w calls laws allowed distinct reach enough =
    let rows = matching outside query w.db in
    let desc = sort_desc query in
    let ids =
      select-HasIds desc (matches outside w.db query) (join w.db.identities w.db.conversations)
        (join-HasIds desc w.db.identities w.db.conversations distinct) in
    let as_many = count-order_by row_key desc (λ r. true) rows in
    let fits : length (order_by row_key desc rows) < calls =
      omega (arith, as_many, count-true (order_by row_key desc rows), count-true rows, enough) in
    (
      order_by row_key desc rows,
      read_all-rest outside query w laws allowed ids reach calls none (order_by row_key desc rows)
          fits refl,
      order_by-IsSorted row_key desc rows ids,
      λ p. count-order_by row_key desc p rows,
    )
