-- ===== src/Tests/Inbox.antt =====
-- The theorems on the pages of the inbox at concrete inputs.
use a2z_core.Prelude.{
  ℕ, ◌+◌, ◌-◌, ◌%◌, ◌≡◌, ◌≢◌, ◌≤◌, refl, ap, ◌∙◌, false, inl, Option, none, some, List, [], ◌∷◌,
  ◌++◌, map, length, count, All, Bool, arith,
}
use a2z_core.Prelude.Text.{Text, Lacks, text_beq}
use a2z_core.Prelude.Dict
use a2z_core.Prelude.Dict.{Dict, nat_eq}
use a2z_core.Prelude.Run.{ok}
use a2z_core.Core.Role.{Role}
use a2z_core.Omnichannel.Access.{require_membership}
use a2z_core.Omnichannel.Model.{ConversationStatus, Conversation, ChannelIdentity, World}
use a2z_core.Omnichannel.Inbox.{
  Outside, Query, Row, ℤ, ConversationPage, summary, row_key, join, matching, newest_first,
  oldest_first, sort_desc, list_conversations, decode_optional, clamp,
}
use a2z_core.Omnichannel.Inbox.Order.{Key, before, cursor_predicate}
use a2z_core.Omnichannel.Inbox.Cursor.{
  Codec, IsCodec, equals, padding, rstrip, rstrip-append, encode_cursor, decode_cursor,
  decode_cursor-encode_cursor,
}
use a2z_core.Omnichannel.Inbox.Keyset.{order_by, insert_row, fetch}
use a2z_core.Omnichannel.Inbox.Keyset.Sorting.{IsSorted}
use a2z_core.Omnichannel.Inbox.Pages.{read_all, read_all-IsSorted}
use a2z_core.Omnichannel.Inbox.Bounds.{list_conversations-length, list_conversations-oldest_first}

abbrev dumps : Key → Text
dumps (none, i) = i ∷ []
dumps (some t, i) = t ∷ i ∷ []

abbrev loads : Text → Option (Option ℕ × Option ℕ)
loads [] = none
loads (i ∷ []) = some (none, some i)
loads (t ∷ i ∷ []) = some (some t, some i)
loads (t ∷ i ∷ j ∷ s) = none

-- An encoding whose texts hold no "=" but the padding.
abbrev shift : Text → Text
shift [] = []
shift (x ∷ s) = (x + 62) ∷ shift s

abbrev unshift : Text → Text
unshift [] = []
unshift (x ∷ s) = (x - 62) ∷ unshift s

unshift-shift : (s : Text) → unshift (shift s) ≡ s
unshift-shift [] = refl
unshift-shift (x ∷ s) = let same : x + 62 - 62 ≡ x = omega arith in rw (same, unshift-shift s) refl

shift-Lacks : (s : Text) → Lacks equals (shift s)
shift-Lacks [] = tt
shift-Lacks (x ∷ s) = (λ e. omega (arith, e), shift-Lacks s)

loads-dumps : (key : Key) → loads (dumps key) ≡ some (key.0, some key.1)
loads-dumps (none, i) = refl
loads-dumps (some t, i) = refl

abbrev codec : Codec
codec = record {
  dumps = dumps;
  loads = loads;
  urlsafe_b64encode = λ raw. shift raw ++ padding (shift raw);
  urlsafe_b64decode = λ s. some (unshift (rstrip s));
}

codec-IsCodec : IsCodec codec
codec-IsCodec = record {
  loads-dumps = loads-dumps;
  decode-encode = λ raw.
      ap (λ s. some (unshift s))
        (rstrip-append ((4 - length (shift raw) % 4) % 4) (shift raw) (shift-Lacks raw))
      ∙ ap some (unshift-shift raw);
  encode-padding = λ raw. (shift raw, refl, shift-Lacks raw);
}

decode_cursor-encode_cursor_example :
    decode_cursor codec (encode_cursor codec (some 9, 2)) ≡ ok (some 9, 2)
decode_cursor-encode_cursor_example = decode_cursor-encode_cursor codec (some 9, 2) codec-IsCodec

abbrev outside : Outside
outside = record {
  memberships = λ user_id org_id. some Role.guest;
  codec = codec;
  full_text = λ q s. false;
  ilike = λ q s. false;
}

abbrev pub conversation : ℕ → Option ℕ → Conversation
conversation id last_message_at = record {
  id = id;
  org_id = 5;
  customer_identity_id = 3;
  status = ConversationStatus.is_open;
  assigned_user_id = none;
  last_message_at = last_message_at;
  last_message_preview = none;
  unread_count = 0;
}

abbrev pub identity : ChannelIdentity
identity = record { id = 3; org_id = 5; channel_type = []; external_id = []; display_name = none }

abbrev conversations : Dict ℕ Conversation
conversations =
    (1, conversation 1 (some 7)) ∷ (2, conversation 2 none) ∷ (3, conversation 3 (some 9)) ∷ []

abbrev pub world : World
world = record {
  db = record {
    connections = [];
    identities = (3, identity) ∷ [];
    conversations = conversations;
    messages = [];
    attachments = [];
    assignments = [];
  };
  effects = [];
}

abbrev query : Text → Query
query sort = record {
  org_id = 5;
  user_id = 20;
  status = none;
  assigned_user_id = none;
  q = none;
  sort = sort;
  limit = ℤ.pos 1;
}

-- Page by page, newest first: the conversation without a time comes last.
newest_first_run :
    read_all 4 outside (query newest_first) none world
    ≡ some (
        map summary (
          (conversation 3 (some 9), identity)
          ∷ (conversation 1 (some 7), identity)
          ∷ (conversation 2 none, identity)
          ∷ []))
newest_first_run =
    unfold read_all list_conversations require_membership text_beq decode_optional fetch clamp
      order_by join Dict.get insert_row before decode_cursor encode_cursor rstrip
      cursor_predicate in
    refl

-- Oldest first, the same client never sees the conversation without a time.
oldest_first_run :
    read_all 4 outside (query oldest_first) none world
    ≡ some (
        map summary
          ((conversation 1 (some 7), identity) ∷ (conversation 3 (some 9), identity) ∷ []))
oldest_first_run =
    unfold read_all list_conversations require_membership text_beq decode_optional fetch clamp
      order_by join Dict.get insert_row before decode_cursor encode_cursor rstrip
      cursor_predicate in
    refl

read_all-IsSorted_example :
    (rows : List Row) × (read_all 4 outside (query newest_first) none world
      ≡ some (map summary rows))
    × IsSorted row_key (sort_desc (query newest_first)) rows
    × ((p : Row → Bool) → count p rows ≡ count p (matching outside (query newest_first) world.db))
read_all-IsSorted_example =
    read_all-IsSorted outside (query newest_first) world 4 codec-IsCodec
      ((Role.guest, unfold require_membership in refl), unfold text_beq in refl)
      (
        (λ e. omega (arith, e), (λ e. omega (arith, e), tt)),
        ((λ e. omega (arith, e), tt), (tt, tt)),
      )
      (unfold join text_beq Dict.get in (inl refl, (inl refl, (inl refl, tt))))
      (unfold join Dict.get in omega arith)

abbrev last_page : ConversationPage
last_page = record { items = summary (conversation 3 (some 9), identity) ∷ []; next_cursor = none }

list_conversations-oldest_first_example : All (λ item. item.last_message_at ≢ none) last_page.items
list_conversations-oldest_first_example =
    list_conversations-oldest_first outside (query oldest_first) (encode_cursor codec (some 7, 1)) 7
      1 world last_page (decode_cursor-encode_cursor codec (some 7, 1) codec-IsCodec)
      (unfold text_beq in refl)
      (unfold list_conversations require_membership text_beq decode_optional fetch clamp order_by
          join Dict.get insert_row before decode_cursor encode_cursor rstrip cursor_predicate in
        refl)

list_conversations-length_example : length last_page.items ≤ 100
list_conversations-length_example =
    list_conversations-length outside (query oldest_first) (some (encode_cursor codec (some 7, 1)))
      world last_page
      (unfold list_conversations require_membership text_beq decode_optional fetch clamp order_by
          join Dict.get insert_row before decode_cursor encode_cursor rstrip cursor_predicate in
        refl)
