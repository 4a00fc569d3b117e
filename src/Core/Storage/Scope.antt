-- ===== src/Core/Storage/Scope.antt =====
-- Orgs on the store of app/core/storage.py: which keys are an org's, and what the calls of one org leave
-- to another.
use a2z_core.Prelude.{
  ℕ, ◌≡◌, ◌≢◌, refl, sym, ◌∙◌, ap, subst, inl, inr, true, false, not, ltb, Option, [], ◌∷◌, ◌++◌,
  append_assoc, length, Bool-cases, arith,
}
use a2z_core.Prelude.Text.{
  Text, Lacks, codes, text_beq, text_beq_iff, text_eq, texts_eq, texts_beq, starts_with,
  starts_with-append, starts_with_name,
}
use a2z_core.Prelude.Dict
use a2z_core.Prelude.Dict.{Dict, get-put, get-remove}
use a2z_core.Prelude.Run.{◌>>=◌, raise_if, pure, Keeps, bind-Keeps, raise_if-Keeps}
use a2z_core.Core.Storage.{
  Error, Item, Store, Answers, Upload, slash, key_of, metadata_of, to_stored_file, stored,
  put_object, put_item, record_upload, upload_file, in_scope, delete_object, deleted, delete_item,
  delete_scoped, delete_file, rows_of, max_file_bytes,
}

starts_with-split : (p s : Text) → starts_with p s ≡ true → (rest : Text) × (s ≡ p ++ rest)
unfolding starts_with
starts_with-split [] s h = (s, refl)
starts_with-split (c ∷ p) [] h = absurd cc
starts_with-split (c ∷ p) (d ∷ s) h =
    let (rest, e) = starts_with-split p s (ground (arith, h)) in
    let same : d ≡ c = ground (arith, h) in
    (rest, ap (λ (t : Text). d ∷ t) e ∙ ap (λ (x : ℕ). x ∷ p ++ rest) same)

-- A key belongs to one org.
in_scope_unique :
    (mine other key : Text)
    → Lacks slash mine
    → Lacks slash other
    → in_scope mine key ≡ true
    → in_scope other key ≡ true
    → mine ≡ other
in_scope_unique mine other key la lb h h' =
    let (rest, e) = starts_with-split (other ++ slash ∷ []) key h' in
    starts_with_name slash mine other rest la lb (
      ap (starts_with (mine ++ slash ∷ [])) (sym (append_assoc other (slash ∷ []) rest) ∙ sym e)
      ∙ h)

pub key_of-scope :
    (a : Answers) (org_id : Text) (upload : Upload)
    → in_scope org_id (key_of a org_id upload) ≡ true
key_of-scope a org_id upload =
    let tail = upload.service_type ++ (slash ∷ (a.stamp ++ (codes "_" ++ upload.filename))) in
    ap (starts_with (org_id ++ slash ∷ [])) (sym (append_assoc org_id (slash ∷ []) tail))
    ∙ starts_with-append (org_id ++ slash ∷ []) tail

module _ (mine : Text) (s0 : Store) where
  -- The org reads what it read before.
  abbrev pub ReadsSame : Store → Type 0
  ReadsSame s =
      ((key : Text) → in_scope mine key ≡ true → Dict.get key s.objects ≡ Dict.get key s0.objects)
      × ((key : Text) → Dict.get (mine, key) s.files ≡ Dict.get (mine, key) s0.files)
      × ((service_type : Option Text)
          → rows_of mine service_type s.files ≡ rows_of mine service_type s0.files)

  module _ (other : Text) (la : Lacks slash mine) (lb : Lacks slash other) (ne : mine ≢ other) where
    other_key :
        (key k : Text) → in_scope mine key ≡ true → in_scope other k ≡ true → text_beq k key ≡ false
    other_key key k h h' = elim (Bool-cases (text_beq k key)) [
      | inr differs ↦ differs
      | inl same ↦
          let equal = (text_beq_iff k key).0 same in
          absurd
            (ne (in_scope_unique mine other key la lb h (ap (in_scope other) (sym equal) ∙ h')))
    ]

    other_org : text_beq other mine ≡ false
    other_org = elim (Bool-cases (text_beq other mine)) [
      | inr differs ↦ differs
      | inl same ↦ absurd (ne (sym ((text_beq_iff other mine).0 same)))
    ]

    put_object-Keeps :
        (a : Answers) (k content : Text)
        → in_scope other k ≡ true
        → Keeps ReadsSame (put_object a k content)
    put_object-Keeps a k content own s (objects, files, lists) = elim (Bool-cases a.bucket_fails) [
      | inl fails ↦ rw fails (objects, files, lists)
      | inr up ↦ rw up (
        λ key h. get-put k key content s.objects ∙ rw (other_key key k h own) (objects key h),
        files,
        lists,
      )
    ]

    delete_object-Keeps :
        (a : Answers) (k : Text) → in_scope other k ≡ true → Keeps ReadsSame (delete_object a k)
    delete_object-Keeps a k own s (objects, files, lists) = elim (Bool-cases a.bucket_fails) [
      | inl fails ↦ rw fails (objects, files, lists)
      | inr up ↦ rw up (
        λ key h. get-remove k key s.objects ∙ rw (other_key key k h own) (objects key h),
        files,
        lists,
      )
    ]

    rows_of-remove :
        (service_type : Option Text) (k : Text) (items : Dict (Text × Text) Item)
        → rows_of mine service_type (Dict.remove (other, k) items) ≡ rows_of mine service_type items
    unfolding rows_of Dict.remove
    rows_of-remove service_type k [] = refl
    rows_of-remove service_type k (((org, j), item) ∷ items) =
        let rest = rows_of-remove service_type k items in
        elim (Bool-cases (texts_beq (org, j) (other, k))) [
          | inr differs ↦ elim (Bool-cases (text_beq org mine)) [
            | inl own ↦ rw (differs, own, rest) refl
            | inr foreign ↦ rw (differs, foreign) rest
          ]
          | inl same ↦
              let is_other : text_beq org other ≡ true = ground (arith, same) in
              let foreign : text_beq org mine ≡ false =
                ap (λ o. text_beq o mine) ((text_beq_iff org other).0 is_other) ∙ other_org in
              rw (same, foreign) rest
        ]

    rows_of-other :
        (service_type : Option Text) (k : Text) (item : Item) (items : Dict (Text × Text) Item)
        → rows_of mine service_type (((other, k), item) ∷ items) ≡ rows_of mine service_type items
    unfolding rows_of
    rows_of-other service_type k item items = rw other_org refl

    put_item-Keeps :
        (a : Answers) (k : Text) (item : Item) → Keeps ReadsSame (put_item a (other, k) item)
    unfolding Dict.put
    put_item-Keeps a k item s (objects, files, lists) = elim (Bool-cases a.table_fails) [
      | inl fails ↦ rw fails (objects, files, lists)
      | inr up ↦
          let differs : (key : Text) → texts_beq (other, k) (mine, key) ≡ false =
            λ key. rw other_org refl in
          rw up (
            objects,
            λ key. get-put (other, k) (mine, key) item s.files ∙ rw (differs key) (files key),
            λ service_type.
                rows_of-other service_type k item (Dict.remove (other, k) s.files)
                ∙ rows_of-remove service_type k s.files
                ∙ lists service_type,
          )
    ]

    pub upload_file-Keeps :
        (a : Answers) (upload : Upload) → Keeps ReadsSame (upload_file a other upload)
    unfolding upload_file
    upload_file-Keeps a upload =
        let key = key_of a other upload in
        let meta = metadata_of a other upload in
        let large = ltb max_file_bytes (length upload.content) in
        bind-Keeps ReadsSame (raise_if large Error.file_too_large)
          (λ _. put_object a key upload.content >>= λ _. record_upload a other meta)
          (raise_if-Keeps ReadsSame large Error.file_too_large)
          (λ _.
            bind-Keeps ReadsSame (put_object a key upload.content) (λ _. record_upload a other meta)
              (put_object-Keeps a key upload.content (key_of-scope a other upload))
              (λ _.
                bind-Keeps ReadsSame (put_item a (other, key) (stored meta false))
                  (λ _.
                    raise_if a.audit_fails Error.audit_error >>= λ _. pure (to_stored_file a meta))
                  (put_item-Keeps a key (stored meta false))
                  (λ _.
                    bind-Keeps ReadsSame (raise_if a.audit_fails Error.audit_error)
                      (λ _. pure (to_stored_file a meta))
                      (raise_if-Keeps ReadsSame a.audit_fails Error.audit_error)
                      (λ _ s same. same))))

    delete_scoped-Keeps :
        (a : Answers) (k : Text)
        → in_scope other k ≡ true
        → Keeps ReadsSame (delete_scoped a other k)
    delete_scoped-Keeps a k own =
        bind-Keeps ReadsSame (delete_object a k)
          (λ _. delete_item a (other, k) >>= λ _. raise_if a.audit_fails Error.audit_error)
          (delete_object-Keeps a k own)
          (λ _.
            bind-Keeps ReadsSame (delete_item a (other, k))
              (λ _. raise_if a.audit_fails Error.audit_error)
              (λ s. put_item-Keeps a k (deleted (Dict.get (other, k) s.files)) s)
              (λ _. raise_if-Keeps ReadsSame a.audit_fails Error.audit_error))

    pub delete_file-Keeps : (a : Answers) (k : Text) → Keeps ReadsSame (delete_file a other k)
    unfolding delete_file
    delete_file-Keeps a k s same = elim (Bool-cases (in_scope other k)) [
      | inl own ↦
          subst ReadsSame
            (ap (λ b. ((raise_if (not b) Error.storage_error >>= λ _. delete_scoped a other k) s).1)
              (sym own))
            (delete_scoped-Keeps a k own s same)
      | inr foreign ↦
          subst ReadsSame
            (ap (λ b. ((raise_if (not b) Error.storage_error >>= λ _. delete_scoped a other k) s).1)
              (sym foreign))
            same
    ]
