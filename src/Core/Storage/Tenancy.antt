-- ===== src/Core/Storage/Tenancy.antt =====
-- What one org reads of the store of app/core/storage.py, of its own uploads and beside the calls of
-- others.
use a2z_core.Prelude.{
  ◌≡◌, ◌≢◌, ◌≤◌, refl, ◌∙◌, ap, inl, inr, false, ltb, Option, some, List, [], ◌∷◌, All, length,
  if◌then◌else◌, Bool-cases, arith,
}
use a2z_core.Prelude.Text.{Text, Lacks, text_eq, texts_eq}
use a2z_core.Prelude.Dict
use a2z_core.Prelude.Dict.{Dict, get-put, beq_refl}
use a2z_core.Prelude.Run.{ok, err, ◌>>=◌, raise_if, pure, bind-ok}
use a2z_core.Core.Storage.{
  Error, stored, Store, StoredFile, Metadata, Answers, Upload, slash, max_file_bytes, key_of,
  metadata_of, to_stored_file, put_object, put_item, record_upload, upload_file, in_scope,
  object_result, item_result, download_file, get_file_metadata, delete_file, list_rows, list_files,
}
use a2z_core.Core.Storage.Scope.{ReadsSame, key_of-scope, upload_file-Keeps, delete_file-Keeps}

-- A call that changes the store.
pub data Request : Type 0 where
  uploading : Answers → Text → Upload → Request
  deleting : Answers → Text → Text → Request

unfoldable pub run : List Request → Store → Store
run [] s = s
run (uploading a org_id upload ∷ requests) s = run requests (upload_file a org_id upload s).1
run (deleting a org_id key ∷ requests) s = run requests (delete_file a org_id key s).1

-- The call is one of another org, whose id has no "/".
abbrev pub IsOther : Text → Request → Type 0
IsOther mine (uploading a org_id upload) = Lacks slash org_id × (mine ≢ org_id)
IsOther mine (deleting a org_id key) = Lacks slash org_id × (mine ≢ org_id)

module _ (mine : Text) (la : Lacks slash mine) where
  run-ReadsSame :
      (requests : List Request) (s0 s : Store)
      → All (IsOther mine) requests
      → ReadsSame mine s0 s
      → ReadsSame mine s0 (run requests s)
  unfolding run
  run-ReadsSame [] s0 s others same = same
  run-ReadsSame (uploading a org_id upload ∷ requests) s0 s ((lb, ne), others) same =
      run-ReadsSame requests s0 (upload_file a org_id upload s).1 others
        (upload_file-Keeps mine s0 org_id la lb ne a upload s same)
  run-ReadsSame (deleting a org_id key ∷ requests) s0 s ((lb, ne), others) same =
      run-ReadsSame requests s0 (delete_file a org_id key s).1 others
        (delete_file-Keeps mine s0 org_id la lb ne a key s same)

  -- Whatever other orgs upload and delete, an org downloads the same bytes, reads the same metadata
  -- and lists the same files as before, for every key and filter. The ids of the orgs have no "/",
  -- and the page that DynamoDB gives depends on the rows that the query selects.
  pub run-reads :
      (requests : List Request) (s : Store) (a : Answers) (key : Text)
      (service_type prefix : Option Text)
      → All (IsOther mine) requests
      → ((download_file a mine key (run requests s)).0 ≡ (download_file a mine key s).0)
        × ((get_file_metadata a mine key (run requests s)).0 ≡ (get_file_metadata a mine key s).0)
        × (list_files a mine service_type prefix (run requests s).files
            ≡ list_files a mine service_type prefix s.files)
  unfolding download_file get_file_metadata
  run-reads requests s a key service_type prefix others =
      let s' = run requests s in
      let (objects, files, lists) =
        run-ReadsSame requests s s others ((λ k h. refl), (λ k. refl), λ t. refl) in
      (
        elim (Bool-cases (in_scope mine key)) [
          | inr foreign ↦ rw foreign refl
          | inl own ↦ rw own (
              ap (λ o. if a.bucket_fails then err Error.storage_error else object_result o)
                (objects key own))
        ],
        elim (Bool-cases (in_scope mine key)) [
          | inr foreign ↦ rw foreign refl
          | inl own ↦ rw own (
              ap (λ o. if a.table_fails then err Error.table_error else item_result a o)
                (files key))
        ],
        ap (λ rows. list_rows a prefix (a.page rows)) (lists service_type),
      )

module _ (a a' : Answers) (org_id : Text) (upload : Upload) (s : Store)
    (small : length upload.content ≤ max_file_bytes) (bucket : a.bucket_fails ≡ false)
    (table : a.table_fails ≡ false) (audit : a.audit_fails ≡ false)
    (bucket' : a'.bucket_fails ≡ false) (table' : a'.table_fails ≡ false) where
  abbrev key : Text
  key = key_of a org_id upload

  abbrev meta : Metadata
  meta = metadata_of a org_id upload

  abbrev with_object : Store
  with_object = record s { objects = Dict.put key upload.content s.objects }

  abbrev with_file : Store
  with_file = record with_object { files = Dict.put (org_id, key) (stored meta false) s.files }

  upload_file-ok : upload_file a org_id upload s ≡ (ok (to_stored_file a meta), with_file)
  unfolding upload_file
  upload_file-ok =
      let fits : ltb max_file_bytes (length upload.content) ≡ false = ground (arith, small) in
      bind-ok (raise_if (ltb max_file_bytes (length upload.content)) Error.file_too_large)
        (λ _. put_object a key upload.content >>= λ _. record_upload a org_id meta) s s tt
        (ap (λ b. raise_if b Error.file_too_large s) fits)
      ∙ bind-ok (put_object a key upload.content) (λ _. record_upload a org_id meta) s with_object
          tt (rw bucket refl)
      ∙ bind-ok (put_item a (org_id, key) (stored meta false))
          (λ _. raise_if a.audit_fails Error.audit_error >>= λ _. pure (to_stored_file a meta))
          with_object with_file tt (rw table refl)
      ∙ ap (λ b. (raise_if b Error.audit_error >>= λ _. pure (to_stored_file a meta)) with_file)
          audit

  -- A file of at most 100 MB that is uploaded while S3, DynamoDB and the audit log answer can be
  -- downloaded by its org under the key that the upload returned, with the same bytes, and its
  -- metadata are those of the upload.
  pub download_file-upload_file :
      (file : StoredFile) × (s' : Store) × (upload_file a org_id upload s ≡ (ok file, s'))
      × (download_file a' org_id file.key s' ≡ (ok upload.content, s'))
      × (get_file_metadata a' org_id file.key s'
          ≡ (ok (to_stored_file a' (metadata_of a org_id upload)), s'))
  unfolding download_file get_file_metadata
  download_file-upload_file =
      let own = key_of-scope a org_id upload in
      let object : Dict.get key with_object.objects ≡ some upload.content =
        get-put key key upload.content s.objects ∙ rw (beq_refl key) refl in
      let file : Dict.get (org_id, key) with_file.files ≡ some (stored meta false) =
        get-put (org_id, key) (org_id, key) (stored meta false) s.files
        ∙ rw (beq_refl org_id, beq_refl key) refl in
      (
        to_stored_file a meta,
        with_file,
        upload_file-ok,
        rw (own, bucket', object) refl,
        rw (own, table', file) refl,
      )
