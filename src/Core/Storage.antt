-- ===== src/Core/Storage.antt =====
-- app/core/storage.py: the files of an org, in S3 and in the table of their metadata. The ids of orgs
-- are texts here, since they are the first part of a key.
pub mod Scope
pub mod Tenancy
use a2z_core.Prelude.{
  ℕ, ◌+◌, ◌*◌, Bool, true, false, ◌&&◌, ◌||◌, not, ltb, Option, none, some, List, [], ◌∷◌, ◌++◌,
  length, if◌then◌else◌,
}
use a2z_core.Prelude.Text.{Text, codes, text_beq, starts_with, text_eq, texts_eq}
use a2z_core.Prelude.Dict
use a2z_core.Prelude.Dict.{Dict}
use a2z_core.Prelude.Run.{Result, Run, ok, err, ◌>>=◌, ◌>>◌, pure, raise_if}

abbrev pub max_file_bytes : ℕ
max_file_bytes = 100 * 1024 * 1024

abbrev pub signed_url_ttl : ℕ
signed_url_ttl = 3600

-- FileTooLargeError, StorageError, StorageNotFoundError, KeyError, and the errors of DynamoDB and of
-- `log_audit`.
pub data Error : Type 0 where
  file_too_large storage_error storage_not_found key_error table_error audit_error : Error

pub record Metadata : Type 0 where
  pub key : Text
  pub filename : Text
  pub size_bytes : ℕ
  pub mime_type : Text
  pub uploaded_at : ℕ
  pub uploaded_by : Text
  pub service_type : Text
  pub ttl : Option ℕ

-- A row: what `upload_file` has put and whether it is deleted, or one that only the update of
-- `delete_file` has made.
pub data Item : Type 0 where
  stored : Metadata → Bool → Item
  bare : Item

-- The bucket by key, and the table by org and key.
pub record Store : Type 0 where
  pub objects : Dict Text Text
  pub files : Dict (Text × Text) Item

abbrev pub StoreCall : Type 0 → Type 0
StoreCall = Run Store Error

pub record StoredFile : Type 0 where
  pub key : Text
  pub filename : Text
  pub signed_url : Text
  pub size_bytes : ℕ
  pub mime_type : Text
  pub uploaded_at : ℕ
  pub uploaded_by : Text
  pub service_type : Text

-- What the services outside answer to one call: S3's signature of a key for a time, the page that
-- DynamoDB's `query` gives of the rows it selects, the time as a text and in seconds, and what
-- fails.
pub record Answers : Type 0 where
  pub presign : Text → ℕ → Text
  pub page : List Item → List Item
  pub stamp : Text
  pub now : ℕ
  pub bucket_fails : Bool
  pub table_fails : Bool
  pub audit_fails : Bool

pub record Upload : Type 0 where
  pub service_type : Text
  pub filename : Text
  pub content : Text
  pub mime_type : Text
  pub uploaded_by : Text
  pub ttl_days : Option ℕ

-- "/"
abbrev pub slash : ℕ
slash = 47

abbrev pub generate_signed_url : Answers → Text → ℕ → Text
generate_signed_url a key expires_in = a.presign key expires_in

-- `f"{org_id}/{service_type}/{ts}_{filename}"`
abbrev pub key_of : Answers → Text → Upload → Text
key_of a org_id upload =
    org_id
    ++ (slash ∷ (upload.service_type ++ (slash ∷ (a.stamp ++ (codes "_" ++ upload.filename)))))

abbrev pub ttl_of : ℕ → Option ℕ → Option ℕ
ttl_of now none = none
ttl_of now (some days) = some (now + days * 86400)

abbrev pub metadata_of : Answers → Text → Upload → Metadata
metadata_of a org_id upload = record {
  key = key_of a org_id upload;
  filename = upload.filename;
  size_bytes = length upload.content;
  mime_type = upload.mime_type;
  uploaded_at = a.now;
  uploaded_by = upload.uploaded_by;
  service_type = upload.service_type;
  ttl = ttl_of a.now upload.ttl_days;
}

-- `_to_stored_file`
abbrev pub to_stored_file : Answers → Metadata → StoredFile
to_stored_file a data_ = record {
  key = data_.key;
  filename = data_.filename;
  signed_url = generate_signed_url a data_.key signed_url_ttl;
  size_bytes = data_.size_bytes;
  mime_type = data_.mime_type;
  uploaded_at = data_.uploaded_at;
  uploaded_by = data_.uploaded_by;
  service_type = data_.service_type;
}

-- `put_object`
abbrev pub put_object : Answers → Text → Text → StoreCall (Unit {0})
put_object a key content s =
    if a.bucket_fails
    then (err Error.storage_error, s)
    else (ok tt, record s { objects = Dict.put key content s.objects })

abbrev pub put_item : Answers → Text × Text → Item → StoreCall (Unit {0})
put_item a key item s =
    if a.table_fails
    then (err Error.table_error, s)
    else (ok tt, record s { files = Dict.put key item s.files })

-- `put_item`, `log_audit` and the result.
abbrev pub record_upload : Answers → Text → Metadata → StoreCall StoredFile
record_upload a org_id meta = do
  put_item a (org_id, meta.key) (stored meta false)
  raise_if a.audit_fails Error.audit_error
  pure (to_stored_file a meta)

unfoldable pub upload_file : Answers → Text → Upload → StoreCall StoredFile
upload_file a org_id upload = do
  raise_if (ltb max_file_bytes (length upload.content)) Error.file_too_large
  put_object a (key_of a org_id upload) upload.content
  record_upload a org_id (metadata_of a org_id upload)

-- `_assert_org_scope`
abbrev pub in_scope : Text → Text → Bool
in_scope org_id key = starts_with (org_id ++ slash ∷ []) key

abbrev pub assert_org_scope : Text → Text → StoreCall (Unit {0})
assert_org_scope org_id key = raise_if (not (in_scope org_id key)) Error.storage_error

abbrev pub object_result : Option Text → Result Error Text
object_result none = err Error.storage_not_found
object_result (some content) = ok content

abbrev pub get_object : Answers → Text → StoreCall Text
get_object a key s =
    (if a.bucket_fails then err Error.storage_error else object_result (Dict.get key s.objects), s)

unfoldable pub download_file : Answers → Text → Text → StoreCall Text
download_file a org_id key = assert_org_scope org_id key >>= λ _. get_object a key

abbrev pub item_result : Answers → Option Item → Result Error StoredFile
item_result a none = err Error.storage_not_found
item_result a (some (stored meta is_deleted)) = ok (to_stored_file a meta)
item_result a (some bare) = err Error.key_error

abbrev pub get_item : Answers → Text × Text → StoreCall StoredFile
get_item a key s =
    (if a.table_fails then err Error.table_error else item_result a (Dict.get key s.files), s)

unfoldable pub get_file_metadata : Answers → Text → Text → StoreCall StoredFile
get_file_metadata a org_id key = assert_org_scope org_id key >>= λ _. get_item a (org_id, key)

abbrev pub delete_object : Answers → Text → StoreCall (Unit {0})
delete_object a key s =
    if a.bucket_fails
    then (err Error.storage_error, s)
    else (ok tt, record s { objects = Dict.remove key s.objects })

-- `SET is_deleted = :true`, which makes a row where there is none.
abbrev pub deleted : Option Item → Item
deleted none = bare
deleted (some (stored meta is_deleted)) = stored meta true
deleted (some bare) = bare

abbrev pub delete_item : Answers → Text × Text → StoreCall (Unit {0})
delete_item a key s = put_item a key (deleted (Dict.get key s.files)) s

abbrev pub delete_scoped : Answers → Text → Text → StoreCall (Unit {0})
delete_scoped a org_id key = do
  delete_object a key
  delete_item a (org_id, key)
  raise_if a.audit_fails Error.audit_error

unfoldable pub delete_file : Answers → Text → Text → StoreCall (Unit {0})
delete_file a org_id key = assert_org_scope org_id key >>= λ _. delete_scoped a org_id key

-- Whether the query selects a row of the org: with a service, by the index "service-index", which has
-- the rows with a service.
abbrev pub is_service : Option Text → Item → Bool
is_service none item = true
is_service (some wanted) bare = false
is_service (some wanted) (stored meta is_deleted) = text_beq meta.service_type wanted

unfoldable pub rows_of : Text → Option Text → Dict (Text × Text) Item → List Item
rows_of org_id service_type [] = []
rows_of org_id service_type ((key, item) ∷ items) =
    let rest = rows_of org_id service_type items in
    if text_beq key.0 org_id && is_service service_type item then item ∷ rest else rest

abbrev pub has_prefix : Option Text → Text → Bool
has_prefix none filename = true
has_prefix (some prefix) filename = starts_with prefix filename

-- Whether `list_files` lists a row that it got, and as what.
abbrev pub listed : Answers → Option Text → Item → List StoredFile → List StoredFile
listed a prefix bare files = files
listed a prefix (stored meta true) files = files
listed a prefix (stored meta false) files =
    if has_prefix prefix meta.filename then to_stored_file a meta ∷ files else files

unfoldable pub list_rows : Answers → Option Text → List Item → List StoredFile
list_rows a prefix [] = []
list_rows a prefix (item ∷ rows) = listed a prefix item (list_rows a prefix rows)

-- One query, of which the LastEvaluatedKey is not read.
abbrev pub list_files :
    Answers → Text → Option Text → Option Text → Dict (Text × Text) Item → List StoredFile
list_files a org_id service_type prefix items =
    list_rows a prefix (a.page (rows_of org_id service_type items))
