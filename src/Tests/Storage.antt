-- ===== src/Tests/Storage.antt =====
-- The theorems on files and their URLs at concrete inputs.
use a2z_core.Prelude.{ℕ, ◌+◌, ◌≡◌, ◌≢◌, ◌≤◌, refl, false, none, List, [], ◌∷◌, ap, arith}
use a2z_core.Prelude.Text.{Text, codes, starts_with, text_beq, text_eq}
use a2z_core.Prelude.Dict
use a2z_core.Prelude.Run.{ok}
use a2z_core.Core.Cache
use a2z_core.Core.Storage.{
  Store, StoredFile, Answers, Upload, metadata_of, to_stored_file, upload_file, download_file,
  get_file_metadata, list_files,
}
use a2z_core.Core.Storage.Tenancy.{
  Request, uploading, deleting, run, run-reads, download_file-upload_file,
}
use a2z_core.Omnichannel.Media.{Presign, signed_url_for_attachment}
use a2z_core.Omnichannel.Media.Validity
use a2z_core.Omnichannel.Media.Validity.{UrlRequest, signed_url-valid}

abbrev answers : Answers
answers = record {
  presign = λ key seconds. key;
  page = λ rows. rows;
  stamp = codes "t";
  now = 1;
  bucket_fails = false;
  table_fails = false;
  audit_fails = false;
}

abbrev upload : Upload
upload = record {
  service_type = codes "invoicing";
  filename = codes "a.pdf";
  content = codes "xyz";
  mime_type = codes "application/pdf";
  uploaded_by = codes "u";
  ttl_days = none;
}

abbrev empty_store : Store
empty_store = record { objects = []; files = [] }

download_file-upload_file_example :
    (file : StoredFile) × (s' : Store) × (upload_file answers (codes "org") upload empty_store
      ≡ (ok file, s'))
    × (download_file answers (codes "org") file.key s' ≡ (ok upload.content, s'))
    × (get_file_metadata answers (codes "org") file.key s'
        ≡ (ok (to_stored_file answers (metadata_of answers (codes "org") upload)), s'))
download_file-upload_file_example =
    download_file-upload_file answers answers (codes "org") upload empty_store (omega arith) refl
      refl refl refl refl

abbrev requests : List Request
requests =
    uploading answers (codes "b") upload
    ∷ deleting answers (codes "b") (codes "a/invoicing/t_a.pdf")
    ∷ []

abbrev own_store : Store
own_store = (upload_file answers (codes "a") upload empty_store).1

first : Text → ℕ
first [] = 0
first (c ∷ s) = c

differ : codes "a" ≢ codes "b"
unfolding first
differ e = let e' = ap first e in omega (arith, e')

run-reads_example :
    ((download_file answers (codes "a") (codes "a/invoicing/t_a.pdf") (run requests own_store)).0
      ≡ (download_file answers (codes "a") (codes "a/invoicing/t_a.pdf") own_store).0)
    × ((get_file_metadata answers
          (codes "a")
          (codes "a/invoicing/t_a.pdf")
          (run requests own_store)).0
        ≡ (get_file_metadata answers (codes "a") (codes "a/invoicing/t_a.pdf") own_store).0)
    × (list_files answers (codes "a") none none (run requests own_store).files
        ≡ list_files answers (codes "a") none none own_store.files)
run-reads_example =
    run-reads (codes "a") ((λ e. omega (arith, e)), tt) requests own_store answers
      (codes "a/invoicing/t_a.pdf") none none
      ((((λ e. omega (arith, e)), tt), differ), ((((λ e. omega (arith, e)), tt), differ), tt))

-- A signature that is the instant of its end, and the key.
abbrev presign : Presign
presign key now seconds = (now + seconds) ∷ key

abbrev valid_until : Text → ℕ
valid_until [] = 0
valid_until (t ∷ key) = t

abbrev signed_for : Text → Text
signed_for [] = []
signed_for (t ∷ key) = key

abbrev urls : List UrlRequest
urls = (10, codes "a", codes "a/omnichannel/x") ∷ []

signed_url-valid_example :
    (3500 + 3600 ≤ valid_until (7210 ∷ codes "a/omnichannel/x"))
    × (signed_for (7210 ∷ codes "a/omnichannel/x") ≡ codes "a/omnichannel/x")
signed_url-valid_example =
    signed_url-valid presign valid_until signed_for (λ k now d. refl) (λ k now d. refl) urls 3500
      (codes "a") (codes "a/omnichannel/x") (7210 ∷ codes "a/omnichannel/x")
      (Validity.run presign urls [])
      (unfold Validity.run signed_url_for_attachment starts_with text_beq Cache.get Cache.set
          Cache.read Dict.get Dict.put Dict.remove in
        refl)
