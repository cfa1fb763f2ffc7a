-- ===== src/Files.antt =====
-- Stored files (app/files/service.py): a row in the table and the bytes on the disk under a random
-- key. The digest is a parameter; the key is an argument. Creation stamps are left out.
pub mod Laws
use oss_us_web_design_system.Base.{
  ℕ, suc, ◌+◌, Bool, true, false, not, ◌&&◌, Option, none, some, List, [], ◌∷◌, ◌++◌, length,
  filter, find?, ◌==◌, ltb, if◌then◌else◌, Text, codes, strip, text_eq, take, sort_desc, Result, ok,
  err, Action, pure, raise,
}

pub record FileObject : Type 0 where
  pub id : ℕ
  pub organization_id : ℕ
  pub owner_user_id : Option ℕ
  pub filename : Text
  pub content_type : Text
  pub size_bytes : ℕ
  pub sha256 : Text
  pub storage_key : Text

-- The table, and the storage directory as its files by name.
pub record FileDb : Type 0 where
  pub objects : List FileObject
  pub disk : List (Text × List ℕ)
  pub next_id : ℕ

pub data FileError : Type 0 where
  file_too_large filename_required stored_file_missing : FileError

abbrev pub is_empty_text : Text → Bool
is_empty_text [] = true
is_empty_text (_ ∷ _) = false

-- Writing a file replaces one of the same name.
unfoldable pub write_bytes : Text → List ℕ → List (Text × List ℕ) → List (Text × List ℕ)
write_bytes key bytes disk = (key, bytes) ∷ filter (λ f. not (text_eq f.0 key)) disk

unfoldable pub remove_file : Text → List (Text × List ℕ) → List (Text × List ℕ)
remove_file key disk = filter (λ f. not (text_eq f.0 key)) disk

-- `(content_type or "application/octet-stream")[:127]`.
unfoldable pub content_type_of : Text → Text
content_type_of [] = codes "application/octet-stream"
content_type_of (c ∷ cs) = take 127 (c ∷ cs)

-- `store_file`.
unfoldable pub store_file :
    (List ℕ → Text)
    → ℕ
    → Text
    → ℕ
    → Option ℕ
    → Text
    → Text
    → List ℕ
    → Action FileDb FileError FileObject
unfolding content_type_of write_bytes
store_file sha256 max_bytes key org_id owner filename content_type bytes db =
    let obj : FileObject = record {
      id = db.next_id;
      organization_id = org_id;
      owner_user_id = owner;
      filename = take 255 (strip filename);
      content_type = content_type_of content_type;
      size_bytes = length bytes;
      sha256 = sha256 bytes;
      storage_key = key;
    } in
    if ltb max_bytes (length bytes)
    then raise file_too_large db
    else (if is_empty_text (strip filename)
        then raise filename_required db
        else pure obj (record db {
          objects = db.objects ++ obj ∷ [];
          disk = write_bytes key bytes db.disk;
          next_id = db.next_id + 1;
        }))

-- `get_file`.
unfoldable pub get_file : ℕ → ℕ → FileDb → Option FileObject
get_file file_id org_id db = find? (λ f. f.id == file_id && f.organization_id == org_id) db.objects

-- `list_files`.
unfoldable pub list_files : ℕ → FileDb → List FileObject
unfolding sort_desc
list_files org_id db = sort_desc (λ f. f.id) (filter (λ f. f.organization_id == org_id) db.objects)

-- `read_bytes`.
unfoldable pub read_bytes : FileObject → FileDb → Result FileError (List ℕ)
read_bytes obj db = elim (find? (λ f. text_eq f.0 obj.storage_key) db.disk) [
  | none ↦ err stored_file_missing
  | some (_, bytes) ↦ ok bytes
]

-- `delete_file`; a file that is not on the disk is no error.
unfoldable pub delete_file : FileObject → Action FileDb FileError FileObject
unfolding remove_file
delete_file obj db = pure obj (record db {
  objects = filter (λ f. not (f.id == obj.id)) db.objects;
  disk = remove_file obj.storage_key db.disk;
})

unfoldable pub total_size : List FileObject → ℕ
total_size [] = 0
total_size (f ∷ fs) = f.size_bytes + total_size fs

-- `org_usage`.
unfoldable pub org_usage : ℕ → FileDb → ℕ × ℕ
unfolding total_size
org_usage org_id db =
    let rows = filter (λ f. f.organization_id == org_id) db.objects in
    (length rows, total_size rows)
