-- ===== src/Data/Fingerprint.antt =====
-- data/fingerprint.py. SHA-256, the size of a file and the listing of a folder are a parameter.
use tradingchassis_ops_lab.Base.{ℕ, String, List, [], ◌∷◌, map, if◌then◌else◌, ◌==◌, ◌<>◌}
use tradingchassis_ops_lab.Base.Sorting.{sorted_by, parts_le}
use tradingchassis_ops_lab.Base.Json.{Json, int, pos, str, arr, obj, Fields, dict, items_of}
use tradingchassis_ops_lab.World.Content.{Content, document}
use tradingchassis_ops_lab.World.Effects.{
  FilePath, Entry, file, World, Result, ok, raised, Action, pure, raise, lift, ◌>>=◌, ◌>>◌, is_dir,
  is_file, make_dirs, write_text, os_error, unsupported_dataset, prepared_dataset_not_found,
}
use tradingchassis_ops_lab.Data.Prepare.{supported_dataset, dataset_dir}

pub record FileFingerprint : Type 0 where
  pub path : String
  pub sha256 : String
  pub size_bytes : ℕ

pub record DatasetFingerprint : Type 0 where
  pub schema_version : String
  pub dataset : String
  pub algorithm : String
  pub root : String
  pub files : List FileFingerprint
  pub dataset_sha256 : String

-- `rglob` has the names below a folder, each the parts of a relative path, outermost first.
pub record Disk : Type 0 where
  pub rglob : World → FilePath → List (List String)
  pub sha256_content : Content → String
  pub sha256_json : Json → String  -- of the canonical JSON text
  pub st_size : Content → ℕ
  pub path_str : FilePath → String

-- `folder / a / b / …`
abbrev pub below : FilePath → List String → FilePath
below folder [] = folder
below folder (s ∷ parts) = below (s ∷ folder) parts

-- `path.as_posix()` of a relative path
abbrev pub as_posix : List String → String
as_posix [] = "."
as_posix (s ∷ []) = s
as_posix (s ∷ t ∷ parts) = s <> "/" <> as_posix (t ∷ parts)

-- The listed paths that are files, in the order of the listing.
unfoldable pub regular_files : FilePath → List (List String) → Action (List (List String))
regular_files folder [] = pure []
regular_files folder (parts ∷ rest) = do
  regular ← is_file (below folder parts)
  others ← regular_files folder rest
  pure (if regular then parts ∷ others else others)

unfoldable pub list_folder : Disk → FilePath → Action (List (List String))
list_folder disk folder w = (ok (disk.rglob w folder), w)

content_of : Entry → Result Content
content_of (file c) = ok c
content_of _ = raised os_error

-- `path.read_bytes()`
unfoldable pub read_bytes : FilePath → Action Content
unfolding content_of
read_bytes p w = if w.unreadable p then (raised os_error, w) else (content_of (w.entry p), w)

unfoldable pub fingerprint_files :
    Disk → FilePath → List (List String) → Action (List FileFingerprint)
unfolding read_bytes
fingerprint_files disk folder [] = pure []
fingerprint_files disk folder (parts ∷ rest) = do
  c ← read_bytes (below folder parts)
  others ← fingerprint_files disk folder rest
  pure (
      record { path = as_posix parts; sha256 = disk.sha256_content c; size_bytes = disk.st_size c }
      ∷ others)

-- `asdict(file_fingerprint)`
abbrev pub file_fingerprint_json : FileFingerprint → Json
file_fingerprint_json f = obj (
    dict (
      ("path", str f.path)
      ∷ ("sha256", str f.sha256)
      ∷ ("size_bytes", int (pos f.size_bytes))
      ∷ []))

unfoldable pub build_dataset_hash_payload : Disk → String → List FileFingerprint → String
build_dataset_hash_payload disk dataset files = disk.sha256_json (
    obj (
      dict (
        ("dataset", str dataset)
        ∷ ("algorithm", str "sha256")
        ∷ ("files", arr (items_of (map file_fingerprint_json files)))
        ∷ [])))

unfoldable pub fingerprint_of : Disk → String → FilePath → List FileFingerprint → DatasetFingerprint
unfolding build_dataset_hash_payload
fingerprint_of disk dataset folder files = record {
  schema_version = "v1";
  dataset = dataset;
  algorithm = "sha256";
  root = disk.path_str folder;
  files = files;
  dataset_sha256 = build_dataset_hash_payload disk dataset files;
}

-- `if not candidate_files: raise PreparedDatasetNotFoundError(…)`
abbrev pub nonempty : List (List String) → Result (List (List String))
nonempty [] = raised prepared_dataset_not_found
nonempty (p ∷ ps) = ok (p ∷ ps)

unfoldable pub fingerprint_dataset : Disk → String → FilePath → Action DatasetFingerprint
unfolding list_folder regular_files fingerprint_files fingerprint_of
fingerprint_dataset disk dataset data_root =
    if dataset == supported_dataset
    then (do
      let folder = dataset_dir data_root dataset
      there ← is_dir folder
      if there
          then (do
            listed ← list_folder disk folder
            regular ← regular_files folder listed
            candidate_files ← lift (nonempty (sorted_by parts_le regular))
            files ← fingerprint_files disk folder candidate_files
            pure (fingerprint_of disk dataset folder files))
          else raise prepared_dataset_not_found)
    else raise unsupported_dataset

unfoldable pub fingerprint_fields : DatasetFingerprint → Fields
fingerprint_fields f = dict (
    ("schema_version", str f.schema_version)
    ∷ ("dataset", str f.dataset)
    ∷ ("algorithm", str f.algorithm)
    ∷ ("root", str f.root)
    ∷ ("files", arr (items_of (map file_fingerprint_json f.files)))
    ∷ ("dataset_sha256", str f.dataset_sha256)
    ∷ [])

unfoldable pub write_fingerprint : DatasetFingerprint → FilePath → Action FilePath
unfolding fingerprint_fields
write_fingerprint f data_root = do
  let output_dir = "fingerprints" ∷ data_root
  make_dirs output_dir
  write_text ((f.dataset <> ".fingerprint.json") ∷ output_dir)
      (document (obj (fingerprint_fields f)))
  pure ((f.dataset <> ".fingerprint.json") ∷ output_dir)
