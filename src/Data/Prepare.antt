-- ===== src/Data/Prepare.antt =====
-- data/prepare.py
use tradingchassis_ops_lab.Base.{String, List, [], ◌∷◌, ◌++◌, map, if◌then◌else◌, ◌==◌}
use tradingchassis_ops_lab.Base.Sorting.{sorted}
use tradingchassis_ops_lab.World.Effects.{
  FilePath, Result, ok, raised, Action, pure, raise, lift, ◌>>=◌, ◌>>◌, is_dir, is_file, make_dirs,
  copy2, unsupported_dataset, file_not_found,
}

abbrev pub supported_dataset : String
supported_dataset = "btcusdt-sample"

abbrev pub dataset_files : List String
dataset_files = "candles_1m.csv" ∷ []

-- The folder fixtures/datasets of the repository stands as an argument.
unfoldable pub resolve_fixture_dir : FilePath → String → Result FilePath
resolve_fixture_dir fixtures_root dataset =
    if dataset == supported_dataset
    then ok (dataset ∷ fixtures_root)
    else raised unsupported_dataset

abbrev pub dataset_dir : FilePath → String → FilePath
dataset_dir data_root dataset = dataset ∷ "datasets" ∷ data_root

pub record PreparedDataset : Type 0 where
  pub dataset : String
  pub source_dir : FilePath
  pub target_dir : FilePath
  pub files : List FilePath

-- The loop over the files of the dataset; `copied` are the names so far.
unfoldable pub copy_files : FilePath → FilePath → List String → List String → Action (List String)
copy_files source_dir target_dir copied [] = pure copied
copy_files source_dir target_dir copied (file_name ∷ rest) = do
  there ← is_file (file_name ∷ source_dir)
  if there
      then (do
        copy2 (file_name ∷ source_dir) (file_name ∷ target_dir)
        copy_files source_dir target_dir (copied ++ (file_name ∷ [])) rest)
      else raise file_not_found

unfoldable pub prepare_dataset : FilePath → String → FilePath → Action PreparedDataset
unfolding resolve_fixture_dir copy_files sorted
prepare_dataset fixtures_root dataset data_root = do
  source_dir ← lift (resolve_fixture_dir fixtures_root dataset)
  there ← is_dir source_dir
  if there
      then (do
        let target_dir = dataset_dir data_root dataset
        make_dirs target_dir
        copied ← copy_files source_dir target_dir [] dataset_files
        pure (record {
          dataset = dataset;
          source_dir = source_dir;
          target_dir = target_dir;
          files = map (λ name. name ∷ target_dir) (sorted copied);
        }))
      else raise file_not_found
