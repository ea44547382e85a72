-- ===== src/Data/Tests.antt =====
-- The preparation of the sample dataset in a small world.
use tradingchassis_ops_lab.Base.{none, [], ◌∷◌, ◌≡◌, if◌then◌else◌, false}
use tradingchassis_ops_lab.World.Content.{text}
use tradingchassis_ops_lab.World.Effects.{FilePath, absent, dir, file, World, same_path}
use tradingchassis_ops_lab.World.Post.{Post}
use tradingchassis_ops_lab.Engine.Smoke.{candles_path, default_data_root}
use tradingchassis_ops_lab.Data.Prepare.{prepare_dataset, dataset_dir, supported_dataset}
use tradingchassis_ops_lab.Data.Prepared.{Copied, prepare_dataset-Copied}

abbrev fixtures : FilePath
fixtures = "datasets" ∷ "fixtures" ∷ []

abbrev fixture_world : World
fixture_world = record {
  entry = λ p.
      if same_path p ("candles_1m.csv" ∷ "btcusdt-sample" ∷ fixtures)
      then file (text "csv")
      else if same_path p ("btcusdt-sample" ∷ fixtures)
      then dir
      else absent;
  unreadable = λ _. false;
  unwritable = λ _. false;
  left = λ _. none;
  env = λ _. none;
  resolved = λ p. "/srv";
  message = λ e. "failed";
  clock = λ _. "2024-01-01T00:00:00Z";
  micros = λ _. 63839664000000000;
  ticks = 0;
  uuids = λ _. "id";
  drawn = 0;
}

prepare_dataset-Copied_example :
    Post (prepare_dataset fixtures "btcusdt-sample" default_data_root fixture_world) (λ d w.
      ("btcusdt-sample" ≡ supported_dataset)
      × (d.target_dir ≡ dataset_dir default_data_root "btcusdt-sample")
      × Copied
          ("candles_1m.csv" ∷ "btcusdt-sample" ∷ fixtures)
          (candles_path default_data_root "btcusdt-sample")
          w)
prepare_dataset-Copied_example =
    prepare_dataset-Copied fixtures default_data_root "btcusdt-sample" fixture_world
