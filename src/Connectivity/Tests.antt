-- ===== src/Connectivity/Tests.antt =====
-- A specification with two names and a probe of a local server.
use tradingchassis_ops_lab.Base.{
  ◌+◌, ◌≤◌, String, Bool, true, false, none, some, [], ◌∷◌, ◌≡◌, ◌↔◌, refl, length, contains,
  if◌then◌else◌, ◌==◌, arith, strip,
}
use tradingchassis_ops_lab.Base.Sorting.{count}
use tradingchassis_ops_lab.Base.Search.{occurs}
use tradingchassis_ops_lab.Base.Json.{str, obj, field, end, decimal}
use tradingchassis_ops_lab.World.Content.{document, text}
use tradingchassis_ops_lab.World.Effects.{FilePath, absent, dir, file, World, ok, same_path}
use tradingchassis_ops_lab.World.Post.{Post}
use tradingchassis_ops_lab.Runs.Spec.{RunSpec, ConnectivityReadinessSpec}
use tradingchassis_ops_lab.Runs.Tests.{spec_in, world}
use tradingchassis_ops_lab.Connectivity.Url.{Urllib, response}
use tradingchassis_ops_lab.Connectivity.Probe.{
  evaluate_connectivity_probe, update_connectivity_probe_metadata_summary, probe_summary,
}
use tradingchassis_ops_lab.Connectivity.Readiness.{
  Environment, is_present_env, Readiness, readiness_of, evaluate_connectivity_readiness, disabled,
  readiness_body, readiness_markers, patch_connectivity_readiness_section,
  update_connectivity_readiness_metadata_summary, readiness_summary,
}
use tradingchassis_ops_lab.Connectivity.Present.{
  readiness_of-configured, readiness_of-partition, evaluate_connectivity_readiness-presence,
}
use tradingchassis_ops_lab.Connectivity.Loopback.{
  IsLoopback, IsConsistent, evaluate_connectivity_probe-IsLoopback,
}
use tradingchassis_ops_lab.Connectivity.Files.{
  Summarised, IsReport, update_summaries-Summarised, patch_connectivity_readiness_section-again,
}

abbrev asking : ConnectivityReadinessSpec
asking = record {
  enabled = true;
  target = none;
  venue = none;
  credential_placeholders = record {
    required_env = "KEY" ∷ "SECRET" ∷ [];
    optional_env = "PASS" ∷ [];
  };
  notes = none;
}

abbrev spec : RunSpec
spec = record (spec_in "paper") { connectivity_readiness = some asking }

abbrev key_only : String → Bool
key_only name = name == "KEY"

readiness_of-configured_example :
    ((readiness_of key_only spec (some asking) "t").state ≡ "configured")
    ↔ ((name : String) → contains ("KEY" ∷ "SECRET" ∷ []) name ≡ true → key_only name ≡ true)
readiness_of-configured_example = readiness_of-configured key_only spec asking "t" refl

readiness_of-partition_example :
    let r = readiness_of key_only spec (some asking) "t" in
    ((f : String → Bool)
      → count f r.present_env + count f r.missing_env
        ≡ count f ("KEY" ∷ "SECRET" ∷ []) + count f ("PASS" ∷ []))
    × (r.missing_required_count ≤ length r.required_env)
    × (r.missing_required_count ≤ length r.missing_env)
readiness_of-partition_example = readiness_of-partition key_only spec asking "t" refl

abbrev env_of : String → Environment
env_of secret name = if name == "KEY" then some secret else none

same_names :
    (name : String) → is_present_env (env_of "abc") name ≡ is_present_env (env_of "xyz") name
unfolding is_present_env strip
same_names name = ground arith

evaluate_connectivity_readiness-presence_example :
    evaluate_connectivity_readiness spec (some (env_of "abc")) none (world absent absent)
    ≡ evaluate_connectivity_readiness spec (some (env_of "xyz")) none (world absent absent)
evaluate_connectivity_readiness-presence_example =
    evaluate_connectivity_readiness-presence spec (env_of "abc") (env_of "xyz") none
      (world absent absent) same_names

-- A library that reads one URL.
abbrev urllib : Urllib
urllib = record {
  lower = λ s. s;
  urlsplit = λ _. ok (record {
    scheme = "http";
    username = none;
    password = none;
    hostname = some "localhost";
    port = ok (some 8080);
    path = "";
    query = "";
    fragment = "";
  });
  urlunsplit = λ scheme host path _ _. host;
  urlopen = λ _ _. (response 200, 0);
  float_text = λ _. "0.0";
}

evaluate_connectivity_probe-IsLoopback_example :
    Post
      (evaluate_connectivity_probe urllib spec "http://localhost:8080" 500 none
        (world absent absent))
      (λ p w.
        IsLoopback urllib "http://localhost:8080" p.url
        × IsConsistent p.state p.http_status p.error_class p.errors)
evaluate_connectivity_probe-IsLoopback_example =
    evaluate_connectivity_probe-IsLoopback urllib spec "http://localhost:8080" 500 none
      (world absent absent)

-- A run directory with metadata and a report.
abbrev run_dir : FilePath
run_dir = "r1" ∷ []

abbrev files : World
files = record (world absent absent) {
  entry = λ p.
      if same_path p ("metadata.json" ∷ run_dir)
      then file (document (obj (field "status" (str "completed") end)))
      else if same_path p ("report.md" ∷ run_dir)
      then file (text "# Report\n")
      else if same_path p run_dir
      then dir
      else absent;
}

update_summaries-Summarised_example :
    Post
      (update_connectivity_readiness_metadata_summary
        ("metadata.json" ∷ run_dir)
        "configured"
        true
        files)
      (λ _ w.
        Summarised
          ("metadata.json" ∷ run_dir)
          "connectivity_readiness"
          (readiness_summary "configured" true)
          files
          w)
    × Post
        (update_connectivity_probe_metadata_summary ("metadata.json" ∷ run_dir) "configured" files)
        (λ _ w.
          Summarised
            ("metadata.json" ∷ run_dir)
            "connectivity_probe"
            (probe_summary "configured")
            files
            w)
update_summaries-Summarised_example =
    update_summaries-Summarised ("metadata.json" ∷ run_dir) "configured" true files

abbrev evaluated : Readiness
evaluated = readiness_of key_only spec (some asking) "t"

files-IsReport : IsReport "report.md" run_dir "# Report\n" files
files-IsReport = record { is_text = refl; readable = refl; writable = refl; folder_there = refl }

no_marker :
    (occurs readiness_markers.start "# Report\n" ≡ false)
    × (occurs readiness_markers.stop "# Report\n" ≡ false)
unfolding occurs
no_marker = (refl, refl)

no_marker_inside : occurs readiness_markers.stop (readiness_body (disabled spec "t")) ≡ false
unfolding occurs readiness_body decimal disabled
no_marker_inside = refl

patch_connectivity_readiness_section-again_example :
    (patch_connectivity_readiness_section
        (λ _. "")
        ("report.md" ∷ run_dir)
        evaluated
        (patch_connectivity_readiness_section
          (λ _. "")
          ("report.md" ∷ run_dir)
          (disabled spec "t")
          files).1).1.entry
      ("report.md" ∷ run_dir)
    ≡ (patch_connectivity_readiness_section
          (λ _. "")
          ("report.md" ∷ run_dir)
          evaluated
          files).1.entry
        ("report.md" ∷ run_dir)
patch_connectivity_readiness_section-again_example =
    patch_connectivity_readiness_section-again (λ _. "") run_dir "# Report\n" files
      (disabled spec "t") evaluated files-IsReport no_marker.0 no_marker.1 no_marker_inside
