-- ===== src/Connectivity/Sections.antt =====
-- A marked section of a report: what `patch_connectivity_readiness_section` and
-- `patch_connectivity_probe_section` do to the text of report.md.
use tradingchassis_ops_lab.Base.{String, ◌<>◌, Option, some, lstrip, rstrip}
use tradingchassis_ops_lab.Base.Search.{split_at}

pub record Markers : Type 0 where
  pub start : String
  pub stop : String

-- The section in its markers.
abbrev pub section_of : Markers → String → String
section_of m body = m.start <> "\n" <> body <> "\n" <> m.stop

abbrev pub appended : String → String → String
appended existing section = rstrip existing <> "\n\n" <> section <> "\n"

abbrev pub replaced : Option (String × String) → Option (String × String) → String → String → String
replaced (some (before, _)) (some (_, after)) existing section =
    rstrip before <> "\n\n" <> section <> "\n" <> lstrip after
replaced _ _ existing section = appended existing section

unfoldable pub with_section : Markers → String → String → String
unfolding split_at
with_section m existing section =
    replaced (split_at m.start existing) (split_at m.stop existing) existing section
