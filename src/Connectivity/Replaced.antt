-- ===== src/Connectivity/Replaced.antt =====
-- A section that is written again replaces the one that is there.
use text.Mathlib.TextLemmas.{nil-append, cons-append, append-nil, append_assoc}
use tradingchassis_ops_lab.Base.{
  String, ◌<>◌, true, false, some, none, ◌≡◌, refl, sym, ◌∙◌, ap, Option, rstrip, lstrip, is_space,
  rstrip_idem, Bool,
}
use tradingchassis_ops_lab.Base.Search.{split_at, occurs}
use tradingchassis_ops_lab.Base.Segments.{
  is_word, on_lines, shifted, break-append, split_at-on_lines, split_at_self, rstrip-break,
  occurs-rstrip, occurs-nil,
}
use tradingchassis_ops_lab.Connectivity.Sections.{
  Markers, section_of, appended, replaced, with_section,
}

-- Markers are single lines, and neither is part of the other.
pub record IsMarked (m : Markers) : Type 0 where
  pub start_word : is_word m.start ≡ true
  pub stop_word : is_word m.stop ≡ true
  pub stop_apart : occurs m.stop m.start ≡ false

split_at_unfound : (p s : String) → occurs p s ≡ false → split_at p s ≡ none
unfolding occurs
split_at_unfound p s h = none_of (split_at p s) h
  where
    none_of :
        (o : Option (String × String))
        → (elim o as (λ _. Bool) [ none ↦ false | some _ ↦ true ]) ≡ false
        → o ≡ none
    none_of none h = refl
    none_of (some x) h = cc

with_section_unmarked :
    (m : Markers) (e section : String)
    → occurs m.start e ≡ false
    → with_section m e section ≡ appended e section
unfolding with_section
with_section_unmarked m e section h =
    ap (λ o. replaced o (split_at m.stop e) e section) (split_at_unfound m.start e h)

breaks-append : (t : String) → "\n\n" <> t ≡ String.◌∷◌ "\n" (String.◌∷◌ "\n" t)
breaks-append t = cons-append "\n" "\n" t ∙ ap (String.◌∷◌ "\n") (break-append t)

-- The text after the first patch, line by line.
appended_lines :
    (m : Markers) (e body : String)
    → appended e (section_of m body)
      ≡ on_lines (rstrip e) (on_lines "" (on_lines m.start (on_lines body (m.stop <> "\n"))))
appended_lines m e body =
    rw
      (
        append_assoc, append_assoc, append_assoc, append_assoc, breaks-append, break-append,
        break-append, nil-append,
      )
      refl

module _ (m : Markers) (h : IsMarked m) (e : String) (no_start : occurs m.start e ≡ false)
    (no_stop : occurs m.stop e ≡ false) (body : String) (inside : occurs m.stop body ≡ false) where
  start_found :
      split_at m.start (appended e (section_of m body))
      ≡ some
          (on_lines (rstrip e) (on_lines "" ""), String.◌∷◌ "\n" (on_lines body (m.stop <> "\n")))
  start_found =
      ap (split_at m.start) (appended_lines m e body)
      ∙ split_at-on_lines m.start (rstrip e) _ h.start_word (occurs-rstrip m.start e no_start)
      ∙ ap (shifted (rstrip e))
          (split_at-on_lines m.start "" _ h.start_word (occurs-nil m.start h.start_word))
      ∙ ap (λ o. shifted (rstrip e) (shifted "" o)) (split_at_self m.start _ h.start_word)

  stop_found : (b : String) × (split_at m.stop (appended e (section_of m body)) ≡ some (b, "\n"))
  stop_found = (
    on_lines (rstrip e) (on_lines "" (on_lines m.start (on_lines body ""))),
    ap (split_at m.stop) (appended_lines m e body)
        ∙ split_at-on_lines m.stop (rstrip e) _ h.stop_word (occurs-rstrip m.stop e no_stop)
        ∙ ap (shifted (rstrip e)) (
            split_at-on_lines m.stop "" _ h.stop_word (occurs-nil m.stop h.stop_word)
            ∙ ap (shifted "") (
                split_at-on_lines m.stop m.start _ h.stop_word h.stop_apart
                ∙ ap (shifted m.start) (
                    split_at-on_lines m.stop body _ h.stop_word inside
                    ∙ ap (shifted body) (split_at_self m.stop "\n" h.stop_word)))),
  )

  rstrip-before : rstrip (on_lines (rstrip e) (on_lines "" "")) ≡ rstrip e
  rstrip-before =
      ap rstrip (sym (append_assoc (rstrip e) "\n" "\n"))
      ∙ rstrip-break (rstrip e <> "\n")
      ∙ rstrip-break (rstrip e)
      ∙ rstrip_idem e

  -- The markers are single lines, the end marker is not part of the start marker, and neither the
  -- report nor the body of the first section holds a marker that could be taken for one of the
  -- section's. Writing a second section then leaves the same report as writing it in place of the
  -- first: sections do not pile up.
  pub with_section_again :
      (section : String)
      → with_section m (with_section m e (section_of m body)) section ≡ with_section m e section
  unfolding with_section lstrip is_space
  with_section_again section =
      ap (λ t. with_section m t section) (with_section_unmarked m e (section_of m body) no_start)
      ∙ ap
          (λ o.
            replaced o (split_at m.stop (appended e (section_of m body)))
              (appended e (section_of m body)) section)
          start_found
      ∙ ap
          (λ o.
            replaced
              (some (
                on_lines (rstrip e) (on_lines "" ""),
                String.◌∷◌ "\n" (on_lines body (m.stop <> "\n")),
              ))
              o (appended e (section_of m body)) section)
          stop_found.1
      ∙ ap (λ s. s <> "\n\n" <> section <> "\n" <> "") rstrip-before
      ∙ ap (λ s. rstrip e <> "\n\n" <> section <> s) (append-nil "\n")
      ∙ sym (with_section_unmarked m e section no_start)
