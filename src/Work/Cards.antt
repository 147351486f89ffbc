-- ===== src/Work/Cards.antt =====
-- What api/static/work.js renders for the evidence: each element as the texts that it shows, in the
-- order of the page.
use hufi_agents.Prelude.{
  String, Bool, List, [], ◌∷◌, ◌++◌, Option, none, some, ◌=ˢ◌, if◌then◌else◌, map,
}
use hufi_agents.Js.Text.{Text, units}
use hufi_agents.Work.Evidence.{Evidence, Moment, type_info, agent_name}

pub data Mode : Type 0 where
  einfach transparent live : Mode

-- `loadMode`: the stored mode, when storage can be read and holds one.
unfoldable pub load_mode : Option String → Mode
load_mode none = transparent
load_mode (some v) =
    if v =ˢ "einfach"
    then einfach
    else if v =ˢ "transparent"
    then transparent
    else if v =ˢ "live"
    then live
    else transparent

-- `saveMode` stores the mode by its name.
unfoldable pub mode_name : Mode → String
mode_name einfach = "einfach"
mode_name transparent = "transparent"
mode_name live = "live"

-- An element of the page: a text, or an element with a class that holds others.
pub data Shown : Type 0 where
  evidence_card : (title time agent summary : Text) → (snapshot : List Text) → Shown
  simple_row : (agent verb time : Text) → Shown
  live_card : (agent time note : Text) → Shown

pub data Listing : Type 0 where
  empty_hint : Text → Listing
  nothing : Listing
  listing : List Shown → Listing

abbrev pub not_blank : Option Text → Option Text
not_blank none = none
not_blank (some []) = none
not_blank (some (c ∷ t)) = some (c ∷ t)

abbrev pub reference : Text → Text
reference r = units "Referenz: " ++ r

-- The body of a snapshot whose item is cleared for display.
abbrev cleared : Option Text → Option Text → List Text
cleared none none = units "Kein Inhalt hinterlegt." ∷ []
cleared (some c) none = c ∷ []
cleared none (some r) = reference r ∷ []
cleared (some c) (some r) = c ∷ reference r ∷ []

unfoldable pub snapshot_body : Evidence → List Text
snapshot_body item = elim item.redacted_at [
  | some _ ↦ cleared (not_blank item.content) (not_blank item.artifact_ref)
  | none ↦ units "Wird noch geprüft." ∷ []
]

abbrev or_default : Text → Text → Text
or_default [] d = d
or_default (c ∷ t) d = c ∷ t

-- `Hufi.fmtTime` is a dash for no date; else the date is spelled out for the locale.
module _ (locale : Moment → Text) where
  unfoldable pub fmt_time : Option Moment → Text
  fmt_time none = units "—"
  fmt_time (some m) = locale m

  unfoldable pub build_evidence_card : Evidence → Shown
  unfolding fmt_time snapshot_body
  build_evidence_card item =
      evidence_card (units (type_info item.evidence_type).verb) (fmt_time item.created_at)
        (agent_name item.agent_id) (or_default item.summary (units "Keine Beschreibung verfügbar."))
        (snapshot_body item)

  unfoldable pub build_simple_row : Evidence → Shown
  unfolding fmt_time
  build_simple_row item =
      simple_row (agent_name item.agent_id) (units (type_info item.evidence_type).verb)
        (fmt_time item.created_at)

  unfoldable pub build_live_card : Evidence → Shown
  unfolding fmt_time
  build_live_card item =
      live_card (agent_name item.agent_id) (fmt_time item.created_at)
        (units "Live-Ansicht ist für diese Aufgabe nicht verfügbar.")

  abbrev pub card_for : Mode → Evidence → Shown
  card_for einfach item = build_simple_row item
  card_for live item = build_live_card item
  card_for transparent item = build_evidence_card item

  unfoldable pub build_list : Mode → (loading : Bool) → List Evidence → Listing
  build_list mode loading [] =
      if loading then nothing else empty_hint (units "Noch keine Aktivität.")
  build_list mode loading (x ∷ xs) = listing (map (card_for mode) (x ∷ xs))
