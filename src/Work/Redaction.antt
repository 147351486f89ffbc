-- ===== src/Work/Redaction.antt =====
-- The redaction rule at the head of api/static/work.js.
use hufi_agents.Prelude.{
  ◌≡◌, refl, ap, Bool, List, [], ◌∷◌, none, some, Option-cases, inl, inr, map,
}
use hufi_agents.Js.Text.{Text}
use hufi_agents.Work.Evidence.{Evidence, Moment}
use hufi_agents.Work.Cards.{
  Mode, einfach, transparent, live, build_list, build_evidence_card, build_simple_row,
  build_live_card, snapshot_body, card_for, listing,
}

-- The item without the content and the reference that were not cleared for display.
abbrev pub without_uncleared : Evidence → Evidence
without_uncleared item = elim item.redacted_at [
  | none ↦ record item { content = none; artifact_ref = none }
  | some _ ↦ item
]

module _ (locale : Moment → Text) where
  card-without :
      (mode : Mode) (x : Evidence)
      → card_for locale mode (without_uncleared x) ≡ card_for locale mode x
  unfolding build_evidence_card build_simple_row build_live_card snapshot_body
  card-without mode x = elim (Option-cases x.redacted_at) [
    | inl h ↦ by_mode mode h
    | inr (r, h) ↦ rw h refl
  ]
    where
      by_mode :
          (m : Mode)
          → x.redacted_at ≡ none
          → card_for locale m (without_uncleared x) ≡ card_for locale m x
      by_mode einfach h = rw h refl
      by_mode live h = rw h refl
      by_mode transparent h = rw (h) refl

  cards-without :
      (mode : Mode) (l : List Evidence)
      → map (card_for locale mode) (map without_uncleared l) ≡ map (card_for locale mode) l
  cards-without mode [] = refl
  cards-without mode (x ∷ l) = rw (card-without mode x, cards-without mode l) refl

-- In every mode, whatever is loading, the list shows the same when the content and the reference
-- are deleted from each item that has no time of redaction: neither can be seen on the page.
pub build_list_redaction :
    (locale : Moment → Text) (mode : Mode) (loading : Bool) (l : List Evidence)
    → build_list locale mode loading (map without_uncleared l) ≡ build_list locale mode loading l
unfolding build_list
build_list_redaction locale mode loading [] = refl
build_list_redaction locale mode loading (x ∷ l) = ap listing (cards-without locale mode (x ∷ l))
