-- ===== src/Tests/Work.antt =====
-- Examples of the view of the work: api/static/work.js.
use hufi_agents.Prelude.{
  ◌≡◌, refl, String, true, false, List, [], ◌∷◌, Option, none, some, map, length,
}
use hufi_agents.Js.Text.{units}
use hufi_agents.OrgData.Store.{ok, initial}
use hufi_agents.Work.Evidence.{Evidence, Moment, newest_first, load_work_evidence}
use hufi_agents.Work.Cards.{transparent, build_list}
use hufi_agents.Work.Redaction.{without_uncleared, build_list_redaction}
use hufi_agents.Work.Summary.{by_team, by_team_lem, total, group_count, occurrences}
use hufi_agents.Work.Fetch.{
  View, initial as closed_view, begin_fetch, end_fetch, answer, on_show, open_for_agent, answered,
  shown, opened, after,
}
use hufi_agents.Work.Newest.{start, next, IsCurrent, Reachable-IsCurrent}

abbrev noon : Moment
noon = record { millis = 43200000; year = 2026; month = 0; day = 1 }

abbrev evening : Moment
evening = record { millis = 64800000; year = 2026; month = 0; day = 1 }

abbrev item : Moment → Option Moment → Evidence
item at redacted = record {
  agent_id = some "builder";
  evidence_type = "test";
  summary = units "Tests ausgeführt";
  content = some (units "raw output");
  artifact_ref = none;
  created_at = some at;
  redacted_at = redacted;
}

abbrev two_items : List Evidence
two_items = item noon none ∷ item evening (some evening) ∷ []

evening_first : newest_first two_items ≡ item evening (some evening) ∷ item noon none ∷ []
unfolding newest_first
evening_first = refl

build_list_redaction_example :
    build_list (λ m. []) transparent false (map without_uncleared two_items)
    ≡ build_list (λ m. []) transparent false two_items
build_list_redaction_example = build_list_redaction (λ m. []) transparent false two_items

by_team_lem_example :
    ((label evidence_type : String)
      → group_count label evidence_type (by_team initial two_items [])
        ≡ occurrences initial label evidence_type two_items)
    × (total (by_team initial two_items []) ≡ length two_items)
by_team_lem_example = by_team_lem initial two_items

-- The view is opened, another agent is asked for, and the answers come in the wrong order.
abbrev reordered : View
reordered =
    after
      (after (after (after (closed_view none) shown) (opened true (some "builder")))
        (answered 2 (ok (some two_items))))
      (answered 1 (ok (some [])))

reordered_items : reordered.evidence_items ≡ item evening (some evening) ∷ item noon none ∷ []
unfolding after closed_view on_show open_for_agent begin_fetch end_fetch answer load_work_evidence
    newest_first
reordered_items = refl

Reachable-IsCurrent_example : IsCurrent reordered
Reachable-IsCurrent_example = Reachable-IsCurrent none reordered (
    next
      (next
        (next (next start shown tt) (opened true (some "builder"))
          (unfold after closed_view on_show begin_fetch in refl))
        (answered 2 (ok (some two_items))) tt)
      (answered 1 (ok (some []))) tt)
