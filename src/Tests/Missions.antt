-- ===== src/Tests/Missions.antt =====
-- Examples of following a mission: api/static/chat.js.
use hufi_agents.Prelude.{List}
use hufi_agents.Prelude.{◌≡◌, ◌≤◌, ◌<◌, refl, ◌⊎◌, true, [], ◌∷◌, none, some, At, All, length}
use hufi_agents.Js.Text.{units}
use hufi_agents.OrgData.Store.{ok}
use hufi_agents.Chat.Mission.{Mission, Task}
use hufi_agents.Chat.Decision.{
  CardEvent, clicked, answered, approve, deny, run, new_card, IsOpen, IsClosed, run_decides_once,
}
use hufi_agents.Chat.Mission.Approval.{Approval, IsOwn, choose_approval, choose_approval-IsOwn}
use hufi_agents.Chat.Mission.Result.{render_result, render_result-short}
use hufi_agents.Chat.Mission.Tracker.{
  Tracker, mission, track_mission, snapshot, snapshot_arrives, resume, Reachable, begin, step,
  arrives, timer, start_tick,
}
use hufi_agents.Chat.Mission.Tracker.Results.{IsOnce, Reachable-IsOnce}
use hufi_agents.Chat.Mission.Tracker.Cards.{
  cards_unbounded, repeat, the_approval, none_taken, then_step, Steps-keep_cards,
}

abbrev finished : Mission
finished = record { status = "completed"; result = units "Alles geprüft." }

abbrev the_end : Tracker
the_end =
    resume mission (snapshot (ok (record { mission = finished; tasks = [] })))
      (record track_mission { waiting = [] })

Reachable-IsOnce_example : IsOnce the_end
Reachable-IsOnce_example = Reachable-IsOnce {t = the_end} (
    step begin (
      arrives [] [] mission (snapshot (ok (record { mission = finished; tasks = [] })))
        (unfold track_mission in refl)))

one_result : the_end.results ≡ finished ∷ []
unfolding resume snapshot_arrives track_mission
one_result = refl

abbrev task : Task
task = record { id = "task-1"; status = "waiting_approval" }

abbrev by_call : Approval
by_call = record the_approval { task_id = none; tool_call_id = some "call-7" }

choose_approval-IsOwn_example :
    ((a : Approval) × (choose_approval (task ∷ []) ("call-7" ∷ []) (by_call ∷ []) ≡ some a)
      × At a (by_call ∷ [])
      × IsOwn (task ∷ []) ("call-7" ∷ []) a)
    ⊎ ((choose_approval (task ∷ []) ("call-7" ∷ []) (by_call ∷ []) ≡ none)
        × All (λ a. ¬ (IsOwn (task ∷ []) ("call-7" ∷ []) a)) (by_call ∷ []))
choose_approval-IsOwn_example = choose_approval-IsOwn (task ∷ []) ("call-7" ∷ []) (by_call ∷ [])

call_found : choose_approval (task ∷ []) ("call-7" ∷ []) (by_call ∷ []) ≡ some by_call
unfolding choose_approval
call_found = refl

cards_unbounded_example : (t : Tracker) × Reachable t × (t.cards ≡ repeat 2 the_approval)
cards_unbounded_example = cards_unbounded 2

abbrev with_card : Tracker
with_card = record track_mission { rendered = true; cards = the_approval ∷ []; waiting = [] }

Steps-keep_cards_example : (start_tick with_card).cards ≡ the_approval ∷ []
Steps-keep_cards_example =
    Steps-keep_cards {t = with_card} {u = start_tick with_card} (refl, tt)
      (then_step none_taken timer)

render_result-short_example :
    (0 < length (render_result finished).full)
    × (length (render_result finished).short ≤ 321)
    × (((render_result finished).is_long ≡ true)
        ⊎ ((render_result finished).short ≡ (render_result finished).full))
render_result-short_example = render_result-short finished

abbrev two_clicks : List CardEvent
two_clicks = clicked approve ∷ clicked deny ∷ answered (ok tt) ∷ []

run_decides_once_example : IsOpen (run two_clicks new_card) ⊎ IsClosed (run two_clicks new_card)
run_decides_once_example = run_decides_once two_clicks
