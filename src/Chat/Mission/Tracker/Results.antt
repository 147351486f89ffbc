-- ===== src/Chat/Mission/Tracker/Results.antt =====
-- The end of a mission in api/static/chat.js: the results that `trackMission` shows.
use hufi_agents.Prelude.{
  ◌≡◌, refl, ◌⊎◌, inl, inr, String, Bool, Bool-cases, true, false, ◌||◌, not, List, [], ◌∷◌, ◌++◌,
  Option-cases, ◌=ˢ◌, if◌then◌else◌, arith,
}
use hufi_agents.OrgData.Store.{Reply, ok, err}
use hufi_agents.Chat.Mission.{Mission, Task, is_terminal, blank, one_of}
use hufi_agents.Chat.Mission.Approval.{Approval, by_task, by_call, pending_calls}
use hufi_agents.Chat.Mission.Tracker.{
  Waiting, mission, approvals, tool_calls, Tracker, track_mission, start_tick, show_card,
  ensure_card, Snapshot, snapshot_arrives, approvals_arrive, calls_arrive, Answer, snapshot,
  approval_list, call_ids, resume, Step, timer, arrives, Reachable, begin, step,
}

-- Either the mission goes on and no result is shown, or it is over: then one result is shown, of a
-- mission that ended, the progress is cleared and the timer is off.
abbrev pub IsOnce : Tracker → Type 0
IsOnce t =
    ((t.stopped ≡ false) × (t.results ≡ []))
    ⊎ ((t.stopped ≡ true)
        × (t.ticking ≡ false)
        × (t.progress ≡ blank)
        × ((m : Mission) × (t.results ≡ m ∷ []) × (is_terminal m.status ≡ true)))

start_tick-IsOnce : (t : Tracker) → IsOnce t → IsOnce (start_tick t)
unfolding start_tick
start_tick-IsOnce t h = elim (Bool-cases (t.stopped || not t.ticking)) [
  | inl e ↦ rw e h
  | inr e ↦ rw e h
]

if-IsOnce :
    (b : Bool) (x y : Tracker)
    → (b ≡ true → IsOnce x)
    → (b ≡ false → IsOnce y)
    → IsOnce (if b then x else y)
if-IsOnce true x y h k = h refl
if-IsOnce false x y h k = k refl

snapshot-IsOnce : (r : Reply Snapshot) (t : Tracker) → IsOnce t → IsOnce (snapshot_arrives r t)
unfolding snapshot_arrives ensure_card
snapshot-IsOnce (err m) t h = h
snapshot-IsOnce (ok s) t (inr h) =
    if-IsOnce t.stopped _ _ (λ _. inr h) (λ e. absurd (ground (arith, e, h.0)))
snapshot-IsOnce (ok s) t (inl (g, e)) =
    if-IsOnce t.stopped _ _ (λ _. inl (g, e))
      (λ _.
        if-IsOnce (s.mission.status =ˢ "waiting_approval") _ _
          (λ _. if-IsOnce t.rendered _ _ (λ _. inl (g, e)) (λ _. inl (g, e)))
          (λ _.
            if-IsOnce (one_of ("blocked" ∷ "retrying" ∷ []) s.mission.status) _ _ (λ _. inl (g, e))
              (λ _.
                if-IsOnce (is_terminal s.mission.status) _ _
                  (λ d. inr (refl, refl, refl, (s.mission, rw e refl, d))) (λ _. inl (g, e)))))

approvals-IsOnce :
    (tasks : List Task) (r : Reply (List Approval)) (t : Tracker)
    → IsOnce t
    → IsOnce (approvals_arrive tasks r t)
unfolding approvals_arrive show_card
approvals-IsOnce tasks (err m) t h = h
approvals-IsOnce tasks (ok l) t h = elim (Option-cases (by_task tasks l)) [
  | inr (a, e) ↦ rw (e, approvals_arrive) h
  | inl e ↦ rw (e, approvals_arrive) (by_pending (pending_calls l))
]
  where
    by_pending :
        (p : List Approval)
        → IsOnce (elim p [ [] ↦ t | _ ∷ _ ↦ record t { waiting = tool_calls l ∷ t.waiting } ])
    by_pending [] = h
    by_pending (_ ∷ _) = h

calls-IsOnce :
    (l : List Approval) (own_calls : List String) (t : Tracker)
    → IsOnce t
    → IsOnce (calls_arrive l own_calls t)
unfolding calls_arrive show_card
calls-IsOnce l own_calls t h = elim (Option-cases (by_call own_calls l)) [
  | inr (a, e) ↦ rw (e, calls_arrive) h
  | inl e ↦ rw (e, calls_arrive) h
]

resume-IsOnce : (w : Waiting) (a : Answer) (t : Tracker) → IsOnce t → IsOnce (resume w a t)
unfolding resume
resume-IsOnce mission (snapshot r) t h = snapshot-IsOnce r t h
resume-IsOnce (approvals tasks) (approval_list r) t h = approvals-IsOnce tasks r t h
resume-IsOnce (tool_calls l) (call_ids c) t h = calls-IsOnce l c t h
resume-IsOnce mission (approval_list r) t h = h
resume-IsOnce mission (call_ids c) t h = h
resume-IsOnce (approvals tasks) (snapshot r) t h = h
resume-IsOnce (approvals tasks) (call_ids c) t h = h
resume-IsOnce (tool_calls l) (snapshot r) t h = h
resume-IsOnce (tool_calls l) (approval_list r) t h = h

Step-IsOnce : {t u : Tracker} → Step t u → IsOnce t → IsOnce u
Step-IsOnce {t} timer h = start_tick-IsOnce t h
Step-IsOnce {t} (arrives before rest w a e) h =
    resume-IsOnce w a (record t { waiting = before ++ rest }) h

-- However the ticks overlap, in every state that the poller can reach either no result is shown
-- and it goes on, or exactly one result is shown, that of a mission with a final status, while
-- the progress is cleared and the timer is off.
pub Reachable-IsOnce : {t : Tracker} → Reachable t → IsOnce t
unfolding track_mission
Reachable-IsOnce begin = inl (refl, refl)
Reachable-IsOnce (step r s) = Step-IsOnce s (Reachable-IsOnce r)
