-- ===== src/Cards/Once.antt =====
-- What the card of an agent in api/static/cards.js asks the backend for.
use hufi_agents.Prelude.{◌≡◌, refl, true, List, [], ◌∷◌, none, is_some, if◌then◌else◌, arith}
use hufi_agents.Js.Text.{Text}
use hufi_agents.OrgData.Types.{Agent}
use hufi_agents.OrgData.Store.{Store, Reply}
use hufi_agents.Work.Evidence.{Moment, Loaded}
use hufi_agents.Cards.Agent.{
  Card, new_card, fill_detail, toggle, click_work, answer_arrives, Event, toggles, clicks_work,
  arrives, step, run,
}

-- The evidence is asked for once, when the detail is filled; a click waits only while the answer is
-- out, and the work is shown only after it came.
pub record IsOnce (c : Card) : Type 0 where
  pub asked : c.requests ≡ (if is_some c.facts then 1 else 0)
  pub waits : c.is_busy ≡ true → c.answer ≡ none
  pub shown : is_some c.work ≡ true → is_some c.answer ≡ true
  pub opened : c.is_expanded ≡ true → is_some c.facts ≡ true

toggle-IsOnce : (s : Store) (c : Card) → IsOnce c → IsOnce (toggle s c)
unfolding toggle fill_detail
toggle-IsOnce s c i = ground (arith, i.waits, i.shown, i.opened)

module _ (locale : Moment → Text) where
  click-IsOnce : (s : Store) (c : Card) → IsOnce c → IsOnce (click_work locale s c)
  unfolding click_work
  click-IsOnce s c i = ground (arith, i.waits, i.shown, i.opened)

  arrives-IsOnce :
      (s : Store) (reply : Reply Loaded) (c : Card)
      → IsOnce c
      → IsOnce (answer_arrives locale s reply c)
  unfolding answer_arrives
  arrives-IsOnce s reply c i = ground (arith, i.waits, i.shown, i.opened)

  step-IsOnce : (e : Event locale) (c : Card) → IsOnce c → IsOnce (step locale e c)
  unfolding step
  step-IsOnce (toggles s) c i = toggle-IsOnce s c i
  step-IsOnce (clicks_work s) c i = click-IsOnce s c i
  step-IsOnce (arrives s reply) c i = arrives-IsOnce s reply c i

  run-from : (es : List (Event locale)) (c : Card) → IsOnce c → IsOnce (run locale es c)
  unfolding run
  run-from [] c i = i
  run-from (e ∷ es) c i = run-from es (step locale e c) (step-IsOnce e c i)

  -- However often the card is opened, closed and asked for work, and whatever is answered, the
  -- evidence is asked for at most once, exactly when the detail was opened, and the work is shown
  -- only after an answer.
  pub run-IsOnce : (a : Agent) (es : List (Event locale)) → IsOnce (run locale es (new_card a))
  unfolding new_card
  run-IsOnce a es =
      run-from es (new_card a)
        (record { asked = refl; waits = λ h. cc; shown = λ h. cc; opened = λ h. cc })
