-- ===== src/Dialogs/Weekly.antt =====
-- Which routines the dialogs of api/static/agents.js and api/static/cards.js can create.
use hufi_agents.Prelude.{
  String, ◌≡◌, ◌≢◌, refl, sym, ◌∙◌, Bool, true, false, ◌||◌, [], ◌∷◌, All, if◌then◌else◌, arith,
}
use hufi_agents.Js.Text.{Text, units, trim, starts_with}
use hufi_agents.OrgData.Store.{ok, err}
use hufi_agents.Dialogs.Routine.{
  Kind, day, week, Weekday, monday, tuesday, wednesday, thursday, friday, saturday, sunday, Request,
  Form, open_form, pick_kind, close, is_week, is_blank, schedule_for, request_of, create,
  create_for_agent, answered, Step, types_task, chooses_agent, chooses_day, sets_time, picks,
  creates, creates_for_agent, closes, gets_answer, Reachable, opens, steps,
}

-- A routine of a day of the week, with a task and a time.
pub record IsWeekly (r : Request) : Type 0 where
  pub not_daily : starts_with (units "every day ") r.schedule ≡ false
  pub has_task : r.outcome ≢ []

-- The form is shown exactly while the week is chosen, and what was sent is weekly.
record Inv (f : Form) : Type 0 where
  shown : f.is_shown ≡ is_week f.kind
  sent : All IsWeekly f.requests

week_not_daily :
    (d : Weekday) (t : Text) → starts_with (units "every day ") (schedule_for week d t) ≡ false
week_not_daily monday t = refl
week_not_daily tuesday t = refl
week_not_daily wednesday t = refl
week_not_daily thursday t = refl
week_not_daily friday t = refl
week_not_daily saturday t = refl
week_not_daily sunday t = refl

kind_shown : (k : Kind) → true ≡ is_week k → k ≡ week
kind_shown day h = cc
kind_shown week h = refl

request-IsWeekly :
    (f : Form) → f.kind ≡ week → is_blank (trim f.task) ≡ false → IsWeekly (request_of f)
request-IsWeekly f k b = record {
  not_daily = rw k (week_not_daily f.weekday f.time);
  has_task = λ e. cc;
}

-- Both handlers: an error text, or one more request.
guarded-Inv :
    (f : Form) (message : Text) (test : Bool)
    → Inv f
    → f.kind ≡ week
    → (test ≡ false → is_blank (trim f.task) ≡ false)
    → Inv (
        if test
        then record f { error = message }
        else record f { requests = request_of f ∷ f.requests })
guarded-Inv f message true i k h = record { shown = i.shown; sent = i.sent }
guarded-Inv f message false i k h = record {
  shown = i.shown;
  sent = (request-IsWeekly f k (h refl), i.sent);
}

or_false : (a b c : Bool) → (a || b || c) ≡ false → b ≡ false
or_false a b c h = ground arith

step-Inv : {f g : Form} → Inv f → Step f g → Inv g
unfolding create create_for_agent answered close pick_kind
step-Inv i (types_task t s) = record { shown = i.shown; sent = i.sent }
step-Inv i (chooses_agent a s) = record { shown = i.shown; sent = i.sent }
step-Inv i (chooses_day d s) = record { shown = i.shown; sent = i.sent }
step-Inv i (sets_time t s) = record { shown = i.shown; sent = i.sent }
step-Inv i (picks k s) = record { shown = refl; sent = i.sent }
step-Inv i (creates {f} s) =
    guarded-Inv f _ _ i (kind_shown f.kind (sym s ∙ i.shown)) (or_false _ _ _)
step-Inv i (creates_for_agent {f} s) =
    guarded-Inv f _ _ i (kind_shown f.kind (sym s ∙ i.shown)) (or_false false _ _)
step-Inv i closes = record { shown = i.shown; sent = i.sent }
step-Inv i (gets_answer r (ok _)) = record { shown = i.shown; sent = i.sent }
step-Inv i (gets_answer r (err m)) = record { shown = i.shown; sent = i.sent }

Reachable-Inv : {a : String} {f : Form} → Reachable a f → Inv f
unfolding open_form
Reachable-Inv (opens a) = record { shown = refl; sent = tt }
Reachable-Inv (steps r m) = step-Inv (Reachable-Inv r) m

day_hidden : (k : Kind) (b : Bool) → b ≡ is_week k → k ≡ day → b ≡ false
day_hidden k b h e = rw h (rw e)

-- Whatever is done with the controls that are shown, no daily routine is ever sent to the backend,
-- every routine that is sent has a task, and as soon as daily is chosen the form is hidden.
pub no_daily_routine :
    {a : String} {f : Form}
    → Reachable a f
    → All IsWeekly f.requests × (f.kind ≡ day → f.is_shown ≡ false)
no_daily_routine {f = f} r =
    let i = Reachable-Inv r in (i.sent, day_hidden f.kind f.is_shown i.shown)
