-- ===== src/Dialogs/Routine.antt =====
-- The dialog for a new routine: `openRoutineModal` of api/static/agents.js and `openNewRoutineModal`
-- of api/static/cards.js. In both, the select for the day stands directly in the element that holds
-- the whole form, and this element is what the choice of a kind shows and hides.
use hufi_agents.Prelude.{
  ◌≡◌, String, Bool, true, false, ◌||◌, List, [], ◌∷◌, ◌++◌, ◌=ˢ◌, if◌then◌else◌,
}
use hufi_agents.Js.Text.{Text, units, trim}
use hufi_agents.OrgData.Errors.{translate}
use hufi_agents.OrgData.Store.{Reply, ok, err}

pub data Kind : Type 0 where
  day week : Kind

-- The options of the select.
pub data Weekday : Type 0 where
  monday tuesday wednesday thursday friday saturday sunday : Weekday

abbrev pub weekday_name : Weekday → Text
weekday_name monday = units "monday"
weekday_name tuesday = units "tuesday"
weekday_name wednesday = units "wednesday"
weekday_name thursday = units "thursday"
weekday_name friday = units "friday"
weekday_name saturday = units "saturday"
weekday_name sunday = units "sunday"

-- The body of `POST /routines`, less its fixed risk and the time zone.
pub record Request : Type 0 where
  pub owner_agent_id : String
  pub outcome : Text
  pub schedule : Text

pub record Form : Type 0 where
  pub agent_id : String
  pub task : Text
  pub kind : Kind
  pub weekday : Weekday
  pub time : Text
  pub error : Text
  -- `style.display` of the element around the form is not "none"
  pub is_shown : Bool
  pub is_open : Bool
  -- the requests that were sent, latest first, and how often `onCreated` was called
  pub requests : List Request
  pub created : List Request

-- The form when it opens.
unfoldable pub open_form : String → Form
open_form agent_id = record {
  agent_id = agent_id;
  task = [];
  kind = week;
  weekday = monday;
  time = units "08:00";
  error = [];
  is_shown = true;
  is_open = true;
  requests = [];
  created = [];
}

abbrev pub is_week : Kind → Bool
is_week week = true
is_week day = false

-- The handler of the two buttons.
unfoldable pub pick_kind : Kind → Form → Form
pick_kind k f = record f { kind = k; is_shown = is_week k }

unfoldable pub close : Form → Form
close f = record f { is_open = false }

abbrev pub schedule_for : Kind → Weekday → Text → Text
schedule_for day d t = units "every day at " ++ t
schedule_for week d t = units "every " ++ (weekday_name d ++ (units " at " ++ t))

abbrev pub is_blank : Text → Bool
is_blank [] = true
is_blank (_ ∷ _) = false

abbrev pub request_of : Form → Request
request_of f = record {
  owner_agent_id = f.agent_id;
  outcome = trim f.task;
  schedule = schedule_for f.kind f.weekday f.time;
}

-- The handler of the create button up to its request: in cards.js the agent is chosen too.
unfoldable pub create : Form → Form
create f =
    if f.agent_id =ˢ "" || is_blank (trim f.task) || is_blank f.time
    then record f { error = units "Bitte Hufi, Aufgabe und Zeit auswählen." }
    else record f { requests = request_of f ∷ f.requests }

-- In agents.js the agent is given.
unfoldable pub create_for_agent : Form → Form
create_for_agent f =
    if is_blank (trim f.task) || is_blank f.time
    then record f { error = units "Bitte Aufgabe und Zeit auswählen." }
    else record f { requests = request_of f ∷ f.requests }

-- What follows the answer.
unfoldable pub answered : Request → Reply (Unit {0}) → Form → Form
unfolding close
answered r (ok _) f = let g = close f in record g { created = r ∷ g.created }
answered r (err message) f = record f {
  error = units "Routine konnte nicht erstellt werden: " ++ translate message;
}

-- What can happen to the dialog. A control can be used as long as it is shown; the keys, a click
-- beside the dialog, and an answer need no control.
pub data Step : Form → Form → Type 0 where
  types_task : {f : Form} (t : Text) → f.is_shown ≡ true → Step f (record f { task = t })
  chooses_agent : {f : Form} (a : String) → f.is_shown ≡ true → Step f (record f { agent_id = a })
  chooses_day : {f : Form} (d : Weekday) → f.is_shown ≡ true → Step f (record f { weekday = d })
  sets_time : {f : Form} (t : Text) → f.is_shown ≡ true → Step f (record f { time = t })
  picks : {f : Form} (k : Kind) → f.is_shown ≡ true → Step f (pick_kind k f)
  creates : {f : Form} → f.is_shown ≡ true → Step f (create f)
  creates_for_agent : {f : Form} → f.is_shown ≡ true → Step f (create_for_agent f)
  closes : {f : Form} → Step f (close f)
  gets_answer : {f : Form} (r : Request) (a : Reply (Unit {0})) → Step f (answered r a f)

pub data Reachable : String → Form → Type 0 where
  opens : (a : String) → Reachable a (open_form a)
  steps : {a : String} {f g : Form} → Reachable a f → Step f g → Reachable a g
