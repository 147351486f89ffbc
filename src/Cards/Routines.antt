-- ===== src/Cards/Routines.antt =====
-- The list of the view "Routinen" in api/static/cards.js: `renderList`, its buttons and `load`. The
-- locale's spelling of a date is an argument.
use hufi_agents.Prelude.{
  ℕ, String, Bool, ◌||◌, not, List, [], ◌∷◌, ◌++◌, Option, none, some, leb, ◌=ˢ◌, if◌then◌else◌,
  select, map, sort_with,
}
use hufi_agents.Js.Text.{Text, units}
use hufi_agents.Agents.Names.{humanize_id, or_text}
use hufi_agents.OrgData.Errors.{translate}
use hufi_agents.OrgData.Store.{Reply, ok, err}
use hufi_agents.Cards.Schedule.{schedule_de, RoutineBadge, routine_status_badge}

-- A routine of `GET /routines`; a missing outcome or schedule is empty.
pub record Routine : Type 0 where
  pub id : String
  pub owner_agent_id : String
  pub outcome : Text
  pub schedule : Text
  pub status : String
  pub enabled : Bool
  pub next_run : Option ℕ

-- The two buttons of a routine that is not archived.
pub data Button : Type 0 where
  pause resume archive : Button

pub record Row : Type 0 where
  pub outcome : Text
  pub meta : Text
  pub next_run : Option Text
  pub badge : RoutineBadge
  pub buttons : List Button

abbrev pub is_archived : Routine → Bool
is_archived r = r.status =ˢ "archived"

-- A routine without a next run counts as the oldest time.
abbrev pub run_time : Routine → ℕ
run_time r = elim r.next_run [ none ↦ 0 | some t ↦ t ]

abbrev pub earlier : Routine → Routine → Bool
earlier a b = leb (run_time a) (run_time b)

unfoldable pub visible_routines : (show_archived : Bool) → List Routine → List Routine
visible_routines show_archived l =
    sort_with earlier (select (λ r. show_archived || not (is_archived r)) l)

abbrev buttons_of : Routine → List Button
buttons_of r = if is_archived r then [] else (if r.enabled then pause else resume) ∷ archive ∷ []

-- What the list shows.
pub data Listing : Type 0 where
  loading : Listing
  failed : Text → Listing
  nothing : Listing
  rows : List Row → Listing

module _ (locale : ℕ → Text) where
  abbrev next_text : Option ℕ → Text
  next_text none = units "wird geplant"
  next_text (some t) = locale t

  -- The owner that is found has the identifier that was asked for, so the lookup changes nothing.
  unfoldable pub row_of : Routine → Row
  unfolding schedule_de routine_status_badge
  row_of r = record {
    outcome = or_text r.outcome (units "Keine Aufgabenbeschreibung hinterlegt.");
    meta = schedule_de r.schedule ++ (units " — " ++ humanize_id (units r.owner_agent_id));
    next_run =
        if is_archived r then none else some (units "Nächster Lauf: " ++ next_text r.next_run);
    badge = routine_status_badge r.status r.enabled;
    buttons = buttons_of r;
  }

  abbrev list_of : List Routine → Listing
  list_of [] = nothing
  list_of (r ∷ rs) = rows (map row_of (r ∷ rs))

  -- `renderList`
  unfoldable pub render_list : (show_archived : Bool) → List Routine → Listing
  unfolding visible_routines
  render_list show_archived l = list_of (visible_routines show_archived l)

  -- `load`, after its answer.
  unfoldable pub loaded : (show_archived : Bool) → Reply (List Routine) → Listing
  unfolding render_list
  loaded show_archived (ok l) = render_list show_archived l
  loaded show_archived (err message) =
      failed (units "Routinen konnten nicht geladen werden: " ++ translate message)

-- The path of a button's request.
unfoldable pub request_path : (encode : Text → Text) → Routine → Button → Text
request_path encode r b =
    units "/routines/"
    ++ (encode (units r.id) ++ (elim b [
      | pause ↦ units "/pause"
      | resume ↦ units "/resume"
      | archive ↦ units "/archive"
    ]))
