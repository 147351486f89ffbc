-- ===== src/Cards/Agent.antt =====
-- The card of an agent: `renderAgentCard` of api/static/cards.js, with what it loads when it is
-- opened. The locale's spelling of a date is an argument.
use hufi_agents.Prelude.{
  ℕ, suc, String, Bool, true, false, not, ◌&&◌, List, [], ◌∷◌, ◌++◌, Option, none, some, is_some,
  ◌==◌, ◌=ˢ◌, if◌then◌else◌, find, select, map, map_some, take, length,
}
use hufi_agents.Js.Text.{Text, units}
use hufi_agents.Agents.Names.{humanize_id, or_text}
use hufi_agents.OrgData.Errors.{translate}
use hufi_agents.OrgData.Types.{Agent, Relationship, Team, Project}
use hufi_agents.OrgData.Store.{Reply, ok, err, Store, relationships_for, from_node}
use hufi_agents.Work.Evidence.{Moment, Evidence, Loaded}
use hufi_agents.Work.Cards.{fmt_time}
use hufi_agents.Cards.Lookup.{
  friendly_role_short, agent_status_label, resolve_team, resolve_project, names_or, mock_notice,
}

-- The relationships of one kind that begin at the agent.
abbrev held : (relation id : String) → Relationship → Bool
held relation id r = r.relationship_type =ˢ relation && from_node "agent" id r

abbrev team_by : Store → Option Relationship → Option Team
team_by s none = none
team_by s (some r) = resolve_team s r.target_id

abbrev team_text : Option Team → Text
team_text none = units "Noch keinem Team zugeordnet."
team_text (some t) = units t.name

-- The facts of the detail: the team, the projects with their heading, the task.
unfoldable pub facts_of : Store → (id : String) → List Text
unfolding relationships_for resolve_team resolve_project names_or
facts_of s id =
    let rels = relationships_for "agent" id s in
    let projects : List Project =
      map_some (λ r. resolve_project s r.target_id) (select (held "works_on_project" id) rels) in
    units "Team"
    ∷ team_text (team_by s (find (held "member_of_team" id) rels))
    ∷ (if length projects == 1 then units "Projekt" else units "Projekte")
    ∷ names_or (map (λ p. p.name) projects) "Aktuell an keinem Projekt beteiligt."
    ∷ units "Aktuelle Aufgabe"
    ∷ units "Aktuell ist keine laufende Aufgabe hinterlegt."
    ∷ []

pub record Card : Type 0 where
  pub id : String
  pub title : Text
  pub subtitle : Text
  pub status_title : Text
  pub is_expanded : Bool
  -- `detailLoaded`, with the facts that were drawn then
  pub facts : Option (List Text)
  pub activity : Text
  -- the calls of `loadWorkEvidence`, and what the one promise was settled with
  pub requests : ℕ
  pub answer : Option (Reply Loaded)
  pub is_busy : Bool
  pub work : Option (List Text)

abbrev name_of : String → Text
name_of id = if id =ˢ "" then units "Unbekannter Hufi" else humanize_id (units id)

-- The card before its detail is filled.
unfoldable pub new_card : Agent → Card
unfolding friendly_role_short agent_status_label
new_card a = record {
  id = a.id;
  title = name_of a.id;
  subtitle = friendly_role_short (units a.role);
  status_title = agent_status_label (if a.status =ˢ "" then "active" else a.status);
  is_expanded = false;
  facts = none;
  activity = [];
  requests = 0;
  answer = none;
  is_busy = false;
  work = none;
}

-- `fillDetail` with `loadWork`: the first time only.
unfoldable pub fill_detail : Store → Card → Card
unfolding facts_of
fill_detail s c = elim c.facts [
  | some f ↦ c
  | none ↦ record c {
    facts = some (facts_of s c.id);
    activity = units "Lädt letzte Aktivität …";
    requests = suc c.requests;
  }
]

-- The button over the detail.
unfoldable pub toggle : Store → Card → Card
unfolding fill_detail
toggle s c =
    if c.is_expanded
    then record c { is_expanded = false }
    else fill_detail s (record c { is_expanded = true })

module _ (locale : Moment → Text) where
  abbrev activity_line : Evidence → Text
  activity_line e =
      units "Letzte Aktivität: "
      ++ (fmt_time locale e.created_at
          ++ (units " — " ++ or_text e.summary (units "Aktivität ohne Zusammenfassung.")))

  abbrev activity_of : Option (List Evidence) → Text
  activity_of none = units "Aktivität konnte nicht geladen werden."
  activity_of (some []) = units "Noch keine Aktivität bekannt."
  activity_of (some (e ∷ es)) = activity_line e

  unfoldable pub activity_text : Reply Loaded → Text
  unfolding fmt_time
  activity_text (ok l) = activity_of l.items
  activity_text (err _) = activity_of none

  abbrev work_line : Evidence → Text
  work_line e =
      fmt_time locale e.created_at
      ++ (units " — " ++ or_text e.summary (units "Ohne Zusammenfassung."))

  abbrev failed : Text → List Text
  failed message = (units "Arbeit konnte nicht geladen werden: " ++ translate message) ∷ []

  abbrev null_items : Text
  null_items = units "Cannot read properties of null (reading 'length')"

  abbrev not_a_node : Text
  not_a_node = units "Failed to execute 'appendChild' on 'Node': parameter 1 is not of type 'Node'."

  -- The notice stands above the list; where there is none to append, appending it fails.
  abbrev with_notice : Bool → Option Text → List Text → List Text
  with_notice false notice l = l
  with_notice true (some n) l = n ∷ l
  with_notice true none l = failed not_a_node

  abbrev work_of : Option Text → Bool → Option (List Evidence) → List Text
  work_of notice mock none = failed null_items
  work_of notice mock (some []) =
      units "Für diesen Hufi liegt noch keine sichtbare Arbeit vor." ∷ []
  work_of notice mock (some (e ∷ es)) = with_notice mock notice (map work_line (take 20 (e ∷ es)))

  unfoldable pub work_texts : Store → Reply Loaded → List Text
  unfolding fmt_time mock_notice translate
  work_texts s (ok l) = work_of (mock_notice s (units "Beispiel-Arbeitsnachweise")) l.mock l.items
  work_texts s (err message) = failed message

  abbrev show_work : Store → Reply Loaded → Card → Card
  show_work s reply c = record c { is_busy = false; work = some (work_texts s reply) }

  -- A click waits for the promise, or finds it settled.
  abbrev await_work : Store → Option (Reply Loaded) → Card → Card
  await_work s none c = record c { is_busy = true }
  await_work s (some reply) c = show_work s reply c

  -- The button "Arbeit ansehen", which is in the detail and cannot be clicked while it waits.
  unfoldable pub click_work : Store → Card → Card
  unfolding work_texts
  click_work s c = if is_some c.facts && not c.is_busy then await_work s c.answer c else c

  abbrev settle : Store → Reply Loaded → Card → Card
  settle s reply c = record c { answer = some reply; activity = activity_text reply }

  -- The promise is settled, once, if there is one.
  unfoldable pub answer_arrives : Store → Reply Loaded → Card → Card
  unfolding activity_text work_texts
  answer_arrives s reply c =
      if is_some c.facts && not (is_some c.answer)
      then (if c.is_busy then show_work s reply (settle s reply c) else settle s reply c)
      else c

  pub data Event : Type 0 where
    toggles clicks_work : Store → Event
    arrives : Store → Reply Loaded → Event

  unfoldable pub step : Event → Card → Card
  unfolding toggle click_work answer_arrives
  step (toggles s) c = toggle s c
  step (clicks_work s) c = click_work s c
  step (arrives s reply) c = answer_arrives s reply c

  unfoldable pub run : List Event → Card → Card
  run [] c = c
  run (e ∷ es) c = run es (step e c)
