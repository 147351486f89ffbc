-- ===== src/Cards/Lookup.antt =====
-- The helpers of api/static/cards.js: lookups across modules, labels, the notice of mock data, and
-- the set of identifiers that a card gathers.
use Prim.Native.String.{◌++◌ as string_append}
use hufi_agents.Prelude.{
  String, List, [], ◌∷◌, ◌++◌, Option, none, some, ◌=ˢ◌, if◌then◌else◌, find, any, map, or_else,
}
use hufi_agents.Js.Text.{Text, units, trim, join}
use hufi_agents.Js.Regex.Search.{replace}
use hufi_agents.Agents.Names.{or_text, property, file_aside}
use hufi_agents.OrgData.Types.{Agent, Team, Project, Resource}
use hufi_agents.OrgData.Store.{
  Store, get_agent_by_id, get_team_by_id, get_project_by_id, get_resource_by_id, is_mock,
}

-- `friendlyRoleShort`
unfoldable pub friendly_role_short : Text → Text
friendly_role_short role =
    or_text (trim (replace file_aside (λ _. []) role)) (units "Noch keine Rollenbeschreibung.")

-- `AGENT_STATUS_LABEL[status] || status`
unfoldable pub agent_status_label : String → Text
unfolding property
agent_status_label status =
    or_else
      (property
        (("active", "Aktiv") ∷ ("disabled", "Deaktiviert") ∷ ("archived", "Archiviert") ∷ [])
        (units status))
      (units status)

unfoldable pub agent_status_tone : String → String
agent_status_tone status = if status =ˢ "active" then "tone-ok" else "tone-idle"

-- An agent of the sidebar's list, which is an argument, or else one of the organisation.
unfoldable pub resolve_agent : List Agent → Store → String → Option Agent
unfolding get_agent_by_id
resolve_agent agents s id =
    if id =ˢ ""
    then none
    else elim (find (λ a. a.id =ˢ id) agents) [ some a ↦ some a | none ↦ get_agent_by_id s id ]

unfoldable pub resolve_team : Store → String → Option Team
unfolding get_team_by_id
resolve_team s id = get_team_by_id s id

unfoldable pub resolve_project : Store → String → Option Project
unfolding get_project_by_id
resolve_project s id = get_project_by_id s id

unfoldable pub resolve_resource : Store → String → Option Resource
unfolding get_resource_by_id
resolve_resource s id = get_resource_by_id s id

-- The notice of mock data; outside mock data there is none.
unfoldable pub mock_notice : Store → Text → Option Text
unfolding is_mock
mock_notice s extra =
    if is_mock s
    then some (
        units "Entwicklungsmodus — Beispieldaten"
        ++ (elim extra [ [] ↦ [] | c ∷ t ↦ units " (" ++ ((c ∷ t) ++ units ")") ] ++ units "."))
    else none

-- `set.add(id)`
abbrev pub set_add : List String → String → List String
set_add set id = if any (λ x. x =ˢ id) set then set else set ++ id ∷ []

-- All identifiers in the order in which they are first added.
unfoldable pub set_of : List String → List String → List String
set_of set [] = set
set_of set (id ∷ ids) = set_of (set_add set id) ids

abbrev pub concat_map {ℓ κ} : {A : Type ℓ} {B : Type κ} → (A → List B) → List A → List B
concat_map f [] = []
concat_map f (x ∷ xs) = f x ++ concat_map f xs

-- `names.join(', ')`, or what is said of none.
unfoldable pub names_or : List String → String → Text
unfolding join
names_or [] fallback = units fallback
names_or (n ∷ ns) fallback = join (units ", ") (map units (n ∷ ns))

infixl 65 ◌++ˢ◌
abbrev pub ◌++ˢ◌ : String → String → String
s ++ˢ t = string_append s t

abbrev pub name_or : String → String → String
name_or t d = if t =ˢ "" then d else t

-- A missing name or description is empty.
abbrev pub or_default : String → String → Text
or_default t d = if t =ˢ "" then units d else units t
