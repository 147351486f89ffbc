-- ===== src/Cards/Tile.antt =====
-- The tile of a resource and the repositories of the registry: `renderResourceTile` and
-- `loadRegistryProjects` of api/static/cards.js.
use hufi_agents.Prelude.{
  String, Bool, true, false, not, List, [], ◌∷◌, ◌++◌, Option, none, some, ◌==◌, ◌=ˢ◌,
  if◌then◌else◌, map,
}
use hufi_agents.Js.Text.{Text, units, beq, decimal}
use hufi_agents.Agents.Names.{humanize_id}
use hufi_agents.OrgData.Types.{Value, null, flag, number, word, Resource}
use hufi_agents.OrgData.Store.{Reply, ok, err}
use hufi_agents.Cards.Lookup.{or_default, name_or, ◌++ˢ◌}
use hufi_agents.Cards.Link.{to_https_github_url}

-- A property of the metadata.
abbrev pub field_of : List (String × Value) → String → Value
field_of [] k = null
field_of ((j, v) ∷ m) k = if j =ˢ k then v else field_of m k

abbrev pub truthy : Value → Bool
truthy null = false
truthy (flag b) = b
truthy (number n) = not (n == 0)
truthy (word []) = false
truthy (word (_ ∷ _)) = true

-- `String(v)`
abbrev pub shown_value : Value → Text
shown_value null = units "null"
shown_value (flag true) = units "true"
shown_value (flag false) = units "false"
shown_value (number n) = decimal n
shown_value (word s) = s

-- `v || fallback` in a text
abbrev pub or_shown : Value → Text → Text
or_shown v d = if truthy v then shown_value v else d

-- A text that is missing or not truthy is empty.
abbrev pub text_or_empty : Value → Text
text_or_empty v = or_shown v []

pub record Badge : Type 0 where
  pub tone : String
  pub text : Text

abbrev badge : String → String → List Badge
badge tone text = record { tone = tone; text = units text } ∷ []

abbrev badge_if : Bool → String → List Badge
badge_if true text = badge "tag" text
badge_if false text = []

abbrev visibility_badge : Value → List Badge
visibility_badge (word s) =
    if beq s (units "public")
    then badge "tone-ok" "Öffentlich"
    else if beq s (units "private")
    then badge "tone-idle" "Privat"
    else []
visibility_badge v = []

abbrev is_repo : Resource → Bool
is_repo r = r.resource_type =ˢ "github_repo"

-- `badges`
unfoldable pub badges_of : (not_connected : Bool) → Resource → List Badge
badges_of not_connected r =
    let meta = field_of r.metadata in
    if not_connected
    then badge "tone-idle" "Noch nicht verbunden"
    else if is_repo r
    then visibility_badge (meta "visibility")
      ++ (record {
        tone = "tone-accent";
        text = or_shown (meta "language") (units "Sprache unbekannt");
      }
          ∷ (badge_if (truthy (meta "has_test")) "Tests"
              ++ (badge_if (truthy (meta "has_build")) "Build"
                  ++ badge_if (truthy (meta "has_lint")) "Lint")))
    else if r.resource_type =ˢ ""
    then []
    else record { tone = "tone-idle"; text = humanize_id (units r.resource_type) } ∷ []

-- What a click on a button does: it opens an address in a new tab, it shows the details in the
-- right pane, or nothing, and then the button says why.
pub data Action : Type 0 where
  opens : Text → Action
  shows : List Text → Action
  disabled : (reason : String) → Action

pub record Button : Type 0 where
  pub label : String
  pub action : Action

abbrev pub link_button : String → Text → Option Text → Button
link_button label path none = record { label = label; action = disabled "Kein Link hinterlegt." }
link_button label path (some url) = record { label = label; action = opens (url ++ path) }

abbrev pub or_url : Text → Option Text → Option Text
or_url [] o = o
or_url (c ∷ t) o = some (c ∷ t)

-- `info.url`
unfoldable pub link_of : Resource → Option Text
unfolding to_https_github_url
link_of r =
    let meta = field_of r.metadata in
    or_url (text_or_empty (meta "url"))
      (to_https_github_url (text_or_empty (meta "repo_url")) (text_or_empty (meta "github_repo")))

abbrev given_value : Value → Text
given_value null = units "Nicht angegeben."
given_value (word []) = units "Nicht angegeben."
given_value v = shown_value v

abbrev pair_texts : List (String × Value) → List Text
pair_texts [] = []
pair_texts ((k, v) ∷ m) = humanize_id (units k) ∷ given_value v ∷ pair_texts m

abbrev details_of : Resource → List Text
details_of r =
    or_default r.description "Keine Beschreibung."
    ∷ units "Typ"
    ∷ humanize_id (or_default r.resource_type "unbekannt")
    ∷ pair_texts r.metadata

unfoldable pub buttons_of : (not_connected : Bool) → Resource → List Button
unfolding link_of
buttons_of not_connected r =
    if is_repo r
    then link_button "Öffnen" [] (link_of r)
      ∷ record { label = "Analysieren"; action = disabled "Noch nicht verfügbar." }
      ∷ link_button "PRs" (units "/pulls") (link_of r)
      ∷ link_button "Issues" (units "/issues") (link_of r)
      ∷ []
    else record {
      label = "Details";
      action =
          if not_connected
          then disabled "Diese Ressource ist noch nicht verbunden."
          else shows (details_of r);
    }
      ∷ []

pub record Tile : Type 0 where
  pub title : Text
  pub description : Text
  pub badges : List Badge
  pub buttons : List Button

-- `renderResourceTile`; `not_connected` is the field `_notConnected`.
unfoldable pub render_resource_tile : (not_connected : Bool) → Resource → Tile
unfolding badges_of buttons_of
render_resource_tile not_connected r = record {
  title = or_default r.name "Unbenannte Ressource";
  description = or_default r.description "Keine Beschreibung.";
  badges = badges_of not_connected r;
  buttons = buttons_of not_connected r;
}

-- A row of `GET /projects`; a missing text is empty.
pub record Registered : Type 0 where
  pub id : String
  pub repo_url : String
  pub github_repo : String
  pub allowed : Bool
  pub has_test : Bool
  pub has_build : Bool
  pub has_lint : Bool

abbrev or_null : Text → Value
or_null [] = null
or_null (c ∷ t) = word (c ∷ t)

abbrev pub url_value : Option Text → Value
url_value none = null
url_value (some t) = word t

-- A row as a resource.
unfoldable pub registry_resource : Registered → Resource
unfolding to_https_github_url
registry_resource p = record {
  id = "registry:" ++ˢ p.id;
  name = name_or (name_or p.github_repo p.repo_url) "Repository";
  resource_type = "github_repo";
  description = "Verbundenes Git-Repository.";
  metadata =
      ("github_repo", or_null (units p.github_repo))
      ∷ ("url", url_value (to_https_github_url (units p.repo_url) (units p.github_repo)))
      ∷ ("visibility", null)
      ∷ ("language", null)
      ∷ ("has_test", flag p.has_test)
      ∷ ("has_build", flag p.has_build)
      ∷ ("has_lint", flag p.has_lint)
      ∷ [];
  status = if p.allowed then "active" else "disabled";
  created_at = none;
  archived_at = none;
}

-- `loadRegistryProjects`: none signals an error.
unfoldable pub load_registry_projects : Reply (List Registered) → Option (List Resource)
unfolding registry_resource
load_registry_projects (ok rows) = some (map registry_resource rows)
load_registry_projects (err _) = none
