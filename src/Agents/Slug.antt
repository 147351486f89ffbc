-- ===== src/Agents/Slug.antt =====
-- The dialog for a new agent in api/static/agents.js: the identifier that `openNewHufiModal` makes of
-- a name, and its request.
use hufi_agents.Prelude.{
  ℕ, String, Bool, true, false, ◌||◌, ◌&&◌, not, List, [], ◌∷◌, ◌++◌, Option, none, some, leb,
}
use hufi_agents.Js.Text.{Text, units, trim, to_lower_case}
use hufi_agents.Js.Regex.{Regex, start, finish, seq, alt, unit}
use hufi_agents.Js.Regex.Patterns.{chr, plus}
use hufi_agents.Js.Regex.Search.{replace_all}
use hufi_agents.OrgData.Errors.{translate}
use hufi_agents.OrgData.Store.{Reply, ok, err}

abbrev pub is_plain : ℕ → Bool
is_plain c = (leb b'a' c && leb c b'z') || (leb b'0' c && leb c b'9')

-- `[^a-z0-9]`
abbrev pub is_other : ℕ → Bool
is_other c = not (is_plain c)

-- `^-|-$`
abbrev pub outer_dash : Regex
outer_dash = alt (seq start (chr b'-')) (seq (chr b'-') finish)

-- `name.toLowerCase().replace(/[^a-z0-9]+/g, '-').replace(/^-|-$/g, '')`
unfoldable pub slug : Text → Text
unfolding replace_all to_lower_case
slug name =
    replace_all outer_dash (λ _. [])
      (replace_all (plus (unit is_other)) (λ _. b'-' ∷ []) (to_lower_case name))

-- The body of `POST /agents`, less its fixed parts; the role is the name.
pub record NewAgent : Type 0 where
  pub id : Text
  pub name : Text
  pub description : Text

pub record Dialog : Type 0 where
  pub name : Text
  pub purpose : Text
  pub color : String
  pub message : Option Text
  pub is_open : Bool
  pub requests : List NewAgent

-- `SWATCHES`
abbrev pub swatches : List String
swatches = "#f47f1f" ∷ "#c14f15" ∷ "#f59f0a" ∷ "#c96a48" ∷ "#d65d42" ∷ "#8f3e2b" ∷ []

unfoldable pub open_dialog : Dialog
open_dialog = record {
  name = [];
  purpose = [];
  color = "#f47f1f";
  message = none;
  is_open = true;
  requests = [];
}

unfoldable pub pick_color : String → Dialog → Dialog
pick_color c d = record d { color = c }

-- The handler of the form; the browser asks for both fields before.
unfoldable pub submit : Dialog → Dialog
unfolding slug trim
submit d =
    let name = trim d.name in
    record d {
      requests = record { id = slug name; name = name; description = trim d.purpose } ∷ d.requests;
    }

unfoldable pub answered : Reply (Unit {0}) → Dialog → Dialog
answered (ok _) d = record d { is_open = false }
answered (err m) d = record d {
  message = some (units "Hufi konnte nicht angelegt werden: " ++ translate m);
}
