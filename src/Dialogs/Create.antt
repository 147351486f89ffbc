-- ===== src/Dialogs/Create.antt =====
-- The dialogs that make a team, a project or a resource: `openCreateModal` of
-- api/static/org-canvas.js and `openNewProjectModal` of api/static/cards.js.
use hufi_agents.Prelude.{
  ℕ, String, Bool, true, false, List, [], ◌∷◌, ◌++◌, Option, none, some, if◌then◌else◌, get_elem?,
  remove_at,
}
use hufi_agents.Js.Text.{Text, units, trim}
use hufi_agents.OrgData.Types.{Team, Project, Resource}
use hufi_agents.OrgData.Store.{Reply, Outcome, returned, thrown, Store}
use hufi_agents.OrgData.Mutations.{Request, team, project, resource, perform}
use hufi_agents.Canvas.Connect.{Notice, success, not_worked, or_general}

pub data CreateKind : Type 0 where
  new_team new_project new_resource : CreateKind

-- What the form asks for: the third text is the repository of a project or the type of a resource.
pub record Entry : Type 0 where
  pub name : Text
  pub description : Text
  pub extra : Text

pub record CreateDialog : Type 0 where
  pub kind : CreateKind
  pub shown : Bool
  pub fields : Entry
  pub error : Text
  pub waiting : List Entry
  pub store : Store
  pub notices : List Notice

abbrev blank_fields : CreateKind → Entry
blank_fields new_resource = record { name = []; description = []; extra = units "github_repo" }
blank_fields _ = record { name = []; description = []; extra = [] }

unfoldable pub open_create_modal : CreateKind → Store → List Notice → CreateDialog
open_create_modal k s notices = record {
  kind = k;
  shown = true;
  fields = blank_fields k;
  error = [];
  waiting = [];
  store = s;
  notices = notices;
}

abbrev extra_of : CreateKind → Text → Text
extra_of new_team t = []
extra_of new_project t = trim t
extra_of new_resource t = t

-- Nothing is asked for without a name.
unfoldable pub submit_create : CreateDialog → CreateDialog
submit_create d = elim (trim d.fields.name) [
  | [] ↦ d
  | x ∷ xs ↦ record d {
    waiting =
        d.waiting
        ++ record {
          name = x ∷ xs;
          description = trim d.fields.description;
          extra = extra_of d.kind d.fields.extra;
        }
          ∷ [];
  }
]

-- The backend's answer to each kind of request.
pub record Answers : Type 0 where
  pub team_reply : Reply Team
  pub project_reply : Reply Project
  pub resource_reply : Reply Resource

pub data CreateEvent : Type 0 where
  fills : Entry → CreateEvent
  submits dismisses : CreateEvent
  answered : ℕ → (now : ℕ) (mock_id : String) → Answers → CreateEvent

-- The native string of a text is an argument.
module _ (string_of : Text → String) where
  abbrev text_or : Text → Text → Text
  text_or [] t = t
  text_or (x ∷ xs) t = x ∷ xs

  abbrev or_null : Text → Option String
  or_null [] = none
  or_null (x ∷ xs) = some (string_of (x ∷ xs))

  -- `CREATE_META[kind].create`
  unfoldable pub request_for : CreateKind → (now : ℕ) (mock_id : String) → Entry → Answers → Request
  request_for new_team now mock_id e a =
      team mock_id (string_of e.name) (string_of e.description) a.team_reply
  request_for new_project now mock_id e a =
      project mock_id (string_of e.name) (string_of e.description) (or_null e.extra) a.project_reply
  request_for new_resource now mock_id e a =
      resource now mock_id (string_of e.name) (string_of (text_or e.extra (units "tool")))
        (string_of e.description) [] a.resource_reply

  abbrev pub created : CreateDialog → Entry → Store × Outcome (Unit {0}) → CreateDialog
  created d e (s, returned u) = record d {
    shown = false;
    store = s;
    notices =
        record { tone = success; text = units "Ich habe „" ++ (e.name ++ units "“ angelegt.") }
        ∷ d.notices;
  }
  created d e (s, thrown t) = record d { error = or_general t.message not_worked; store = s }

  unfoldable pub answer_create :
      ℕ → (now : ℕ) (mock_id : String) → Answers → CreateDialog → CreateDialog
  answer_create i now mock_id a d = elim (get_elem? d.waiting i) [
    | none ↦ d
    | some e ↦
        created (record d { waiting = remove_at i d.waiting }) e
          (perform (request_for d.kind now mock_id e a) d.store)
  ]

  abbrev pub create_after : CreateEvent → CreateDialog → CreateDialog
  create_after (fills e) d = if d.shown then record d { fields = e } else d
  create_after submits d = if d.shown then submit_create d else d
  create_after dismisses d = record d { shown = false }
  create_after (answered i now mock_id a) d = answer_create i now mock_id a d

  unfoldable pub create_run : List CreateEvent → CreateDialog → CreateDialog
  create_run [] d = d
  create_run (e ∷ es) d = create_run es (create_after e d)
