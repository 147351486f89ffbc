-- ===== src/Dialogs/Project.antt =====
-- The dialog for a new project in api/static/cards.js: `openNewProjectModal`.
use hufi_agents.Prelude.{
  ℕ, ◌+◌, ◌≡◌, refl, sym, arith, ap, ◌∙◌, String, Bool, true, false, List, [], ◌∷◌, ◌++◌, Option,
  none, some, if◌then◌else◌, get_elem?, remove_at,
}
use hufi_agents.Js.Text.{Text, units, trim}
use hufi_agents.OrgData.Errors.{translate, is_plain, not_started}
use hufi_agents.OrgData.Types.{Project, State}
use hufi_agents.OrgData.Store.{
  Reply, err, Outcome, returned, thrown, Store, create, post_json, push_and_notify,
  create_graph_project,
}
use hufi_agents.OrgData.Translation.{translate_twice}

-- What the form asks for.
pub record Draft : Type 0 where
  pub name : Text
  pub description : Text

-- The dialog; `created` counts the calls of `onCreated`.
pub record ProjectDialog : Type 0 where
  pub shown : Bool
  pub fields : Draft
  pub message : Option Text
  pub waiting : List Draft
  pub created : ℕ
  pub store : Store

unfoldable pub open_new_project : Store → ProjectDialog
open_new_project s = record {
  shown = true;
  fields = record { name = []; description = [] };
  message = none;
  waiting = [];
  created = 0;
  store = s;
}

unfoldable pub fill : Draft → ProjectDialog → ProjectDialog
fill f d = if d.shown then record d { fields = f } else d

abbrev send_draft : ProjectDialog → ProjectDialog
send_draft d = elim (trim d.fields.name) [
  | [] ↦ d
  | x ∷ xs ↦ record d {
    waiting = d.waiting ++ record { name = x ∷ xs; description = trim d.fields.description } ∷ [];
  }
]

unfoldable pub submit_project : ProjectDialog → ProjectDialog
submit_project d = if d.shown then send_draft d else d

unfoldable pub close_project : ProjectDialog → ProjectDialog
close_project d = record d { shown = false }

abbrev pub refusal : Text → Text
refusal m = units "Projekt konnte nicht angelegt werden: " ++ translate m

abbrev pub project_done : ProjectDialog → Store × Outcome Project → ProjectDialog
project_done d (s, returned p) = record d { shown = false; created = d.created + 1; store = s }
project_done d (s, thrown e) = record d { message = some (refusal e.message); store = s }

abbrev refused_with : Text → Outcome Project
refused_with raw = thrown (record { message = translate raw; needs_approval = false })

create_refused :
    (mock_id name description : String) (raw : Text) (s : Store) (st : State)
    → s.state ≡ some st
    → st.mock ≡ false
    → create_graph_project mock_id name description none (err raw) s ≡ (s, refused_with raw)
unfolding create_graph_project create post_json
create_refused mock_id name description raw s st h m =
    ap (λ o. create_graph_project mock_id name description none (err raw) (record s { state = o }))
      h
    ∙ unless_mock st.mock m _
    ∙ ap (λ o. (record s { state = o }, refused_with raw)) (sym h)
  where
    unless_mock :
        (b : Bool)
        → b ≡ false
        → (p : Outcome Project)
        → push_and_notify
            (λ x t. record t { graph_projects = t.graph_projects ++ x ∷ [] })
            (record s { state = some st })
            st
            (if b then p else refused_with raw)
          ≡ (record s { state = some st }, refused_with raw)
    unless_mock true e p = absurd (ground (arith, e))
    unless_mock false e p = refl

-- The native string of a text is an argument.
module _ (string_of : Text → String) where
  unfoldable pub answer_project :
      ℕ → (mock_id : String) → Reply Project → ProjectDialog → ProjectDialog
  answer_project i mock_id reply d = elim (get_elem? d.waiting i) [
    | none ↦ d
    | some f ↦
        project_done (record d { waiting = remove_at i d.waiting })
          (create_graph_project mock_id (string_of f.name) (string_of f.description) none reply
            d.store)
  ]

  -- When the backend refuses a project, the dialog stays as it is, with what was typed, the
  -- organisation too, and nothing is told to the view; the message ends with the translation of the
  -- error if that is one of the program's own general sentences, and else with the sentence that
  -- the task could not be started.
  pub refused_project :
      (i : ℕ) (mock_id : String) (raw : Text) (f : Draft) (d : ProjectDialog) (st : State)
      → get_elem? d.waiting i ≡ some f
      → d.store.state ≡ some st
      → st.mock ≡ false
      → answer_project i mock_id (err raw) d ≡ record d {
        waiting = remove_at i d.waiting;
        message = some (
            units "Projekt konnte nicht angelegt werden: "
            ++ (if is_plain (translate raw) then translate raw else not_started));
      }
  unfolding answer_project
  refused_project i mock_id raw f d st w s m =
      let dn : ProjectDialog = record d { waiting = remove_at i d.waiting } in
      ap
        (λ (o : Option Draft). elim o [
          | none ↦ d
          | some g ↦ project_done dn (
              create_graph_project mock_id (string_of g.name) (string_of g.description) none
                (err raw) d.store)
        ])
        w
      ∙ ap (project_done dn) (create_refused mock_id _ _ raw d.store st s m)
      ∙ ap (λ t. record dn { message = some (units "Projekt konnte nicht angelegt werden: " ++ t) })
          (translate_twice raw)
