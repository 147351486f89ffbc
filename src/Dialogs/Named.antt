-- ===== src/Dialogs/Named.antt =====
-- What a dialog that makes a team, a project or a resource leaves: `openCreateModal` of
-- api/static/org-canvas.js.
use hufi_agents.Prelude.{
  ℕ, ◌≡◌, ◌≢◌, refl, ◌⊎◌, inl, inr, String, Bool, true, false, List, [], ◌∷◌, Option-cases,
  if◌then◌else◌, get_elem?, remove_at, All, All-append, All-remove_at, arith,
}
use hufi_agents.Js.Text.{Text, trim}
use hufi_agents.OrgData.Store.{Outcome, returned, thrown, Store}
use hufi_agents.OrgData.Mutations.{perform, Told, Settles, perform-Settles}
use hufi_agents.Canvas.Connect.{Notice}
use hufi_agents.Dialogs.Create.{
  Entry, CreateDialog, submit_create, request_for, Answers, created, answer_create, CreateKind,
  open_create_modal, CreateEvent, fills, submits, dismisses, answered, create_after, create_run,
}

abbrev pub IsNamed : Entry → Type 0
IsNamed e = e.name ≢ []

-- Nothing without a name is asked for.
submit_create-IsNamed :
    (d : CreateDialog) → All IsNamed d.waiting → All IsNamed (submit_create d).waiting
unfolding submit_create
submit_create-IsNamed d h = by_name (trim d.fields.name) refl
  where
    by_name : (n : Text) → trim d.fields.name ≡ n → All IsNamed (submit_create d).waiting
    by_name [] e = rw (e, submit_create) h
    by_name (x ∷ xs) e =
        rw (e, submit_create) (All-append IsNamed d.waiting _ h ((λ q. ground (arith, q)), tt))

-- What was typed stays, and the dialog and the organisation either stay as they were, or the dialog
-- is closed and the listeners are told of the new organisation.
abbrev pub Leaves : CreateDialog → CreateDialog → Type 0
Leaves d d' =
    (d'.fields ≡ d.fields)
    × ((d'.store ≡ d.store) × (d'.shown ≡ d.shown) × (d'.notices ≡ d.notices)
        ⊎ (Told d.store d'.store × (d'.shown ≡ false)))

if-IsNamed :
    (b : Bool) (x y : CreateDialog)
    → All IsNamed x.waiting
    → All IsNamed y.waiting
    → All IsNamed (if b then x else y).waiting
if-IsNamed true x y h k = h
if-IsNamed false x y h k = k

module _ (string_of : Text → String) where
  created-Leaves :
      (d : CreateDialog) (e : Entry) (o : Store × Outcome (Unit {0}))
      → Settles d.store o
      → Leaves d (created string_of d e o)
  created-Leaves d e (s, returned u) h = (refl, inr (h, refl))
  created-Leaves d e (s, thrown t) h = (refl, inl (h, refl, refl))

  -- The answer to a request of the dialog.
  pub answer_create-Leaves :
      (i now : ℕ) (mock_id : String) (a : Answers) (d : CreateDialog)
      → Leaves d (answer_create string_of i now mock_id a d)
  unfolding answer_create
  answer_create-Leaves i now mock_id a d = elim (Option-cases (get_elem? d.waiting i)) [
    | inl n ↦ rw (n, answer_create) (refl, inl (refl, refl, refl))
    | inr (e, h) ↦
        rw (h, answer_create)
          (created-Leaves (record d { waiting = remove_at i d.waiting }) e _
            (perform-Settles (request_for string_of d.kind now mock_id e a) d.store))
  ]

  waiting-created :
      (d : CreateDialog) (e : Entry) (o : Store × Outcome (Unit {0}))
      → (created string_of d e o).waiting ≡ d.waiting
  waiting-created d e (s, returned u) = refl
  waiting-created d e (s, thrown t) = refl

  answer_create-IsNamed :
      (i now : ℕ) (mock_id : String) (a : Answers) (d : CreateDialog)
      → All IsNamed d.waiting
      → All IsNamed (answer_create string_of i now mock_id a d).waiting
  unfolding answer_create
  answer_create-IsNamed i now mock_id a d h = elim (Option-cases (get_elem? d.waiting i)) [
    | inl n ↦ rw (n, answer_create) h
    | inr (e, k) ↦
        rw
          (
            k,
            answer_create,
            waiting-created (record d { waiting = remove_at i d.waiting }) e
                (perform (request_for string_of d.kind now mock_id e a) d.store),
          )
          (All-remove_at IsNamed i d.waiting h)
  ]

  after-IsNamed :
      (e : CreateEvent) (d : CreateDialog)
      → All IsNamed d.waiting
      → All IsNamed (create_after string_of e d).waiting
  after-IsNamed (fills f) d h = if-IsNamed d.shown (record d { fields = f }) d h h
  after-IsNamed submits d h = if-IsNamed d.shown (submit_create d) d (submit_create-IsNamed d h) h
  after-IsNamed dismisses d h = h
  after-IsNamed (answered i now mock_id a) d h = answer_create-IsNamed i now mock_id a d h

  run-IsNamed :
      (es : List CreateEvent) (d : CreateDialog)
      → All IsNamed d.waiting
      → All IsNamed (create_run string_of es d).waiting
  unfolding create_run
  run-IsNamed [] d h = h
  run-IsNamed (e ∷ es) d h = run-IsNamed es (create_after string_of e d) (after-IsNamed e d h)

-- Whatever is typed, submitted and answered, each entry that a dialog has asked for has a name that
-- is not blank.
pub create_run-IsNamed :
    (string_of : Text → String) (k : CreateKind) (s : Store) (notices : List Notice)
    (es : List CreateEvent)
    → All IsNamed (create_run string_of es (open_create_modal k s notices)).waiting
unfolding open_create_modal
create_run-IsNamed string_of k s notices es =
    run-IsNamed string_of es (open_create_modal k s notices) tt
