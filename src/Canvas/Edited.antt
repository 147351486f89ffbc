-- ===== src/Canvas/Edited.antt =====
-- What the dialog for the connections of a node shows: `openEditRelationshipsModal` of
-- api/static/org-canvas.js.
use hufi_agents.Prelude.{
  ℕ, ◌≡◌, refl, ◌⊎◌, inl, inr, String, Bool, true, false, List, [], ◌∷◌, none, some, Option-cases,
  Bool-cases, arith, is_some, get_elem?, remove_at,
}
use hufi_agents.OrgData.Types.{Agent, Relationship}
use hufi_agents.OrgData.Store.{Reply, Outcome, returned, thrown, Store, add_relationship}
use hufi_agents.Canvas.Connect.{Item, Notice, TypeOption, source_type_options}
use hufi_agents.Canvas.Details.{relationship_rows}
use hufi_agents.Canvas.Question.{
  Question, Scene, granted, answer, QuestionEvent, clicked, dismissed, answered, after,
}
use hufi_agents.Canvas.Edit.{
  Edit, render_existing, open_dialog, pick_type, pick_target, click_remove, submit, settled_now,
  with_scene, in_question, escape, close, EditEvent, picks_type, picks_target, removes,
  removal_answered, submits, addition_answered, questions_event, escapes, closes, with_form,
  edit_after, edit_run,
}
use hufi_agents.Canvas.Listed.{
  IsCurrent, row-Line, render-IsCurrent, click_remove-IsCurrent, answer_removal-IsCurrent,
  answer_addition-IsCurrent, choose_type-IsCurrent, pick_type-IsCurrent, pick_target-IsCurrent,
  submit-IsCurrent, if_shown-IsCurrent,
}

-- An answer to a request of a question that has been settled before.
abbrev pub is_late : QuestionEvent → Question → Bool
is_late (answered i id r) q = is_some q.promise
is_late _ q = false

granted-settles :
    (c : Scene) (q : Question) (o : Store × Outcome Relationship)
    → is_some (granted c q o).question.promise ≡ true
granted-settles c q (s, returned r) = elim (Option-cases q.promise) [
  | inl n ↦ rw n refl
  | inr (b, h) ↦ rw h refl
]
granted-settles c q (s, thrown t) = elim (Option-cases q.promise) [
  | inl n ↦ rw n refl
  | inr (b, h) ↦ rw h refl
]

-- A question changes the organisation only when it is settled by that.
abbrev ChangesOnSettling : Scene → Scene → Type 0
ChangesOnSettling b n = (n.store ≡ b.store) ⊎ (settled_now b.question n.question ≡ true)

answer-Settling :
    (i : ℕ) (id : String) (r : Reply Relationship) (c : Scene)
    → is_some c.question.promise ≡ false
    → ChangesOnSettling c (answer i id r c)
unfolding answer
answer-Settling i id r c f = elim (Option-cases (get_elem? c.question.waiting i)) [
  | inl n ↦ rw (n, answer) (inl refl)
  | inr (e, h) ↦
      let g =
        granted-settles c (record c.question { waiting = remove_at i c.question.waiting })
          (add_relationship id e r c.store) in
      rw (h, answer, f, g) (inr refl)
]

after-Settling :
    (e : QuestionEvent) (c : Scene) → is_late e c.question ≡ false → ChangesOnSettling c (after e c)
unfolding after
after-Settling (clicked b) c f = inl refl
after-Settling dismissed c f = inl refl
after-Settling (answered i id r) c f = answer-Settling i id r c f

with_scene-IsCurrent :
    (i : ℕ) (q : Question) (d : Edit) (c : Scene)
    → (c.store ≡ d.store) ⊎ (settled_now q c.question ≡ true)
    → IsCurrent d
    → IsCurrent (with_scene i q d c)
unfolding render_existing
with_scene-IsCurrent i q d c h k = elim (Bool-cases (settled_now q c.question)) [
  | inl t ↦ rw t (row-Line (relationship_rows d.agents d.node.kind d.node.id c.store))
  | inr f ↦ elim h [ inl e ↦ rw (f, e) k | inr t ↦ absurd (ground (arith, t, f)) ]
]

-- The question that an event is about has been settled before, and the event is an answer.
abbrev pub comes_late : EditEvent → Edit → Bool
comes_late (questions_event i e) d = elim (get_elem? d.questions i) [
  | none ↦ false
  | some q ↦ is_late e q
]
comes_late _ d = false

in_question-IsCurrent :
    (i : ℕ) (e : QuestionEvent) (d : Edit)
    → comes_late (questions_event i e) d ≡ false
    → IsCurrent d
    → IsCurrent (in_question i e d)
unfolding in_question
in_question-IsCurrent i e d f k = elim (Option-cases (get_elem? d.questions i)) [
  | inl n ↦ rw (n, in_question) k
  | inr (q, h) ↦
      let c : Scene = record { question = q; store = d.store; notices = d.notices } in
      rw (h, in_question)
        (with_scene-IsCurrent i q d (after e c) (after-Settling e c (rw (comes_late, h) at f)) k)
]

edit_after-IsCurrent :
    (e : EditEvent) (d : Edit) → comes_late e d ≡ false → IsCurrent d → IsCurrent (edit_after e d)
unfolding edit_after escape close
edit_after-IsCurrent (picks_type i) d f k =
    if_shown-IsCurrent (pick_type i) d (pick_type-IsCurrent i d) k
edit_after-IsCurrent (picks_target i) d f k =
    if_shown-IsCurrent (pick_target i) d (pick_target-IsCurrent i d) k
edit_after-IsCurrent (removes i) d f k =
    if_shown-IsCurrent (click_remove i) d (click_remove-IsCurrent i d) k
edit_after-IsCurrent (removal_answered i now r) d f k = answer_removal-IsCurrent i now r d k
edit_after-IsCurrent submits d f k = if_shown-IsCurrent submit d (submit-IsCurrent d) k
edit_after-IsCurrent (addition_answered i id r) d f k = answer_addition-IsCurrent i id r d k
edit_after-IsCurrent (questions_event i e) d f k = in_question-IsCurrent i e d f k
edit_after-IsCurrent escapes d f k = k
edit_after-IsCurrent closes d f k = k

-- No question is answered after it has been settled.
abbrev pub NoneLate : List EditEvent → Edit → Type 0
NoneLate [] d = Unit
NoneLate (e ∷ es) d = (comes_late e d ≡ false) × NoneLate es (edit_after e d)

edit_run-Current :
    (es : List EditEvent) (d : Edit) → NoneLate es d → IsCurrent d → IsCurrent (edit_run es d)
unfolding edit_run
edit_run-Current [] d n k = k
edit_run-Current (e ∷ es) d n k = edit_run-Current es _ n.1 (edit_after-IsCurrent e d n.0 k)

open_dialog-IsCurrent :
    (node : Item) (agents : List Agent) (s : Store) (notices : List Notice)
    → IsCurrent (open_dialog node agents s notices)
unfolding open_dialog
open_dialog-IsCurrent node agents s notices =
    by_options (source_type_options node.kind) _ (render-IsCurrent _)
  where
    by_options : (os : List TypeOption) (d : Edit) → IsCurrent d → IsCurrent (with_form os d)
    by_options [] d k = k
    by_options (o ∷ os) d k = choose_type-IsCurrent o d k

-- Whatever is done in the dialog for the connections of a node and in the questions that it opens,
-- with answers in any order, its list shows exactly the connections that the node has, if the
-- organisation changes by this dialog alone and no question is answered again after it was settled.
pub edit_run-IsCurrent :
    (node : Item) (agents : List Agent) (s : Store) (notices : List Notice) (es : List EditEvent)
    → NoneLate es (open_dialog node agents s notices)
    → IsCurrent (edit_run es (open_dialog node agents s notices))
edit_run-IsCurrent node agents s notices es n =
    edit_run-Current es _ n (open_dialog-IsCurrent node agents s notices)
