-- ===== src/Canvas/Late.antt =====
-- What the dialog for the connections of a node does not show: `openEditRelationshipsModal` and
-- `openResourceConfirm` of api/static/org-canvas.js.
use hufi_agents.Prelude.{
  ◌≡◌, refl, ap, ◌∙◌, Bool, true, false, [], ◌∷◌, ◌++◌, some, if◌then◌else◌, is_some, get_elem?,
  remove_at, arith,
}
use hufi_agents.OrgData.Types.{Relationship, State}
use hufi_agents.OrgData.Store.{
  ok, Outcome, returned, thrown, Store, Edge, add_relationship, relationships_for, touches,
}
use hufi_agents.OrgData.Relations.{relationships_for-add_relationship}
use hufi_agents.Canvas.Question.{Question, Scene, granted, answer, answered, after}
use hufi_agents.Canvas.Edit.{
  Edit, settled_now, with_scene, in_question, questions_event, edit_after,
}
use hufi_agents.Canvas.Listed.{rows_of}

if_false {ℓ} : {A : Type ℓ} (b : Bool) (x y : A) → b ≡ false → (if b then x else y) ≡ y
if_false true x y h = absurd (ground (arith, h))
if_false false x y h = refl

with_settled :
    (q : Question) (d : Edit) (c : Scene)
    → is_some q.promise ≡ true
    → (rows_of (with_scene 0 q d c) ≡ rows_of d) × ((with_scene 0 q d c).store ≡ c.store)
with_settled q d c p =
    let e = if_false (settled_now q c.question) _ _ (rw p refl) in
    (ap rows_of e, ap (λ x. x.store) e)

store-granted :
    (c : Scene) (q : Question) (o : Store × Outcome Relationship) → (granted c q o).store ≡ o.0
store-granted c q (s, returned r) = refl
store-granted c q (s, thrown e) = refl

store-answer :
    (e : Edge) (r : Relationship) (c : Scene)
    → get_elem? c.question.waiting 0 ≡ some e
    → (answer 0 "" (ok r) c).store ≡ (add_relationship "" e (ok r) c.store).0
unfolding answer
store-answer e r c w =
    rw (w, answer)
      (store-granted c (record c.question { waiting = remove_at 0 c.question.waiting })
        (add_relationship "" e (ok r) c.store))

-- When a question of the dialog has been settled, by a refusal or by a first click, and a request
-- that still waits is granted, the organisation changes and the list of the dialog does not.
pub late_grant :
    (d : Edit) (q : Question) (e : Edge) (r : Relationship) (st : State)
    → get_elem? d.questions 0 ≡ some q
    → get_elem? q.waiting 0 ≡ some e
    → is_some q.promise ≡ true
    → d.store.state ≡ some st
    → st.mock ≡ false
    → (rows_of (edit_after (questions_event 0 (answered 0 "" (ok r))) d) ≡ rows_of d)
      × (relationships_for d.node.kind d.node.id
            (edit_after (questions_event 0 (answered 0 "" (ok r))) d).store
          ≡ relationships_for d.node.kind d.node.id d.store
            ++ (if touches d.node.kind d.node.id r then r ∷ [] else []))
unfolding edit_after after in_question
late_grant d q e r st h w p s m =
    let c : Scene = record { question = q; store = d.store; notices = d.notices } in
    let k = with_settled q d (answer 0 "" (ok r) c) p in
    let t = k.1 ∙ store-answer e r c w in
    rw (h, in_question)
      (
        k.0,
        ap (relationships_for d.node.kind d.node.id) t
            ∙ relationships_for-add_relationship "" e r d.store st d.node.kind d.node.id s m,
      )
