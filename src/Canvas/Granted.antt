-- ===== src/Canvas/Granted.antt =====
-- What a drop on a resource can lead to: `resolveDrop`, `openResourceConfirm` and `handleDrop` of
-- api/static/org-canvas.js together.
use hufi_agents.Prelude.{
  ◌≡◌, refl, ◌⊎◌, inl, inr, Bool, true, false, List, [], ◌∷◌, Option, none, some, Option-cases,
  Bool-cases, ◌=ˢ◌, arith, All,
}
use hufi_agents.OrgData.Store.{Store}
use hufi_agents.Canvas.Connect.{
  Item, confirm, say, resolve_drop, responsible, use_only, cancel, confirm_edge,
  unsupported_message,
}
use hufi_agents.Canvas.Question.{
  Question, open_question, choose, dismiss, Scene, answer, QuestionEvent, clicked, dismissed,
  answered, after,
}
use hufi_agents.Canvas.Drop.{
  Drop, handle_drop, answer_request, question_event, DropEvent, replied, asked, drop_after,
  drop_run, page,
}

-- A click on a button that grants an access.
abbrev pub grants : DropEvent → Bool
grants (asked (clicked responsible)) = true
grants (asked (clicked use_only)) = true
grants _ = false

-- What can be dropped on a resource asks first; all else is only told that it cannot.
resource_drop :
    (s t : Item)
    → t.kind ≡ "resource"
    → (resolve_drop s t ≡ confirm s t) ⊎ (resolve_drop s t ≡ say unsupported_message)
unfolding resolve_drop
resource_drop s t h = elim (Bool-cases (s.kind =ˢ "agent")) [
  | inl a ↦ rw (h, a) (inl refl)
  | inr a ↦ elim (Bool-cases (s.kind =ˢ "team")) [
    | inl b ↦ rw (h, a, b) (inl refl)
    | inr b ↦ rw (h, a, b) (inr refl)
  ]
]

abbrev NothingWaits : Option Question → Type 0
NothingWaits none = Unit
NothingWaits (some q) = q.waiting ≡ []

-- No request has been made, and the organisation is what it was.
abbrev Untouched : Store → Drop → Type 0
Untouched st d = (d.store ≡ st) × (d.request ≡ none) × NothingWaits d.question

handle_drop-Untouched :
    (s t : Item) (st : Store)
    → t.kind ≡ "resource"
    → Untouched st (handle_drop s (some t) (page st))
unfolding handle_drop page open_question
handle_drop-Untouched s t st h = elim (resource_drop s t h) [
  | inl e ↦ rw e (refl, refl, refl)
  | inr e ↦ rw e (refl, refl, tt)
]

-- The same for one question, when no access is granted.
abbrev Kept : Store → Scene → Type 0
Kept st c = (c.store ≡ st) × (c.question.waiting ≡ [])

after-Kept :
    (st : Store) (e : QuestionEvent) (c : Scene)
    → grants (asked e) ≡ false
    → Kept st c
    → Kept st (after e c)
unfolding after choose dismiss answer confirm_edge
after-Kept st (clicked responsible) c g k = absurd (ground (arith, g))
after-Kept st (clicked use_only) c g k = absurd (ground (arith, g))
after-Kept st (clicked cancel) c g k = elim (Bool-cases c.question.shown) [
  | inl t ↦ rw t k
  | inr f ↦ rw f k
]
after-Kept st dismissed c g k = k
after-Kept st (answered i id r) c g k = rw k.1 (k.0, refl)

question_event-Untouched :
    (st : Store) (e : QuestionEvent) (d : Drop)
    → grants (asked e) ≡ false
    → Untouched st d
    → Untouched st (question_event e d)
unfolding question_event
question_event-Untouched st e d g (s, r, w) = elim (Option-cases d.question) [
  | inl n ↦ rw (n, question_event) (s, r, w)
  | inr (q, h) ↦
      let k =
        after-Kept st e (record { question = q; store = d.store; notices = d.notices }) g
          (s, rw h at w) in
      rw (h, question_event) (k.0, r, k.1)
]

drop_run-Untouched :
    (st : Store) (es : List DropEvent) (d : Drop)
    → All (λ e. grants e ≡ false) es
    → Untouched st d
    → Untouched st (drop_run es d)
unfolding drop_run drop_after answer_request
drop_run-Untouched st [] d g u = u
drop_run-Untouched st (replied id r ∷ es) d g (s, q, w) =
    drop_run-Untouched st es _ g.1 (rw q (s, refl, w))
drop_run-Untouched st (asked e ∷ es) d g u =
    drop_run-Untouched st es _ g.1 (question_event-Untouched st e d g.0 u)

-- Whatever is dropped on a resource, and whatever the user and the backend do then, the
-- organisation stays as it was unless the user clicks on one of the two buttons that grant an
-- access.
pub resource_drop_asks :
    (s t : Item) (st : Store) (es : List DropEvent)
    → t.kind ≡ "resource"
    → All (λ e. grants e ≡ false) es
    → (drop_run es (handle_drop s (some t) (page st))).store ≡ st
resource_drop_asks s t st es h g = (drop_run-Untouched st es _ g (handle_drop-Untouched s t st h)).0
