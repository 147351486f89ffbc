-- ===== src/Canvas/Redrawn.antt =====
-- When a drop ends, with its own call of `renderGraphView`: the promises of `openResourceConfirm`,
-- `createOrNotify` and `handleDrop` in api/static/org-canvas.js.
use hufi_agents.Prelude.{
  ℕ, ◌+◌, ◌≡◌, refl, ap, String, Bool, true, false, List, [], ◌∷◌, Option, none, some,
  if◌then◌else◌, arith, is_some, get_elem?,
}
use hufi_agents.OrgData.Types.{Relationship}
use hufi_agents.OrgData.Store.{Reply, Store}
use hufi_agents.Canvas.Connect.{Item, confirm, resolve_drop, Choice}
use hufi_agents.Canvas.Question.{
  Question, open_question, choose, dismiss, Scene, answer, QuestionEvent, clicked, dismissed,
  answered, after,
}
use hufi_agents.Canvas.Drop.{
  Drop, handle_drop, follow, answer_request, question_event, DropEvent, replied, asked, drop_after,
  drop_run, page,
}

-- A question whose promise is not settled.
abbrev unsettled : Option Bool → ℕ
unsettled none = 1
unsettled (some b) = 0

abbrev unanswered : Option Question → ℕ
unanswered none = 0
unanswered (some q) = unsettled q.promise

-- What a drop waits for: the answer to a request, or the promise of a question.
abbrev pub awaited : Drop → ℕ
awaited d = (if is_some d.request then 1 else 0) + unanswered d.question

-- A promise that is settled stays so.
abbrev StaysSettled : Option Bool → Option Bool → Type 0
StaysSettled b n = is_some b ≡ true → is_some n ≡ true

-- The drop has ended, or exactly one thing is waited for.
abbrev IsDue : Drop → Type 0
IsDue d = d.finished + awaited d ≡ 1

-- A question that is closed with nothing waiting, and was not answered; the organisation is what it
-- was.
abbrev IsLeft : Store → Drop → Type 0
IsLeft st d =
    (q : Question) × (d.question ≡ some q)
    × (q.shown ≡ false)
    × (q.waiting ≡ [])
    × (q.promise ≡ none)
    × (d.finished ≡ 0)
    × (d.request ≡ none)
    × (d.store ≡ st)

if_false {ℓ} : {A : Type ℓ} (b : Bool) (x y : A) → b ≡ false → (if b then x else y) ≡ y
if_false true x y h = absurd (ground (arith, h))
if_false false x y h = refl

choose_hidden : (c : Choice) (q : Question) → q.shown ≡ false → choose c q ≡ q
unfolding choose
choose_hidden c q h = if_false q.shown _ q h

if_nothing {ℓ κ} :
    {A : Type ℓ} {B : Type κ} (o : Option A) (b : B) (f : A → B)
    → o ≡ none
    → elim o [ none ↦ b | some a ↦ f a ] ≡ b
if_nothing none b f h = refl
if_nothing (some a) b f h = absurd (ground (arith, h))

answer_nothing :
    (i : ℕ) (id : String) (r : Reply Relationship) (c : Scene)
    → c.question.waiting ≡ []
    → answer i id r c ≡ c
unfolding answer
answer_nothing i id r c h =
    if_nothing (get_elem? c.question.waiting i) c _ (ap (λ l. get_elem? l i) h)

question_event-IsLeft :
    (st : Store) (e : QuestionEvent) (d : Drop) → IsLeft st d → IsLeft st (question_event e d)
unfolding question_event after dismiss
question_event-IsLeft st (clicked c) d (q, h, o, w, p, z, r, k) =
    rw (h, question_event, choose_hidden c q o) (q, refl, o, w, p, rw (z, p) refl, r, k)
question_event-IsLeft st dismissed d (q, h, o, w, p, z, r, k) =
    rw (h, question_event) (dismiss q, refl, refl, w, p, rw (z, p) refl, r, k)
question_event-IsLeft st (answered i id a) d (q, h, o, w, p, z, r, k) =
    let c : Scene = record { question = q; store = d.store; notices = d.notices } in
    rw (h, question_event, answer_nothing i id a c w) (q, refl, o, w, p, rw (z, p) refl, r, k)

drop_run-IsLeft :
    (st : Store) (es : List DropEvent) (d : Drop) → IsLeft st d → IsLeft st (drop_run es d)
unfolding drop_run drop_after answer_request
drop_run-IsLeft st [] d l = l
drop_run-IsLeft st (replied id a ∷ es) d (q, h, o, w, p, z, r, k) =
    drop_run-IsLeft st es _ (rw (r, answer_request) (q, h, o, w, p, z, r, k))
drop_run-IsLeft st (asked e ∷ es) d l = drop_run-IsLeft st es _ (question_event-IsLeft st e d l)

dismissed-IsLeft :
    (s t : Item) (st : Store)
    → IsLeft st (question_event dismissed (follow (confirm s t) (page st)))
unfolding question_event after dismiss open_question page
dismissed-IsLeft s t st = (dismiss (open_question s t), refl, refl, refl, refl, refl, refl, refl)

-- When the question that follows a drop on a resource is closed with Escape or beside it before a
-- button is clicked, then whatever follows, the drop never ends with its own call of
-- `renderGraphView`, and the organisation with the calls of its listeners stays as it was, so that
-- this drop gives the canvas no other reason to draw either.
pub dismissed_never_ends :
    (s t : Item) (st : Store) (es : List DropEvent)
    → resolve_drop s t ≡ confirm s t
    → ((drop_run (asked dismissed ∷ es) (handle_drop s (some t) (page st))).finished ≡ 0)
      × ((drop_run (asked dismissed ∷ es) (handle_drop s (some t) (page st))).store ≡ st)
unfolding drop_run drop_after handle_drop
dismissed_never_ends s t st es h =
    rw h
      (let (q, _, _, _, _, z, _, k) = drop_run-IsLeft st es _ (dismissed-IsLeft s t st) in (z, k))
