-- ===== src/Canvas/Question.antt =====
-- `openResourceConfirm` of api/static/org-canvas.js: the dialog that asks before an access to a
-- resource is granted, and the promise that tells its caller that it is done.
use hufi_agents.Prelude.{
  ℕ, String, Bool, true, false, List, [], ◌∷◌, ◌++◌, Option, none, some, if◌then◌else◌, get_elem?,
  remove_at,
}
use hufi_agents.Js.Text.{Text, units}
use hufi_agents.OrgData.Types.{Relationship}
use hufi_agents.OrgData.Store.{Reply, Outcome, returned, thrown, Store, Edge, add_relationship}
use hufi_agents.Canvas.Connect.{
  Item, Notice, success, Choice, confirm_edge, failure_text, joined_message,
}

-- The dialog: whether it is in the document, the text under its buttons, the value of its promise
-- once that is settled, and the relationships that were asked for and are not answered.
pub record Question : Type 0 where
  pub source : Item
  pub target : Item
  pub shown : Bool
  pub message : Text
  pub promise : Option Bool
  pub waiting : List Edge

unfoldable pub open_question : Item → Item → Question
open_question s t = record {
  source = s;
  target = t;
  shown = true;
  message = [];
  promise = none;
  waiting = [];
}

-- `resolve`: a promise that is settled keeps its value.
abbrev pub settle : Bool → Option Bool → Option Bool
settle b none = some b
settle b (some v) = some v

-- A click on one of the buttons, which can be clicked again while a request waits.
unfoldable pub choose : Choice → Question → Question
choose c q =
    if q.shown
    then elim (confirm_edge c q.source q.target) [
      | none ↦ record q { shown = false; promise = settle false q.promise }
      | some e ↦ record q { waiting = q.waiting ++ e ∷ [] }
    ]
    else q

-- Escape, or a click beside the dialog: only `close` of `attachModalA11y`.
unfoldable pub dismiss : Question → Question
dismiss q = record q { shown = false }

-- A question with what it shares with the page: the organisation and the notices, latest first.
pub record Scene : Type 0 where
  pub question : Question
  pub store : Store
  pub notices : List Notice

abbrev pub not_allowed : Text
not_allowed = units "Das darf Hufi ohne deine Zustimmung nicht tun."

abbrev pub granted : Scene → Question → Store × Outcome Relationship → Scene
granted c q (s, returned r) = record {
  question = record q { shown = false; promise = settle true q.promise };
  store = s;
  notices = record { tone = success; text = joined_message q.source q.target } ∷ c.notices;
}
granted c q (s, thrown e) = record {
  question = record q { message = failure_text e not_allowed; promise = settle false q.promise };
  store = s;
  notices = c.notices;
}

-- The backend answers one of the requests that wait.
unfoldable pub answer : ℕ → (mock_id : String) → Reply Relationship → Scene → Scene
answer i mock_id reply c = elim (get_elem? c.question.waiting i) [
  | none ↦ c
  | some e ↦
      granted c (record c.question { waiting = remove_at i c.question.waiting })
        (add_relationship mock_id e reply c.store)
]

pub data QuestionEvent : Type 0 where
  clicked : Choice → QuestionEvent
  dismissed : QuestionEvent
  answered : ℕ → (mock_id : String) → Reply Relationship → QuestionEvent

unfoldable pub after : QuestionEvent → Scene → Scene
after (clicked c) s = record s { question = choose c s.question }
after dismissed s = record s { question = dismiss s.question }
after (answered i mock_id reply) s = answer i mock_id reply s

unfoldable pub run : List QuestionEvent → Scene → Scene
run [] s = s
run (e ∷ es) s = run es (after e s)
