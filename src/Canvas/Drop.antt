-- ===== src/Canvas/Drop.antt =====
-- `handleDrop` of api/static/org-canvas.js: what lies under a node that was dragged, what follows,
-- and when the drop ends. The positions are those of the graph library; their numbers are
-- an argument, with the operations that the code uses.
use hufi_agents.Prelude.{
  ℕ, ◌+◌, String, Bool, true, not, ◌&&◌, List, [], ◌∷◌, Option, none, some, ◌=ˢ◌, if◌then◌else◌,
  find, is_some,
}
use hufi_agents.Js.Text.{Text}
use hufi_agents.OrgData.Types.{Relationship}
use hufi_agents.OrgData.Store.{Reply, Store, Edge, add_relationship}
use hufi_agents.Canvas.Connect.{
  Item, Notice, info, DropAction, connect, confirm, say, resolve_drop, live_relationships,
  same_edge, already_connected, report,
}
use hufi_agents.Canvas.Question.{Question, open_question, Scene, QuestionEvent, after}

-- The platform's numbers: the tests `<=` and `<`, the arithmetic, and `Infinity`.
pub record Numbers : Type 1 where
  pub Number : Type 0
  pub at_most : Number → Number → Bool
  pub less : Number → Number → Bool
  pub plus : Number → Number → Number
  pub minus : Number → Number → Number
  pub times : Number → Number → Number
  pub half : Number → Number
  pub infinity : Number

module _ (n : Numbers) where
  -- What the graph library tells of a node: its identifier, its data and its bounding box.
  pub record Placed : Type 0 where
    pub node_id : String
    pub item : Item
    pub x1 : n.Number
    pub x2 : n.Number
    pub y1 : n.Number
    pub y2 : n.Number

  abbrev pub area : Placed → n.Number
  area p = n.times (n.minus p.x2 p.x1) (n.minus p.y2 p.y1)

  abbrev pub contains : (x y : n.Number) → Placed → Bool
  contains x y p = n.at_most p.x1 x && n.at_most x p.x2 && n.at_most p.y1 y && n.at_most y p.y2

  -- `bestArea`, at first `Infinity`.
  abbrev pub best_area : Option Placed → n.Number
  best_area none = n.infinity
  best_area (some b) = area b

  -- `area < bestArea`
  abbrev pub improves : Placed → Option Placed → Bool
  improves p best = n.less (area p) (best_area best)

  -- The node `p` is another one, and the point lies in its box.
  abbrev pub is_under : (dragged : String) (x y : n.Number) → Placed → Bool
  is_under dragged x y p = not (p.node_id =ˢ dragged) && contains x y p

  unfoldable pub best_under :
      (dragged : String) (x y : n.Number) → Option Placed → List Placed → Option Placed
  best_under dragged x y best [] = best
  best_under dragged x y best (p ∷ ps) =
      best_under dragged x y (if is_under dragged x y p && improves p best then some p else best) ps

  unfoldable pub target_of : Placed → List Placed → Option Placed
  target_of p nodes =
      best_under p.node_id (n.half (n.plus p.x1 p.x2)) (n.half (n.plus p.y1 p.y2)) none nodes

-- One drop: the request or the question that it waits for, what it shares with the page, and how
-- often it has ended with its own call of `renderGraphView`. That the canvas also draws when it is
-- told of a change of the organisation is in the calls of the store.
pub record Drop : Type 0 where
  pub request : Option (Edge × Text)
  pub question : Option Question
  pub store : Store
  pub notices : List Notice
  pub finished : ℕ

-- `createOrNotify` until it asks the backend.
abbrev pub ask_backend : Edge → Text → Drop → Drop
ask_backend e message d =
    if is_some (find (same_edge e) (live_relationships d.store))
    then record d { notices = already_connected ∷ d.notices; finished = d.finished + 1 }
    else record d { request = some (e, message) }

abbrev pub follow : DropAction → Drop → Drop
follow (connect r a i b j message) d =
    ask_backend
      (record {
        relationship_type = r;
        source_type = a;
        source_id = i;
        target_type = b;
        target_id = j;
        primary = true;
      })
      message d
follow (confirm s t) d = record d { question = some (open_question s t) }
follow (say message) d = record d {
  notices = record { tone = info; text = message } ∷ d.notices;
  finished = d.finished + 1;
}

unfoldable pub handle_drop : Item → Option Item → Drop → Drop
handle_drop source none d = record d { finished = d.finished + 1 }
handle_drop source (some target) d = follow (resolve_drop source target) d

abbrev pub reported : Drop → Store × Notice → Drop
reported d (s, m) = record d {
  request = none;
  store = s;
  notices = m ∷ d.notices;
  finished = d.finished + 1;
}

unfoldable pub answer_request : (mock_id : String) → Reply Relationship → Drop → Drop
answer_request mock_id reply d = elim d.request [
  | none ↦ d
  | some (e, message) ↦ reported d (report message (add_relationship mock_id e reply d.store))
]

-- The drop ends when the promise of its question is settled.
abbrev pub ends : Question → Question → ℕ
ends before now = if is_some before.promise then 0 else if is_some now.promise then 1 else 0

abbrev with_scene : Drop → Question → Scene → Drop
with_scene d before c = record d {
  question = some c.question;
  store = c.store;
  notices = c.notices;
  finished = d.finished + ends before c.question;
}

unfoldable pub question_event : QuestionEvent → Drop → Drop
question_event e d = elim d.question [
  | none ↦ d
  | some q ↦
      with_scene d q (after e (record { question = q; store = d.store; notices = d.notices }))
]

pub data DropEvent : Type 0 where
  replied : (mock_id : String) → Reply Relationship → DropEvent
  asked : QuestionEvent → DropEvent

unfoldable pub drop_after : DropEvent → Drop → Drop
drop_after (replied mock_id reply) d = answer_request mock_id reply d
drop_after (asked e) d = question_event e d

unfoldable pub drop_run : List DropEvent → Drop → Drop
drop_run [] d = d
drop_run (e ∷ es) d = drop_run es (drop_after e d)

unfoldable pub page : Store → Drop
page s = record { request = none; question = none; store = s; notices = []; finished = 0 }
