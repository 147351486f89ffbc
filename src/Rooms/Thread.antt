-- ===== src/Rooms/Thread.antt =====
-- The panel of a room: `messagesByRoom`, `renderRoom` and `send` of api/static/rooms.js.
use hufi_agents.Prelude.{
  ℕ, String, Bool, true, false, List, [], ◌∷◌, ◌++◌, Option, none, some, ◌=ˢ◌, if◌then◌else◌,
}
use hufi_agents.Js.Text.{Text, trim}
use hufi_agents.OrgData.Types.{Room}

pub record Message : Type 0 where
  pub text : Text
  pub ts : ℕ

-- `messagesByRoom`
abbrev pub MessageStore : Type 0
MessageStore = List (String × List Message)

-- `messagesByRoom.get(id) || []`
abbrev pub messages_of : String → MessageStore → List Message
messages_of id [] = []
messages_of id ((k, l) ∷ m) = if k =ˢ id then l else messages_of id m

-- `messagesByRoom.set(id, list)`
abbrev pub set_messages : String → List Message → MessageStore → MessageStore
set_messages id list [] = (id, list) ∷ []
set_messages id list ((k, l) ∷ m) =
    if k =ˢ id then (k, list) ∷ m else (k, l) ∷ set_messages id list m

-- What the thread shows: the hint that nothing was written, and the bubbles.
pub record Panel : Type 0 where
  pub room_id : String
  pub has_hint : Bool
  pub bubbles : List Message
  pub input : Text

pub record Rooms : Type 0 where
  pub messages : MessageStore
  pub panel : Option Panel

abbrev pub is_empty : List Message → Bool
is_empty [] = true
is_empty (_ ∷ _) = false

-- `renderRoom`: the thread is drawn from the stored messages.
unfoldable pub render_room : Room → MessageStore → Panel
render_room room m =
    let list = messages_of room.id m in
    record { room_id = room.id; has_hint = is_empty list; bubbles = list; input = [] }

-- `openOverlay`: an open panel is closed first.
unfoldable pub open_panel : Room → Rooms → Rooms
unfolding render_room
open_panel room s = record s { panel = some (render_room room s.messages) }

-- `closeOverlay`
unfoldable pub close_panel : Rooms → Rooms
close_panel s = record s { panel = none }

abbrev pub type_into : Text → Option Panel → Option Panel
type_into t none = none
type_into t (some p) = some (record p { input = t })

unfoldable pub type_text : Text → Rooms → Rooms
type_text t s = record s { panel = type_into t s.panel }

-- The rest of `send`, once the text is known to be not blank.
abbrev pub deliver : ℕ → Text → Panel → MessageStore → Rooms
deliver now text p m =
    let message : Message = record { text = text; ts = now } in
    record {
      messages = set_messages p.room_id (messages_of p.room_id m ++ message ∷ []) m;
      panel = some (record p { has_hint = false; bubbles = p.bubbles ++ message ∷ []; input = [] });
    }

unfoldable pub send : ℕ → Rooms → Rooms
send now s = elim s.panel [
  | none ↦ s
  | some p ↦ elim (trim p.input) [ [] ↦ s | c ∷ t ↦ deliver now (c ∷ t) p s.messages ]
]

pub data Event : Type 0 where
  opens : Room → Event
  closes : Event
  types : Text → Event
  sends : (now : ℕ) → Event

unfoldable pub step : Event → Rooms → Rooms
unfolding open_panel close_panel type_text send
step (opens r) s = open_panel r s
step closes s = close_panel s
step (types t) s = type_text t s
step (sends now) s = send now s

abbrev pub initial : Rooms
initial = record { messages = []; panel = none }

-- The state after some events, the first one first.
unfoldable pub run : List Event → Rooms → Rooms
run [] s = s
run (e ∷ es) s = run es (step e s)
