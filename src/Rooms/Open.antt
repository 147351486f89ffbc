-- ===== src/Rooms/Open.antt =====
-- `Hufi.rooms.open` of api/static/rooms.js, cut where it waits for the backend.
use hufi_agents.Prelude.{String, ◌||◌, List, ◌∷◌, none, some, ◌=ˢ◌, if◌then◌else◌}
use hufi_agents.OrgData.Types.{Agent, Room, State, OrgReply}
use hufi_agents.OrgData.Store.{Reply, returned, thrown, Outcome, Store, load, create_room}
use hufi_agents.Rooms.Header.{find_existing_room}
use hufi_agents.Rooms.Thread.{Rooms, open_panel}

-- The argument of `open`; a missing text is empty.
pub record Wanted : Type 0 where
  pub room_type : String
  pub host_type : String
  pub host_id : String
  pub name : String

-- The organisation, the panels with their messages, and the calls of `createRoom`, latest first.
pub record Opening : Type 0 where
  pub store : Store
  pub rooms : Rooms
  pub asked : List Wanted

-- `ensureOrgState`: what is loaded, or what the two requests of `load` bring.
unfoldable pub ensure_org_state : Reply (List Agent) → Reply OrgReply → Store → Store × State
unfolding load
ensure_org_state agents org s = elim s.state [ some st ↦ (s, st) | none ↦ load agents org s ]

-- With the state at hand: a room that exists is shown, for another one the backend is asked.
unfoldable pub find_or_ask : Wanted → State → Opening → Opening
unfolding find_existing_room
find_or_ask w st o = elim (find_existing_room st w.room_type w.host_id) [
  | some r ↦ record o { rooms = open_panel r o.rooms }
  | none ↦ record o { asked = w ∷ o.asked }
]

-- `open` up to its request.
unfoldable pub begin_open : Reply (List Agent) → Reply OrgReply → Wanted → Opening → Opening
unfolding ensure_org_state find_or_ask
begin_open agents org w o =
    if w.room_type =ˢ "" || w.host_id =ˢ ""
    then o
    else let (s, st) = ensure_org_state agents org o.store in
      find_or_ask w st (record o { store = s })

-- `name || TYPE_LABEL[room_type] || 'Chat'`
abbrev pub room_name : Wanted → String
room_name w =
    if w.name =ˢ ""
    then (if w.room_type =ˢ "team"
        then "Teamchat"
        else if w.room_type =ˢ "project"
        then "Projektchat"
        else if w.room_type =ˢ "company"
        then "Firmenchat"
        else "Chat")
    else w.name

abbrev pub show_created : Store × Outcome Room → Opening → Opening
show_created (s, returned r) o = record o { store = s; rooms = open_panel r o.rooms }
show_created (s, thrown e) o = record o { store = s }

-- What follows the answer of a call of `createRoom`: the room is shown, or an error is logged.
unfoldable pub end_open : Wanted → (mock_id : String) → Reply Room → Opening → Opening
unfolding create_room
end_open w mock_id reply o =
    show_created (create_room mock_id w.room_type w.host_type w.host_id (room_name w) reply o.store)
      o
