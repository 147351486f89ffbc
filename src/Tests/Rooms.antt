-- ===== src/Tests/Rooms.antt =====
-- Examples of the chat rooms: api/static/rooms.js.
use hufi_agents.Prelude.{String, ◌≡◌, refl, false, List, [], ◌∷◌, none, some}
use hufi_agents.Js.Text.{units, trim, trim_start, trim_end, is_space}
use hufi_agents.OrgData.Types.{Room, State}
use hufi_agents.OrgData.Store.{ok, err}
use hufi_agents.Rooms.Header.{find_existing_room}
use hufi_agents.Rooms.Thread.{messages_of, Event, opens, closes, types, sends, initial, step, run}
use hufi_agents.Rooms.Log.{log, Drawn, run_lem}
use hufi_agents.Rooms.Open.{Wanted, Opening, begin_open, end_open}
use hufi_agents.Rooms.Twice.{rooms_for, open_twice}

abbrev team_room : Room
team_room = record {
  id = "room-1";
  room_type = "team";
  host_type = "team";
  host_id = "team-1";
  name = "Teamchat";
}

abbrev company_room : Room
company_room = record {
  id = "room-2";
  room_type = "company";
  host_type = "company";
  host_id = "hufi";
  name = "Firmenchat";
}

abbrev talk : List Event
talk =
    opens team_room
    ∷ types (units " Hallo ")
    ∷ sends 5
    ∷ sends 6
    ∷ opens company_room
    ∷ types (units "An alle")
    ∷ sends 7
    ∷ closes
    ∷ opens team_room
    ∷ []

first_room :
    messages_of "room-1" (run talk initial).messages ≡ record { text = units "Hallo"; ts = 5 } ∷ []
unfolding run step trim trim_start trim_end is_space
first_room = refl

run_lem_example :
    ((id : String) → messages_of id (run talk initial).messages ≡ log id none talk)
    × Drawn (run talk initial).messages (run talk initial).panel
run_lem_example = run_lem talk

abbrev no_rooms : State
no_rooms = record {
  agents = [];
  org_units = [];
  teams = [];
  graph_projects = [];
  resources = [];
  relationships = [];
  rooms = company_room ∷ [];
  mock = false;
  unavailable = false;
}

abbrev wanted : Wanted
wanted = record { room_type = "team"; host_type = "team"; host_id = "team-1"; name = "Teamchat" }

abbrev before : Opening
before = record {
  store = record { state = some no_rooms; listeners = []; calls = [] };
  rooms = initial;
  asked = [];
}

abbrev other_room : Room
other_room = record team_room { id = "room-3" }

absent : find_existing_room no_rooms "team" "team-1" ≡ none
unfolding find_existing_room
absent = refl

abbrev once : Opening
once = begin_open (ok []) (err (units "offline")) wanted before

open_twice_example :
    rooms_for wanted
      (end_open wanted "" (ok other_room) (
        end_open wanted ""
          (ok team_room)
          (begin_open (ok []) (err (units "offline")) wanted once))).store.state
    ≡ team_room ∷ other_room ∷ []
open_twice_example =
    open_twice (ok []) (err (units "offline")) wanted before no_rooms refl refl refl absent "" ""
      team_room other_room refl refl
