-- ===== src/Rooms/Twice.antt =====
-- Opening a room twice in api/static/rooms.js: after the backend has answered, and before.
use hufi_agents.Prelude.{
  String, ◌≡◌, refl, Bool, true, false, ◌&&◌, ◌||◌, List, [], ◌∷◌, ◌++◌, Option, none, some, ◌=ˢ◌,
  find, select, select-append, Bool-cases, inl, inr, ◌∙◌, arith,
}
use hufi_agents.OrgData.Types.{Agent, Room, State, OrgReply}
use hufi_agents.OrgData.Store.{Reply, ok, create_room, create, post_json, notify}
use hufi_agents.Rooms.Header.{find_existing_room}
use hufi_agents.Rooms.Thread.{render_room, open_panel}
use hufi_agents.Rooms.Open.{Wanted, Opening, ensure_org_state, find_or_ask, begin_open, end_open}

abbrev pub is_for : Wanted → Room → Bool
is_for w r = r.room_type =ˢ w.room_type && r.host_id =ˢ w.host_id

abbrev with_room : Room → State → State
with_room r st = record st { rooms = st.rooms ++ r ∷ [] }

-- What is left of an accepted call of `createRoom`.
abbrev accepted : Room → State → Opening → Opening
accepted r st o = record {
  store = notify (record o.store { state = some (with_room r st) });
  rooms = open_panel r o.rooms;
  asked = o.asked;
}

accepted_state :
    (r : Room) (st : State) (o : Opening) → (accepted r st o).store.state ≡ some (with_room r st)
unfolding notify
accepted_state r st o = refl

end_open_ok :
    (w : Wanted) (id : String) (r : Room) (o : Opening) (st : State)
    → o.store.state ≡ some st
    → st.mock ≡ false
    → end_open w id (ok r) o ≡ accepted r st o
unfolding end_open create_room create post_json
end_open_ok w id r o st h m = ground arith

begin_open_loaded :
    (agents : Reply (List Agent)) (org : Reply OrgReply) (w : Wanted) (o : Opening) (st : State)
    → (w.room_type =ˢ "" || w.host_id =ˢ "") ≡ false
    → o.store.state ≡ some st
    → begin_open agents org w o ≡ find_or_ask w st o
unfolding begin_open ensure_org_state
begin_open_loaded agents org w o st n h = rw (n, h) refl

find-append :
    (p : Room → Bool) (l : List Room) (r : Room)
    → find p l ≡ none
    → p r ≡ true
    → find p (l ++ r ∷ []) ≡ some r
find-append p [] r h k = rw k
find-append p (x ∷ l) r h k = elim (Bool-cases (p x)) [
  | inl e ↦ cc
  | inr e ↦ rw e (find-append p l r (rw e at h) k)
]

select_absent : (p : Room → Bool) (l : List Room) → find p l ≡ none → select p l ≡ []
select_absent p [] h = refl
select_absent p (x ∷ l) h = elim (Bool-cases (p x)) [
  | inl e ↦ cc
  | inr e ↦ rw e (select_absent p l (rw e at h))
]

selected :
    (p : Room → Bool) (l : List Room) (r r' : Room)
    → find p l ≡ none
    → p r ≡ true
    → p r' ≡ true
    → select p ((l ++ r ∷ []) ++ r' ∷ []) ≡ r ∷ r' ∷ []
selected p l r r' h k k' =
    rw
      (
        select-append p (l ++ r ∷ []) (r' ∷ []),
        select-append p l (r ∷ []),
        select_absent p l h,
        k,
        k',
      )
      refl

ask_lem :
    (w : Wanted) (st : State) (o : Opening)
    → find_existing_room st w.room_type w.host_id ≡ none
    → find_or_ask w st o ≡ record o { asked = w ∷ o.asked }
unfolding find_or_ask
ask_lem w st o h = rw (h, find_or_ask) refl

show_lem :
    (w : Wanted) (st : State) (o : Opening) (r : Room)
    → find_existing_room st w.room_type w.host_id ≡ some r
    → find_or_ask w st o ≡ record o { rooms = open_panel r o.rooms }
unfolding find_or_ask
show_lem w st o r h = rw (h, find_or_ask) refl

found_again :
    (w : Wanted) (st : State) (r : Room)
    → find_existing_room st w.room_type w.host_id ≡ none
    → is_for w r ≡ true
    → find_existing_room (with_room r st) w.room_type w.host_id ≡ some r
unfolding find_existing_room
found_again w st r h k = find-append (is_for w) st.rooms r h k

-- All rooms of the type and host that is asked for.
abbrev pub rooms_for : Wanted → Option State → List Room
rooms_for w none = []
rooms_for w (some st) = select (is_for w) st.rooms

module _ (agents : Reply (List Agent)) (org : Reply OrgReply) (w : Wanted) (o : Opening)
    (st : State) (named : (w.room_type =ˢ "" || w.host_id =ˢ "") ≡ false)
    (loaded : o.store.state ≡ some st) (real : st.mock ≡ false)
    (absent : find_existing_room st w.room_type w.host_id ≡ none) where
  abbrev once : Opening
  once = record o { asked = w ∷ o.asked }

  begin_once : begin_open agents org w o ≡ once
  begin_once = begin_open_loaded agents org w o st named loaded ∙ ask_lem w st o absent

  answered_once :
      (id : String) (r : Room)
      → end_open w id (ok r) (begin_open agents org w o) ≡ accepted r st once
  answered_once id r = rw begin_once (end_open_ok w id r once st loaded real)

  shown_again :
      (r : Room)
      → is_for w r ≡ true
      → begin_open agents org w (accepted r st once)
        ≡ record (accepted r st once) { rooms = open_panel r (open_panel r o.rooms) }
  shown_again r k =
      begin_open_loaded agents org w (accepted r st once) (with_room r st) named
        (accepted_state r st once)
      ∙ show_lem w (with_room r st) (accepted r st once) r (found_again w st r absent k)

  twice : begin_open agents org w (begin_open agents org w o) ≡ record o { asked = w ∷ w ∷ o.asked }
  twice =
      rw begin_once (begin_open_loaded agents org w once st named loaded ∙ ask_lem w st once absent)

  answered_twice :
      (id id' : String) (r r' : Room)
      → (end_open w id'
          (ok r')
          (end_open w id (ok r) (begin_open agents org w (begin_open agents org w o)))).store.state
        ≡ some (with_room r' (with_room r st))
  unfolding notify
  answered_twice id id' r r' =
      rw (twice, end_open_ok w id r (record o { asked = w ∷ w ∷ o.asked }) st loaded real)
        (rw
          (end_open_ok w id' r' (accepted r st (record o { asked = w ∷ w ∷ o.asked }))
            (with_room r st) (accepted_state r st (record o { asked = w ∷ w ∷ o.asked })) real)
          refl)

  -- Once the backend has answered with the room that was asked for, the room is shown, and opening
  -- it again asks for nothing and shows the same room with its messages.
  pub open_again :
      (id : String) (r : Room)
      → is_for w r ≡ true
      → ((end_open w id (ok r) (begin_open agents org w o)).rooms ≡ open_panel r o.rooms)
        × ((begin_open agents org w (end_open w id (ok r) (begin_open agents org w o))).rooms
            ≡ open_panel r o.rooms)
        × ((begin_open agents org w (end_open w id (ok r) (begin_open agents org w o))).asked
            ≡ w ∷ o.asked)
  unfolding open_panel render_room
  open_again id r k = rw (answered_once id r, shown_again r k) (refl, refl, refl)

  -- Opening a room twice before the backend has answered makes two rooms of one type and host.
  pub open_twice :
      (id id' : String) (r r' : Room)
      → is_for w r ≡ true
      → is_for w r' ≡ true
      → rooms_for w
          (end_open w id' (ok r') (
            end_open w id (ok r) (begin_open agents org w (begin_open agents org w o)))).store.state
        ≡ r ∷ r' ∷ []
  unfolding find_existing_room
  open_twice id id' r r' k k' =
      rw (answered_twice id id' r r') (selected (is_for w) st.rooms r r' absent k k')
