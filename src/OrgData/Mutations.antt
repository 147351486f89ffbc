-- ===== src/OrgData/Mutations.antt =====
-- What the operations of the store in api/static/org-data.js tell the listeners, and what a failure
-- leaves.
use hufi_agents.Prelude.{
  ℕ, String, ◌≡◌, refl, sym, ◌∙◌, append_assoc, ◌++◌, [], ◌∷◌, inl, inr, List, Option, none, some,
  Bool-cases, if◌then◌else◌,
}
use hufi_agents.OrgData.Types.{Team, Project, Resource, Relationship, Room, State, Value}
use hufi_agents.OrgData.Store.{
  Reply, ok, err, Outcome, returned, thrown, Store, Edge, call_each, notify, post_json, create,
  create_team, create_graph_project, create_resource, create_room, push_relationship,
  push_and_notify, add_relationship, relationship_reply, remove_relationship, null_state, removed,
  with_id,
}

-- One call of each listener, the last one first.
abbrev pub told : List ℕ → Option State → List (ℕ × Option State)
told [] st = []
told (f ∷ fs) st = told fs st ++ (f, st) ∷ []

-- Every listener has been called once, in the order of subscription, with the new state.
abbrev pub Told : Store → Store → Type 0
Told s s' = (s'.listeners ≡ s.listeners) × (s'.calls ≡ told s.listeners s'.state ++ s.calls)

pub call_each-told :
    (fs : List ℕ) (st : Option State) (calls : List (ℕ × Option State))
    → call_each fs st calls ≡ told fs st ++ calls
call_each-told [] st calls = refl
call_each-told (f ∷ fs) st calls =
    call_each-told fs st ((f, st) ∷ calls) ∙ sym (append_assoc (told fs st) ((f, st) ∷ []) calls)

-- What an operation may do: finish and tell, or throw and leave the store as it was.
abbrev pub Settles {ℓ} : {A : Type ℓ} → Store → Store × Outcome A → Type 0
Settles s (s', returned a) = Told s s'
Settles s (s', thrown e) = s' ≡ s

push_and_notify-Settles {ℓ} :
    {A : Type ℓ} (push : A → State → State) (s : Store) (st : State) (o : Outcome A)
    → Settles s (push_and_notify push s st o)
unfolding notify
push_and_notify-Settles push s st (returned a) = (refl, call_each-told s.listeners _ s.calls)
push_and_notify-Settles push s st (thrown e) = refl

abbrev pub from_state {ℓ} :
    {A : Type ℓ} → (State → Store × Outcome A) → Store → Option State → Store × Outcome A
from_state k s none = (s, thrown null_state)
from_state k s (some st) = k st

from_state-Settles {ℓ} :
    {A : Type ℓ} (k : State → Store × Outcome A) (s : Store) (o : Option State)
    → ((st : State) → Settles s (k st))
    → Settles s (from_state k s o)
from_state-Settles k s none h = refl
from_state-Settles k s (some st) h = h st

create-Settles {ℓ} :
    {A : Type ℓ} (push : A → State → State) (mock_item : A) (reply : Reply A) (s : Store)
    → Settles s (create push mock_item reply s)
unfolding create
create-Settles push mock_item reply s =
    from_state-Settles
      (λ st. push_and_notify push s st (if st.mock then returned mock_item else post_json reply)) s
      s.state λ st. push_and_notify-Settles push s st _

-- The requests that change the organisation.
pub data Request : Type 0 where
  team : (mock_id name description : String) → Reply Team → Request
  project : (mock_id name description : String) → Option String → Reply Project → Request
  resource :
      ℕ
      → (mock_id name resource_type description : String) → List (String × Value)
      → Reply Resource
      → Request
  room : (mock_id room_type host_type host_id name : String) → Reply Room → Request
  add : (mock_id : String) → Edge → Reply Relationship → Request
  remove : ℕ → String → Reply (Unit {0}) → Request

abbrev pub drop_result {ℓ} : {A : Type ℓ} → Store × Outcome A → Store × Outcome (Unit {0})
drop_result (s, returned a) = (s, returned tt)
drop_result (s, thrown e) = (s, thrown e)

pub drop_result_store {ℓ} : {A : Type ℓ} (o : Store × Outcome A) → (drop_result o).0 ≡ o.0
drop_result_store (s, returned a) = refl
drop_result_store (s, thrown e) = refl

unfoldable pub perform : Request → Store → Store × Outcome (Unit {0})
perform (team i n d r) s = drop_result (create_team i n d r s)
perform (project i n d f r) s = drop_result (create_graph_project i n d f r s)
perform (resource t i n k d m r) s = drop_result (create_resource t i n k d m r s)
perform (room i k h j n r) s = drop_result (create_room i k h j n r s)
perform (add i e r) s = drop_result (add_relationship i e r s)
perform (remove t i r) s = remove_relationship t i r s

drop_result-Settles {ℓ} :
    {A : Type ℓ} (s : Store) (o : Store × Outcome A) → Settles s o → Settles s (drop_result o)
drop_result-Settles s (s', returned a) h = h
drop_result-Settles s (s', thrown e) h = h

pub remove-Settles :
    (now : ℕ) (id : String) (reply : Reply (Unit {0})) (s : Store)
    → Settles s (remove_relationship now id reply s)
unfolding remove_relationship notify
remove-Settles now id reply s =
    from_state-Settles
      (λ st.
        if st.mock
        then removed now id s st
        else elim (post_json reply) [ returned _ ↦ removed now id s st | thrown e ↦ (s, thrown e) ])
      s s.state
      λ st. elim (Bool-cases st.mock) [
        | inl m ↦ rw m (refl, call_each-told s.listeners _ s.calls)
        | inr m ↦ rw m (settled st reply)
      ]
  where
    settled :
        (st : State) (r : Reply (Unit {0}))
        → Settles {A = Unit {0}} s
            (elim (post_json r) [ returned _ ↦ removed now id s st | thrown e ↦ (s, thrown e) ])
    settled st (ok u) = (refl, call_each-told s.listeners _ s.calls)
    settled st (err m) = refl

pub add-Settles :
    (mock_id : String) (e : Edge) (reply : Reply Relationship) (s : Store)
    → Settles s (add_relationship mock_id e reply s)
unfolding add_relationship
add-Settles mock_id e reply s =
    from_state-Settles
      (λ st.
        push_and_notify push_relationship s st
          (if st.mock then returned (with_id mock_id e) else relationship_reply reply))
      s s.state λ st. push_and_notify-Settles push_relationship s st _

-- A request finishes, and the listeners are told; or it throws, and the store is what it was.
pub perform-Settles : (q : Request) (s : Store) → Settles s (perform q s)
unfolding perform create_team create_graph_project create_resource create_room
perform-Settles (team i n d r) s = drop_result-Settles s _ (create-Settles _ _ r s)
perform-Settles (project i n d f r) s = drop_result-Settles s _ (create-Settles _ _ r s)
perform-Settles (resource t i n k d m r) s = drop_result-Settles s _ (create-Settles _ _ r s)
perform-Settles (room i k h j n r) s = drop_result-Settles s _ (create-Settles _ _ r s)
perform-Settles (add i e r) s = drop_result-Settles s _ (add-Settles i e r s)
perform-Settles (remove t i r) s = remove-Settles t i r s
