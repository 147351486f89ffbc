-- ===== src/OrgData/Reachable.antt =====
-- The states that the store of api/static/org-data.js can reach. Its mock organisation is built by
-- `buildMockSnapshot`, which nothing calls.
use hufi_agents.Prelude.{
  ℕ, String, ◌≡◌, refl, ◌∙◌, false, List, [], ◌∷◌, Option, none, some, arith, if◌then◌else◌,
}
use hufi_agents.OrgData.Types.{Agent, State, OrgReply}
use hufi_agents.OrgData.Store.{
  Reply, ok, err, Outcome, returned, thrown, Store, initial, notify, subscribe, unsubscribe, load,
  loaded, is_mock, post_json, create, create_team, create_graph_project, create_resource,
  create_room, push_and_notify, push_relationship, add_relationship, with_id, relationship_reply,
  remove_relationship,
}
use hufi_agents.OrgData.Mutations.{
  Request, team, project, resource, room, add, remove, perform, from_state, drop_result_store,
}

pub data Event : Type 0 where
  loads : Reply (List Agent) → Reply OrgReply → Event
  asks : Request → Event
  listens leaves : ℕ → Event

pub after : Store → Event → Store
after s (loads agents org) = (load agents org s).0
after s (asks q) = (perform q s).0
after s (listens f) = subscribe f s
after s (leaves f) = unsubscribe f s

pub run_events : Store → List Event → Store
run_events s [] = s
run_events s (e ∷ es) = run_events (after s e) es

push_no_mock {ℓ} :
    {A : Type ℓ} (push : A → State → State) (s : Store) (st : State) (o : Outcome A)
    → ((a : A) → (push a st).mock ≡ st.mock)
    → st.mock ≡ false
    → is_mock s ≡ false
    → is_mock (push_and_notify push s st o).0 ≡ false
unfolding is_mock notify
push_no_mock push s st (returned a) k m h = k a ∙ m
push_no_mock push s st (thrown e) k m h = h

from_state_no_mock {ℓ} :
    {A : Type ℓ} (k : State → Store × Outcome A) (s : Store) (o : Option State)
    → s.state ≡ o
    → is_mock s ≡ false
    → ((st : State) → st.mock ≡ false → is_mock (k st).0 ≡ false)
    → is_mock (from_state k s o).0 ≡ false
from_state_no_mock k s none e h f = h
from_state_no_mock k s (some st) e h f = f st (unfold is_mock in rw e at h)

create_no_mock {ℓ} :
    {A : Type ℓ} (push : A → State → State) (mock_item : A) (reply : Reply A) (s : Store)
    → ((a : A) (st : State) → (push a st).mock ≡ st.mock)
    → is_mock s ≡ false
    → is_mock (create push mock_item reply s).0 ≡ false
unfolding create
create_no_mock push mock_item reply s k h =
    from_state_no_mock
      (λ st. push_and_notify push s st (if st.mock then returned mock_item else post_json reply)) s
      s.state refl h λ st m. push_no_mock push s st _ (λ a. k a st) m h

remove_no_mock :
    (now : ℕ) (id : String) (reply : Reply (Unit {0})) (s : Store)
    → is_mock s ≡ false
    → is_mock (remove_relationship now id reply s).0 ≡ false
unfolding remove_relationship notify is_mock
remove_no_mock now id (ok u) s h = ground arith
remove_no_mock now id (err m) s h = ground arith

perform_no_mock : (q : Request) (s : Store) → is_mock s ≡ false → is_mock (perform q s).0 ≡ false
unfolding perform create_team create_graph_project create_resource create_room add_relationship
perform_no_mock (team i n d r) s h = rw drop_result_store (create_no_mock _ _ r s (λ a st. refl) h)
perform_no_mock (project i n d f r) s h =
    rw drop_result_store (create_no_mock _ _ r s (λ a st. refl) h)
perform_no_mock (resource t i n k d m r) s h =
    rw drop_result_store (create_no_mock _ _ r s (λ a st. refl) h)
perform_no_mock (room i k g j n r) s h =
    rw drop_result_store (create_no_mock _ _ r s (λ a st. refl) h)
perform_no_mock (add i e r) s h = rw drop_result_store (
    from_state_no_mock
      (λ st.
        push_and_notify push_relationship s st
          (if st.mock then returned (with_id i e) else relationship_reply r))
      s s.state refl h λ st m. push_no_mock push_relationship s st _ (λ a. refl) m h)
perform_no_mock (remove t i r) s h = remove_no_mock t i r s h

load_no_mock :
    (agents : Reply (List Agent)) (org : Reply OrgReply) (s : Store)
    → is_mock (load agents org s).0 ≡ false
unfolding load loaded notify is_mock
load_no_mock agents (ok g) s = refl
load_no_mock agents (err m) s = refl

after_no_mock : (s : Store) (e : Event) → is_mock s ≡ false → is_mock (after s e) ≡ false
unfolding after subscribe unsubscribe
after_no_mock s (loads a o) h = load_no_mock a o s
after_no_mock s (asks q) h = perform_no_mock q s h
after_no_mock s (listens f) h = unfold is_mock in h
after_no_mock s (leaves f) h = unfold is_mock in h

-- Whatever the backend answers and whatever is asked, the organisation that is shown is never the
-- mock one.
pub never_mock :
    (es : List Event) (s : Store) → is_mock s ≡ false → is_mock (run_events s es) ≡ false
unfolding run_events
never_mock [] s h = h
never_mock (e ∷ es) s h = never_mock es (after s e) (after_no_mock s e h)

-- From the start of the page, the organisation that is shown is never the mock one, whatever the
-- backend answers and whatever is asked.
pub mock-run_events : (es : List Event) → is_mock (run_events initial es) ≡ false
mock-run_events es = never_mock es initial (unfold is_mock in refl)
