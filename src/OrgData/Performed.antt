-- ===== src/OrgData/Performed.antt =====
-- What each operation of api/static/org-data.js that changes the organisation does to it, and to
-- whom it is told.
use hufi_agents.Prelude.{
  ℕ, String, ◌≡◌, refl, sym, ap, inl, inr, Bool, true, false, List, [], ◌∷◌, Option, none, some,
  ◌=ˢ◌, if◌then◌else◌, arith,
}
use hufi_agents.OrgData.Types.{Relationship, State}
use hufi_agents.OrgData.Store.{
  Reply, ok, err, Outcome, returned, thrown, Store, notify, post_json, create, create_team,
  create_graph_project, create_resource, create_room, push_relationship, push_and_notify,
  add_relationship, relationship_reply, mark_removed, remove_relationship, null_state, removed,
}
use hufi_agents.OrgData.Mutations.{
  Request, team, project, resource, room, add, remove, drop_result, perform, Told, call_each-told,
}
use hufi_agents.OrgData.Made.{Comes, Removes, Made, Performed}

-- The same for an operation that pushes an item of its own.
abbrev Pushed :
    {A : Type 0} → (A → State → State) → (State → A → Type 0) → Store → Store × Outcome A → Type 0
Pushed push P s (s', returned a) =
    (st : State) × (s.state ≡ some st) × (s'.state ≡ some (push a st)) × P st a × Told s s'
Pushed push P s (s', thrown e) = s' ≡ s

pushed :
    {A : Type 0} (push : A → State → State) (P : State → A → Type 0) (s : Store) (st : State)
    → s.state ≡ some st
    → (o : Outcome A) → ((a : A) → o ≡ returned a → P st a)
    → Pushed push P s (push_and_notify push s st o)
unfolding notify
pushed push P s st h (returned a) f =
    (st, h, refl, f a refl, (refl, call_each-told s.listeners _ s.calls))
pushed push P s st h (thrown e) f = refl

-- The answers that count as success.
post_json-ok : {A : Type 0} (r : Reply A) (a : A) → post_json r ≡ returned a → r ≡ ok a
unfolding post_json
post_json-ok (ok x) a h = ap (λ o. elim o [ returned y ↦ ok y | thrown e ↦ ok x ]) h
post_json-ok (err m) a h = absurd (ground (arith, h))

relationship_reply-ok :
    {A : Type 0} (r : Reply A) (a : A) → relationship_reply r ≡ returned a → r ≡ ok a
unfolding relationship_reply
relationship_reply-ok (ok x) a h = ap (λ o. elim o [ returned y ↦ ok y | thrown e ↦ ok x ]) h
relationship_reply-ok (err m) a h = absurd (ground (arith, h))

outcome-Comes :
    {A : Type 0} (st : State) (mock_item : A) (reply : Reply A) (answer : Outcome A)
    → ((a : A) → answer ≡ returned a → reply ≡ ok a)
    → (a : A) → (if st.mock then returned mock_item else answer) ≡ returned a
    → Comes st mock_item reply a
outcome-Comes {A = A} st mock_item reply answer f a h = by_mock st.mock refl h
  where
    by_mock :
        (b : Bool)
        → st.mock ≡ b
        → (if b then returned mock_item else answer) ≡ returned a
        → Comes st mock_item reply a
    by_mock true m k =
        inl (m, ap (λ (o : Outcome A). elim o [ returned y ↦ y | thrown e ↦ a ]) (sym k))
    by_mock false m k = inr (m, f a k)

push-Pushed :
    {A : Type 0} (push : A → State → State) (mock_item : A) (reply : Reply A) (answer : Outcome A)
    → ((a : A) → answer ≡ returned a → reply ≡ ok a)
    → (s : Store) (o : Option State) → s.state ≡ o
    → Pushed push
        (λ st a. Comes st mock_item reply a)
        s
        (elim o [
          | none ↦ (s, thrown null_state)
          | some st ↦ push_and_notify push s st (if st.mock then returned mock_item else answer)
        ])
push-Pushed push mock_item reply answer f s none h = refl
push-Pushed push mock_item reply answer f s (some st) h =
    pushed push (λ st a. Comes st mock_item reply a) s st h _
      (outcome-Comes st mock_item reply answer f)

create-Pushed :
    {A : Type 0} (push : A → State → State) (mock_item : A) (reply : Reply A) (s : Store)
    → Pushed push (λ st a. Comes st mock_item reply a) s (create push mock_item reply s)
unfolding create
create-Pushed push mock_item reply s =
    push-Pushed push mock_item reply (post_json reply) (post_json-ok reply) s s.state refl

-- An operation that pushes an item, taken as a request.
drop_result-Performed :
    {A : Type 0} (q : Request) (push : A → State → State) (P : State → A → Type 0) (s : Store)
    (o : Store × Outcome A)
    → ((st : State) (a : A) → P st a → Made q st (push a st))
    → Pushed push P s o
    → Performed q s (drop_result o)
drop_result-Performed q push P s (s', returned a) f (st, h, k, p, t) =
    (st, push a st, h, k, f st a p, t)
drop_result-Performed q push P s (s', thrown e) f h = h

mark_removed-Removes :
    (now : ℕ) (id : String) (rs : List Relationship) → Removes now id rs (mark_removed now id rs)
mark_removed-Removes now id [] = inr (tt, refl)
mark_removed-Removes now id (r ∷ rs) = by_test (mark_removed-Removes now id rs) (r.id =ˢ id) refl
  where
    behind :
        (rs' : List Relationship)
        → (r.id =ˢ id) ≡ false
        → Removes now id rs rs'
        → Removes now id (r ∷ rs) (r ∷ rs')
    behind rs' f (inl (b, x, c, e, i, a, k)) =
        inl (r ∷ b, x, c, ap (λ l. r ∷ l) e, i, (f, a), ap (λ l. r ∷ l) k)
    behind rs' f (inr (a, k)) = inr ((f, a), ap (λ l. r ∷ l) k)

    by_test :
        Removes now id rs (mark_removed now id rs)
        → (b : Bool) → (r.id =ˢ id) ≡ b
        → Removes now id
            (r ∷ rs)
            (if b then record r { removed_at = some now } ∷ rs else r ∷ mark_removed now id rs)
    by_test h true t = inl ([], r, rs, refl, t, tt, refl)
    by_test h false f = behind (mark_removed now id rs) f h

remove-Performed :
    (now : ℕ) (id : String) (reply : Reply (Unit {0})) (s : Store)
    → Performed (remove now id reply) s (remove_relationship now id reply s)
unfolding remove_relationship notify
remove-Performed now id reply s = by_state s.state refl
  where
    done :
        (st : State) → s.state ≡ some st → Performed (remove now id reply) s (removed now id s st)
    done st h = (
      st,
      record st { relationships = mark_removed now id st.relationships },
      h,
      refl,
      (mark_removed now id st.relationships, refl, mark_removed-Removes now id st.relationships),
      (refl, call_each-told s.listeners _ s.calls),
    )

    by_answer :
        (st : State) (b : Bool) (o : Outcome (Unit {0}))
        → s.state ≡ some st
        → Performed (remove now id reply) s (
            if b
            then removed now id s st
            else elim o [ returned _ ↦ removed now id s st | thrown e ↦ (s, thrown e) ])
    by_answer st true o h = done st h
    by_answer st false (returned u) h = done st h
    by_answer st false (thrown e) h = refl

    by_state :
        (o : Option State)
        → s.state ≡ o
        → Performed (remove now id reply) s (elim o [
          | none ↦ (s, thrown null_state)
          | some st ↦ if st.mock then removed now id s st else elim (post_json reply) [
            | returned _ ↦ removed now id s st
            | thrown e ↦ (s, thrown e)
          ]
        ])
    by_state none h = refl
    by_state (some st) h = by_answer st st.mock (post_json reply) h

-- Every request that changes the organisation either finishes: then exactly one new item stands at
-- the end of its list, the one of the backend's answer or, under mock data, the one asked for, or a
-- removed relationship is marked, all else is kept, and every listener has been called once with the
-- new state, in the order of subscription; or it throws, and the store is exactly what it was.
pub perform-Performed : (q : Request) (s : Store) → Performed q s (perform q s)
unfolding perform create_team create_graph_project create_resource create_room add_relationship
perform-Performed (team i n d r) s =
    drop_result-Performed (team i n d r) _ _ s _ (λ st a p. (a, refl, p)) (create-Pushed _ _ r s)
perform-Performed (project i n d f r) s =
    drop_result-Performed (project i n d f r) _ _ s _ (λ st a p. (a, refl, p))
      (create-Pushed _ _ r s)
perform-Performed (resource t i n k d m r) s =
    drop_result-Performed (resource t i n k d m r) _ _ s _ (λ st a p. (a, refl, p))
      (create-Pushed _ _ r s)
perform-Performed (room i k h j n r) s =
    drop_result-Performed (room i k h j n r) _ _ s _ (λ st a p. (a, refl, p))
      (create-Pushed _ _ r s)
perform-Performed (add i e r) s =
    drop_result-Performed (add i e r) push_relationship _ s _ (λ st a p. (a, refl, p))
      (push-Pushed push_relationship _ r (relationship_reply r) (relationship_reply-ok r) s s.state
        refl)
perform-Performed (remove t i r) s = remove-Performed t i r s
