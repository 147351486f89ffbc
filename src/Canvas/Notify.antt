-- ===== src/Canvas/Notify.antt =====
-- What `createOrNotify` of api/static/org-canvas.js does on every branch.
use hufi_agents.Prelude.{
  ℕ, ◌≢◌, ◌≡◌, refl, ◌⊎◌, inl, inr, String, Bool, Bool-cases, true, false, List, [], ◌∷◌, ◌++◌,
  Option, none, some, Option-cases, select, select-append, find, arith, eq_refl,
}
use hufi_agents.Js.Text.{Text}
use hufi_agents.OrgData.Types.{Relationship, State}
use hufi_agents.OrgData.Store.{
  Reply, ok, err, Store, Edge, is_live, with_id, notify, add_relationship, relationship_reply,
}
use hufi_agents.Canvas.Connect.{
  Notice, success, same_edge, live_relationships, already_connected, report, create_or_notify,
}

-- The backend answers with the relationship that was asked for.
abbrev Confirms : Edge → Reply Relationship → Type 0
Confirms e (ok r) = (same_edge e r ≡ true) × (is_live r ≡ true)
Confirms e (err _) = Unit

abbrev relationships_of : Store → List Relationship
relationships_of s = elim s.state [ none ↦ [] | some st ↦ st.relationships ]

-- Either one live relationship is added and that is said, or nothing changes and no success is shown.
abbrev pub Settled : Edge → Store → Store × Notice → Type 0
Settled e s (s', n) =
    ((n.tone ≡ success)
      × ((r : Relationship) × (same_edge e r ≡ true)
          × (is_live r ≡ true)
          × (relationships_of s' ≡ relationships_of s ++ r ∷ [])))
    ⊎ ((n.tone ≢ success) × (s' ≡ s))

same_edge-with_id : (id : String) (e : Edge) → same_edge e (with_id id e) ≡ true
same_edge-with_id id e =
    rw
      (
        eq_refl e.relationship_type,
        eq_refl e.source_type,
        eq_refl e.source_id,
        eq_refl e.target_type,
        eq_refl e.target_id,
      )
      refl

module _ (m : Text) (mock_id : String) (e : Edge) (ls : List ℕ)
    (calls : List (ℕ × Option State)) where
  -- The store with the state `o`.
  abbrev with_state : Option State → Store
  with_state o = record { state = o; listeners = ls; calls = calls }

  report-Settled_loaded :
      (st : State) (reply : Reply Relationship)
      → Confirms e reply
      → Settled e
          (with_state (some st))
          (report m (add_relationship mock_id e reply (with_state (some st))))
  unfolding add_relationship notify relationship_reply
  report-Settled_loaded st reply c = elim (Bool-cases st.mock) [
    | inl h ↦ rw h (inl (refl, (with_id mock_id e, same_edge-with_id mock_id e, refl, refl)))
    | inr h ↦ answered reply c h
  ]
    where
      answered :
          (reply : Reply Relationship)
          → Confirms e reply
          → st.mock ≡ false
          → Settled e
              (with_state (some st))
              (report m (add_relationship mock_id e reply (with_state (some st))))
      answered (ok r) c h = rw h (inl (refl, (r, c.0, c.1, refl)))
      answered (err message) c h = rw h (inr (ground arith, refl))

  report-Settled :
      (o : Option State) (reply : Reply Relationship)
      → Confirms e reply
      → Settled e (with_state o) (report m (add_relationship mock_id e reply (with_state o)))
  unfolding add_relationship
  report-Settled none reply c = inr (ground arith, refl)
  report-Settled (some st) reply c = report-Settled_loaded st reply c

-- When the backend answers with the relationship asked for, `createOrNotify` either says that the
-- connection was made, and one live relationship with the wanted type and ends was added at the
-- end, or it shows no success and leaves the store as it was.
pub create_or_notify-Settled :
    (mock_id : String) (e : Edge) (m : Text) (reply : Reply Relationship) (s : Store)
    → Confirms e reply
    → Settled e s (create_or_notify mock_id e m reply s)
unfolding create_or_notify
create_or_notify-Settled mock_id e m reply s c =
    elim (Option-cases (find (same_edge e) (live_relationships s))) [
      | inl h ↦
          rw (h, create_or_notify) (report-Settled m mock_id e s.listeners s.calls s.state reply c)
      | inr (x, h) ↦ rw (h, create_or_notify) (inr (ground arith, refl))
    ]

find-append_last :
    {A : Type 0} (p : A → Bool) (xs : List A) (a : A)
    → p a ≡ true
    → (x : A) × (find p (xs ++ a ∷ []) ≡ some x)
find-append_last p [] a h = (a, rw h refl)
find-append_last p (x ∷ xs) a h = elim (Bool-cases (p x)) [
  | inl e ↦ (x, rw e refl)
  | inr e ↦ let k = find-append_last p xs a h in (k.0, rw e (k.1))
]

live-relationships_of : (s : Store) → live_relationships s ≡ select is_live (relationships_of s)
live-relationships_of s = go s.state
  where
    go :
        (o : Option State)
        → live_relationships (record s { state = o })
          ≡ select is_live (relationships_of (record s { state = o }))
    go none = refl
    go (some st) = refl

repeated :
    (mock_id : String) (e : Edge) (m : Text) (reply : Reply Relationship) (s : Store)
    (r : Relationship)
    → find (same_edge e) (live_relationships s) ≡ some r
    → create_or_notify mock_id e m reply s ≡ (s, already_connected)
unfolding create_or_notify
repeated mock_id e m reply s r h = rw (h, create_or_notify) refl

-- Once the backend, answering with the relationship asked for, made a connection, a second request
-- for the same connection, whatever its answer would be, changes nothing and says that the
-- connection exists already.
pub create_or_notify_twice :
    (mock_id : String) (e : Edge) (m : Text) (reply : Reply Relationship) (s : Store)
    → Confirms e reply
    → (create_or_notify mock_id e m reply s).1.tone ≡ success
    → (mock_id' : String) (m' : Text) (reply' : Reply Relationship)
    → create_or_notify mock_id' e m' reply' (create_or_notify mock_id e m reply s).0
      ≡ ((create_or_notify mock_id e m reply s).0, already_connected)
create_or_notify_twice mock_id e m reply s c t mock_id' m' reply' =
    elim (create_or_notify-Settled mock_id e m reply s c) [
      | inl (h, (r, same, live, grown)) ↦
          let f = find-append_last (same_edge e) (select is_live (relationships_of s)) r same in
          let q : find (same_edge e) (live_relationships (create_or_notify mock_id e m reply s).0)
              ≡ some f.0 =
            rw
              (
                live-relationships_of (create_or_notify mock_id e m reply s).0,
                grown,
                select-append is_live (relationships_of s) (r ∷ []),
                live,
              )
              f.1 in
          repeated mock_id' e m' reply' (create_or_notify mock_id e m reply s).0 f.0 q
      | inr (h, k) ↦ absurd (h t)
    ]
