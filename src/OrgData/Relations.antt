-- ===== src/OrgData/Relations.antt =====
-- What adding and removing a relationship does to the relationships of every node.
use mathlib.Core.Path.{subst}
use hufi_agents.Prelude.{
  ℕ, String, ◌≡◌, refl, sym, Bool, true, false, not, inl, inr, List, [], ◌∷◌, ◌++◌, some, arith,
  Bool-cases, ◌=ˢ◌, if◌then◌else◌, select, select-append, eq_iff, All,
}
use hufi_agents.OrgData.Types.{Relationship, State}
use hufi_agents.OrgData.Store.{
  ok, Store, Edge, notify, touches, relationships_for, add_relationship, remove_relationship,
  mark_removed,
}

abbrev just : Bool → Relationship → List Relationship
just b r = if b then r ∷ [] else []

-- After a relationship is added, every node has the relationships it had, and the new one exactly
-- if the new one is live and touches it.
pub relationships_for-add_relationship :
    (mock_id : String) (e : Edge) (r : Relationship) (s : Store) (st : State) (kind id : String)
    → s.state ≡ some st
    → st.mock ≡ false
    → relationships_for kind id (add_relationship mock_id e (ok r) s).0
      ≡ relationships_for kind id s ++ (if touches kind id r then r ∷ [] else [])
unfolding relationships_for add_relationship notify
relationships_for-add_relationship mock_id e r s st kind id h m =
    rw (h, m) (select-append (touches kind id) st.relationships (r ∷ []))

-- Distinct identifiers.
abbrev pub HasDistinctIds : List Relationship → Type 0
HasDistinctIds [] = Unit
HasDistinctIds (r ∷ rs) = All (λ x. (x.id =ˢ r.id) ≡ false) rs × HasDistinctIds rs

abbrev other : String → Relationship → Bool
other id r = not (r.id =ˢ id)

-- Where no relationship has the identifier, leaving it out changes nothing.
select_other :
    (p : Relationship → Bool) (id : String) (rs : List Relationship)
    → All (λ x. (x.id =ˢ id) ≡ false) rs
    → select (other id) (select p rs) ≡ select p rs
select_other p id [] h = refl
select_other p id (r ∷ rs) h = ground (arith, select_other p id rs h.1, h.0)

select-mark_removed :
    (now : ℕ) (kind id gone : String) (rs : List Relationship)
    → HasDistinctIds rs
    → select (touches kind id) (mark_removed now gone rs)
      ≡ select (other gone) (select (touches kind id) rs)
select-mark_removed now kind id gone [] h = refl
select-mark_removed now kind id gone (r ∷ rs) h = elim (Bool-cases (r.id =ˢ gone)) [
  | inl e ↦
      let others = subst (λ g. All (λ x. (x.id =ˢ g) ≡ false) rs) ((eq_iff r.id gone).0 e) h.0 in
      let kept = select_other (touches kind id) gone rs others in
      rw e (split_first (touches kind id r) e kept)
  | inr e ↦ let rest = select-mark_removed now kind id gone rs h.1 in ground (arith, rest)
]
  where
    split_first :
        (b : Bool)
        → (r.id =ˢ gone) ≡ true
        → select (other gone) (select (touches kind id) rs) ≡ select (touches kind id) rs
        → select (touches kind id) rs
          ≡ select
              (other gone)
              (if b then r ∷ select (touches kind id) rs else select (touches kind id) rs)
    split_first true e kept = rw e (sym kept)
    split_first false e kept = sym kept

-- With distinct identifiers, after a relationship is removed every node has exactly the
-- relationships it had, without the one of that identifier.
pub relationships_for-remove_relationship :
    (now : ℕ) (gone : String) (s : Store) (st : State) (kind id : String)
    → s.state ≡ some st
    → HasDistinctIds st.relationships
    → relationships_for kind id (remove_relationship now gone (ok tt) s).0
      ≡ select (λ r. not (r.id =ˢ gone)) (relationships_for kind id s)
unfolding relationships_for remove_relationship notify
relationships_for-remove_relationship now gone s st kind id h d = elim (Bool-cases st.mock) [
  | inl m ↦ rw (h, m) (select-mark_removed now kind id gone st.relationships d)
  | inr m ↦ rw (h, m) (select-mark_removed now kind id gone st.relationships d)
]
