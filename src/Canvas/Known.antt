-- ===== src/Canvas/Known.antt =====
-- What is found by an identifier: `getAgent` and `getAllAgents` of api/static/org-canvas.js, and the
-- lists of the organisation.
use hufi_agents.Prelude.{
  ◌≡◌, refl, sym, ◌∙◌, ◌⊎◌, inl, inr, String, Bool, true, false, List, [], ◌∷◌, Option, none, some,
  Bool-cases, ◌=ˢ◌, find, All, At, here, there, eq_iff, eq_refl,
}
use hufi_agents.OrgData.Types.{Agent, State}
use hufi_agents.OrgData.Store.{Store, get_agent_by_id}
use hufi_agents.Canvas.Details.{get_agent}
use hufi_agents.Canvas.Select.{get_all_agents}

-- Each identifier once.
abbrev pub HasOnce {ℓ} : {A : Type ℓ} → (A → String) → List A → Type ℓ
HasOnce id [] = Unit
HasOnce id (a ∷ l) = All (λ b. (id a =ˢ id b) ≡ false) l × HasOnce id l

pub find-HasOnce {ℓ} :
    {A : Type ℓ} (id : A → String) (l : List A)
    → HasOnce id l
    → All (λ a. find (λ b. id b =ˢ id a) l ≡ some a) l
find-HasOnce id [] h = tt
find-HasOnce {A = A} id (a ∷ l) h = (rw (eq_refl (id a)) refl, passed l h.0 (find-HasOnce id l h.1))
  where
    passed :
        (r : List A)
        → All (λ b. (id a =ˢ id b) ≡ false) r
        → All (λ b. find (λ c. id c =ˢ id b) l ≡ some b) r
        → All (λ b. find (λ c. id c =ˢ id b) (a ∷ l) ≡ some b) r
    passed [] f g = tt
    passed (b ∷ r) f g = (rw f.0 g.0, passed r f.1 g.1)

find-At {ℓ} :
    {A : Type ℓ} (p : A → Bool) (a : A) (l : List A)
    → p a ≡ true
    → At a l
    → (b : A) × (find p l ≡ some b) × (p b ≡ true)
find-At p a [] t m = elim m [ ]
find-At p a (_ ∷ l) t here = (a, rw t refl, t)
find-At p a (x ∷ l) t (there m) = elim (Bool-cases (p x)) [
  | inl u ↦ (x, rw u refl, u)
  | inr u ↦ let (b, e, v) = find-At p a l t m in (b, rw u e, v)
]

-- An agent that is shown is found by its identifier.
abbrev pub Known : List Agent → Store → Agent → Type 0
Known sidebar s a = (b : Agent) × (get_agent sidebar s a.id ≡ some b) × (b.id ≡ a.id)

get_agent-cons :
    (x : Agent) (l : List Agent) (s : Store) (a : Agent) → (a ≡ x) ⊎ Known l s a → Known (x ∷ l) s a
unfolding get_agent
get_agent-cons x l s a (inl e) = (x, rw (e, eq_refl x.id) refl, rw e refl)
get_agent-cons x l s a (inr (b, e, i)) = elim (Bool-cases (x.id =ˢ a.id)) [
  | inl t ↦ (x, rw t refl, (eq_iff x.id a.id).0 t)
  | inr t ↦ (b, rw t e, i)
]

At-Known : (l : List Agent) (s : Store) (a : Agent) → At a l → Known l s a
At-Known [] s a m = elim m [ ]
At-Known (x ∷ l) s a here = get_agent-cons x l s a (inl refl)
At-Known (x ∷ l) s a (there m) = get_agent-cons x l s a (inr (At-Known l s a m))

All_of {ℓ κ} : {A : Type ℓ} (P : A → Type κ) (l : List A) → ((a : A) → At a l → P a) → All P l
All_of P [] f = tt
All_of P (a ∷ l) f = (f a here, All_of P l (λ b m. f b (there m)))

organisation-Known :
    (s : Store) (st : State) (a : Agent) → s.state ≡ some st → At a st.agents → Known [] s a
unfolding get_agent get_agent_by_id
organisation-Known s st a h m =
    let (b, e, t) = find-At (λ x. x.id =ˢ a.id) a st.agents (eq_refl a.id) m in
    (b, rw h e, (eq_iff b.id a.id).0 t)

pub get_all_agents-Known :
    (sidebar : List Agent) (s : Store) (st : State)
    → s.state ≡ some st
    → All (Known sidebar s) (get_all_agents sidebar s)
unfolding get_all_agents
get_all_agents-Known (x ∷ l) s st h = All_of _ (x ∷ l) (At-Known (x ∷ l) s)
get_all_agents-Known [] s st h = by_state s.state h
  where
    by_state :
        (o : Option State)
        → o ≡ some st
        → All (Known [] s) (elim o [ none ↦ [] | some t ↦ t.agents ])
    by_state none e = tt
    by_state (some t) e = All_of _ t.agents (λ a m. organisation-Known s t a (h ∙ sym e) m)

-- What a loaded organisation has: every identifier once among its teams, projects and resources.
abbrev pub HasDistinct : State → Type 0
HasDistinct st =
    HasOnce (λ t. t.id) st.teams
    × HasOnce (λ p. p.id) st.graph_projects
    × HasOnce (λ r. r.id) st.resources
