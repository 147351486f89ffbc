-- ===== src/Agents/Found.antt =====
-- What a search in the sidebar of api/static/agents.js shows.
use hufi_agents.Prelude.{
  ◌≡◌, refl, ◌∙◌, ap, Bool, false, not, inl, inr, Bool-cases, List, [], ◌∷◌, Option, some, ◌=ˢ◌,
  find, select, map, map_some, All, All-select, All_at, eq_refl, At, here, there,
}
use hufi_agents.Js.Text.{Text}
use hufi_agents.OrgData.Types.{Agent}
use hufi_agents.Agents.Sidebar.{
  Row, agent_row, is_boss, boss_row, Worker, worker_row, worker_row_of, render_sidebar, matches,
  as_worker, filtered,
}

-- No two agents with one identifier.
abbrev pub HasDistinctIds : List Agent → Type 0
HasDistinctIds [] = Unit
HasDistinctIds (a ∷ l) = All (λ x. (a.id =ˢ x.id) ≡ false) l × HasDistinctIds l

HasDistinctIds-select :
    (p : Agent → Bool) (l : List Agent) → HasDistinctIds l → HasDistinctIds (select p l)
HasDistinctIds-select p [] d = tt
HasDistinctIds-select p (a ∷ l) d = elim (Bool-cases (p a)) [
  | inl e ↦ rw e (All-select (λ x. (a.id =ˢ x.id) ≡ false) p l d.0, HasDistinctIds-select p l d.1)
  | inr e ↦ rw e (HasDistinctIds-select p l d.1)
]

find_own :
    (l : List Agent) (a : Agent) → HasDistinctIds l → At a l → find (λ x. x.id =ˢ a.id) l ≡ some a
find_own [] a d m = elim m [ ]
find_own (x ∷ l) a d here = rw (eq_refl a.id)
find_own (x ∷ l) a d (there m) =
    rw (All_at (λ y. (x.id =ˢ y.id) ≡ false) d.0 m) (find_own l a d.1 m)

own_row :
    (all : List Agent) (a : Agent)
    → HasDistinctIds all
    → At a all
    → worker_row all (as_worker a) ≡ some (agent_row a)
unfolding agent_row
own_row all a d m = ap (worker_row_of (as_worker a)) (find_own all a d m)

map_some-cons :
    (f : Worker → Option Row) (w : Worker) (l : List Worker) {r : Row}
    → f w ≡ some r
    → map_some f (w ∷ l) ≡ r ∷ map_some f l
map_some-cons f w l h = rw (h, map_some) refl

-- The rows of some of the agents, looked up among all of them.
rows_of :
    (all l : List Agent)
    → HasDistinctIds all
    → ((a : Agent) → At a l → At a all)
    → map_some (worker_row all) (select (λ w. not (w.agent_id =ˢ "hufiboss")) (map as_worker l))
      ≡ map agent_row (select (λ a. not (is_boss a)) l)
unfolding agent_row
rows_of all [] d sub = refl
rows_of all (a ∷ l) d sub = elim (Bool-cases (a.id =ˢ "hufiboss")) [
  | inl e ↦ rw e (rows_of all l d (λ x m. sub x (there m)))
  | inr e ↦ rw e (
      map_some-cons (worker_row all) (as_worker a) _ (own_row all a d (sub a here))
      ∙ ap (λ t. agent_row a ∷ t) (rows_of all l d (λ x m. sub x (there m))))
]

-- When no two agents have one identifier, a search shows in the directory, in their order, exactly
-- the agents but the first one's that match by name or role, each with its own row; and HufiBoss on top
-- exactly if it matches.
pub filtered_lem :
    (q : Text) (cache : List Agent)
    → HasDistinctIds cache
    → ((filtered q cache).directory
        ≡ map agent_row (select (λ a. not (is_boss a)) (select (matches q) cache)))
      × ((filtered q cache).boss ≡ boss_row (find is_boss (select (matches q) cache)))
unfolding filtered render_sidebar
filtered_lem q cache d = (
  rows_of (select (matches q) cache) (select (matches q) cache)
      (HasDistinctIds-select (matches q) cache d) (λ a m. m),
  refl,
)
