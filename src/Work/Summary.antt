-- ===== src/Work/Summary.antt =====
-- The summary of the day in api/static/work.js: `buildSummary`.
use hufi_agents.Prelude.{
  ℕ, zero, suc, ◌≡◌, ◌+◌, refl, eq_iff, String, Bool-cases, true, false, inl, inr, List, [], ◌∷◌,
  ◌++◌, none, some, ◌=ˢ◌, ◌==◌, if◌then◌else◌, select, map, length, arith,
}
use mathlib.Core.Path.{subst}
use hufi_agents.Js.Text.{Text, units, decimal, join}
use hufi_agents.OrgData.Store.{Store}
use hufi_agents.Work.Evidence.{Evidence, Moment, is_today, type_info, agent_team}

-- `byTeam`: for each label, how often each type of evidence occurs, in the order of the first.
abbrev pub Counts : Type 0
Counts = List (String × ℕ)

abbrev pub count_in : String → Counts → Counts
count_in t [] = (t, 1) ∷ []
count_in t ((u, n) ∷ l) = if u =ˢ t then (u, suc n) ∷ l else (u, n) ∷ count_in t l

unfoldable pub add_to :
    (label evidence_type : String) → List (String × Counts) → List (String × Counts)
add_to label t [] = (label, count_in t []) ∷ []
add_to label t ((k, c) ∷ l) =
    if k =ˢ label then (k, count_in t c) ∷ l else (k, c) ∷ add_to label t l

abbrev pub team_label : Store → Evidence → String
team_label s ev = elim (agent_team s ev.agent_id) [ some t ↦ t.name | none ↦ "Ohne Team-Zuordnung" ]

unfoldable pub by_team : Store → List Evidence → List (String × Counts) → List (String × Counts)
by_team s [] groups = groups
by_team s (ev ∷ l) groups = by_team s l (add_to (team_label s ev) ev.evidence_type groups)

abbrev noun : ℕ → String → String
noun n t = if n == 1 then (type_info t).singular_noun else (type_info t).plural_noun

-- One part of a team's line: how many of which, and what was done with them.
unfoldable pub part : String × ℕ → Text
part p =
    decimal p.1 ++ (b' ' ∷ (units (noun p.1 p.0) ++ (b' ' ∷ units (type_info p.0).plural_verb)))

unfoldable pub team_row : String × Counts → String × Text
team_row g = (g.0, join (units ", ") (map part g.1))

unfoldable pub heading : ℕ → Text
heading zero = units "Heute noch keine abgeschlossene Aufgabe."
heading (suc n) =
    units "Heute erledigt — "
    ++ (decimal (suc n) ++ units (if n == 0 then " Aufgabe" else " Aufgaben"))

pub record Summary : Type 0 where
  pub title : Text
  pub rows : List (String × Text)

-- `by_name` puts the groups in the order of their labels, as the platform's collation has it.
unfoldable pub build_summary :
    (by_name : List (String × Counts) → List (String × Counts))
    → Moment
    → Store
    → List Evidence
    → Summary
build_summary by_name now s items =
    let today = select (λ ev. is_today now ev.created_at) items in
    record { title = heading (length today); rows = map team_row (by_name (by_team s today [])) }

-- How many items a team's counts hold, and how many all groups hold.
abbrev pub count_total : Counts → ℕ
count_total [] = 0
count_total ((t, n) ∷ l) = n + count_total l

abbrev pub total : List (String × Counts) → ℕ
total [] = 0
total ((k, c) ∷ l) = count_total c + total l

total-count_in : (t : String) (c : Counts) → count_total (count_in t c) ≡ suc (count_total c)
total-count_in t [] = refl
total-count_in t ((u, n) ∷ l) = elim (Bool-cases (u =ˢ t)) [
  | inl e ↦ rw e (omega arith)
  | inr e ↦ rw e (omega (arith, total-count_in t l))
]

total-add_to : (k t : String) (l : List (String × Counts)) → total (add_to k t l) ≡ suc (total l)
unfolding add_to
total-add_to k t [] = refl
total-add_to k t ((j, c) ∷ l) = elim (Bool-cases (j =ˢ k)) [
  | inl e ↦ rw e (omega (arith, total-count_in t c))
  | inr e ↦ rw e (omega (arith, total-add_to k t l))
]

total-by_team :
    (s : Store) (l : List Evidence) (g : List (String × Counts))
    → total (by_team s l g) ≡ length l + total g
unfolding by_team
total-by_team s [] g = omega arith
total-by_team s (ev ∷ l) g = omega (
  arith,
  total-by_team s l (add_to (team_label s ev) ev.evidence_type g),
  total-add_to (team_label s ev) ev.evidence_type g,
)

-- The numbers of a label's counts, by type, that a list of items has for it.
abbrev pub occurrences : Store → (label evidence_type : String) → List Evidence → ℕ
occurrences s k t [] = 0
occurrences s k t (ev ∷ l) =
    (if team_label s ev =ˢ k then (if ev.evidence_type =ˢ t then 1 else 0) else 0)
    + occurrences s k t l

abbrev pub count_of : String → Counts → ℕ
count_of t [] = 0
count_of t ((u, n) ∷ l) = (if u =ˢ t then n else 0) + count_of t l

abbrev pub group_count : (label evidence_type : String) → List (String × Counts) → ℕ
group_count k t [] = 0
group_count k t ((j, c) ∷ l) = (if j =ˢ k then count_of t c else 0) + group_count k t l

count_of-count_in :
    (t u : String) (c : Counts)
    → count_of t (count_in u c) ≡ (if u =ˢ t then 1 else 0) + count_of t c
count_of-count_in t u [] = refl
count_of-count_in t u ((v, n) ∷ l) = elim (Bool-cases (v =ˢ u)) [
  | inl e ↦
      let q : v ≡ u = ground (arith, e, eq_iff v u) in
      elim (Bool-cases (v =ˢ t)) [
        | inl f ↦ rw (e, f, subst (λ x. (x =ˢ t) ≡ true) q f) (omega arith)
        | inr f ↦ rw (e, f, subst (λ x. (x =ˢ t) ≡ false) q f) (omega arith)
      ]
  | inr e ↦ rw e (omega (arith, count_of-count_in t u l))
]

group_count-add_to :
    (k t j u : String) (g : List (String × Counts))
    → group_count k t (add_to j u g)
      ≡ (if j =ˢ k then (if u =ˢ t then 1 else 0) else 0) + group_count k t g
unfolding add_to
group_count-add_to k t j u [] = elim (Bool-cases (j =ˢ k)) [
  | inl e ↦ rw e (omega arith)
  | inr e ↦ rw e (omega arith)
]
group_count-add_to k t j u ((i, c) ∷ l) = elim (Bool-cases (i =ˢ j)) [
  | inl e ↦
      let q : i ≡ j = ground (arith, e, eq_iff i j) in
      elim (Bool-cases (i =ˢ k)) [
        | inl f ↦
            rw (e, f, subst (λ x. (x =ˢ k) ≡ true) q f) (omega (arith, count_of-count_in t u c))
        | inr f ↦ rw (e, f, subst (λ x. (x =ˢ k) ≡ false) q f) (omega arith)
      ]
  | inr e ↦ rw e (omega (arith, group_count-add_to k t j u l))
]

by_team-counts :
    (k t : String) (s : Store) (l : List Evidence) (g : List (String × Counts))
    → group_count k t (by_team s l g) ≡ occurrences s k t l + group_count k t g
unfolding by_team
by_team-counts k t s [] g = omega arith
by_team-counts k t s (ev ∷ l) g = omega (
  arith,
  by_team-counts k t s l (add_to (team_label s ev) ev.evidence_type g),
  group_count-add_to k t (team_label s ev) ev.evidence_type g,
)

-- The counts of the summary are exact: for each label and each type, the groups hold the number of
-- the items whose agent's team has that label and that are of that type, and all groups together
-- hold the number of the items.
pub by_team_lem :
    (s : Store) (l : List Evidence)
    → ((label evidence_type : String)
        → group_count label evidence_type (by_team s l []) ≡ occurrences s label evidence_type l)
      × (total (by_team s l []) ≡ length l)
by_team_lem s l =
    (λ k t. omega (arith, by_team-counts k t s l []), omega (arith, total-by_team s l []))
