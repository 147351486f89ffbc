-- ===== src/Work/Newest.antt =====
-- The requests of api/static/work.js, which may be answered in any order.
use mathlib.Core.Path.{subst}
use hufi_agents.Prelude.{
  ℕ, suc, ◌≡◌, ◌<◌, ◌≤◌, refl, sym, ◌⊎◌, inl, inr, String, Bool, Bool-cases, true, false, List, [],
  ◌∷◌, Option, none, some, Option-cases, ◌==◌, ==_refl, ==_iff, leb, All, All-select_holds, arith,
}
use hufi_agents.OrgData.Store.{Reply, ok, err}
use hufi_agents.Work.Evidence.{
  Evidence, Loaded, newest_first, insert_newest, load_work_evidence, time_of, of_agent,
}
use hufi_agents.Work.Fetch.{
  View, initial, begin_fetch, end_fetch, find_sent, settle_sent, answer, pick_mode, clear_filter,
  on_show, open_for_agent, Event, refresh, answered, picked, cleared, shown, opened, after,
  show_answer,
}

-- The shell only says that a mounted view is the current one.
abbrev pub IsPossible : View → Event → Type 0
IsPossible v (opened true agent_id) = v.mounted ≡ true
IsPossible v e = Unit

pub data Reachable (stored : Option String) : View → Type 0 where
  start : Reachable stored (initial stored)
  next :
      {v : View} → Reachable stored v → (e : Event) → IsPossible v e → Reachable stored (after v e)

abbrev pub IsFor : Option String → Evidence → Type 0
IsFor none ev = Unit
IsFor (some id) ev = of_agent id ev ≡ true

-- Either the newest request, which asks for the current filter, is waited for, or it is settled
-- and each item that is shown belongs to that filter.
abbrev pub IsCurrent : View → Type 0
IsCurrent v =
    ((v.loading ≡ true) × (find_sent v.request_token v.sent ≡ some v.agent_filter))
    ⊎ ((v.loading ≡ false)
        × (find_sent v.request_token v.sent ≡ none)
        × All (IsFor v.agent_filter) v.evidence_items)

-- The tokens of the unsettled requests decrease, from below `n`.
abbrev Decreasing : ℕ → List (ℕ × Option String) → Type 0
Decreasing n [] = Unit
Decreasing n ((u, q) ∷ l) = (u < n) × Decreasing u l

Decreasing-weaken :
    {m n : ℕ} (l : List (ℕ × Option String)) → m ≤ n → Decreasing m l → Decreasing n l
Decreasing-weaken [] h d = tt
Decreasing-weaken ((u, q) ∷ l) h d = (omega (arith, d.0), d.1)

find-Decreasing :
    (t n : ℕ) (l : List (ℕ × Option String)) → n ≤ t → Decreasing n l → find_sent t l ≡ none
find-Decreasing t n [] h d = refl
find-Decreasing t n ((u, q) ∷ l) h d =
    ground (arith, find-Decreasing t u l (omega (arith, d.0)) d.1, d.0)

settle-Decreasing :
    (t n : ℕ) (l : List (ℕ × Option String)) → Decreasing n l → Decreasing n (settle_sent t l)
settle-Decreasing t n [] d = tt
settle-Decreasing t n ((u, q) ∷ l) d = elim (Bool-cases (t == u)) [
  | inl e ↦ rw e (Decreasing-weaken l (omega (arith, d.0)) d.1)
  | inr e ↦ rw e (d.0, settle-Decreasing t u l d.1)
]

find-settle_same :
    (t n : ℕ) (l : List (ℕ × Option String)) → Decreasing n l → find_sent t (settle_sent t l) ≡ none
find-settle_same t n [] d = refl
find-settle_same t n ((u, q) ∷ l) d = elim (Bool-cases (t == u)) [
  | inl e ↦ rw e (find-Decreasing t u l (ground arith) d.1)
  | inr e ↦ rw (e, e) (find-settle_same t u l d.1)
]

find-settle_other :
    (t k : ℕ) (l : List (ℕ × Option String))
    → (t == k) ≡ false
    → find_sent k (settle_sent t l) ≡ find_sent k l
find-settle_other t k [] h = refl
find-settle_other t k ((u, q) ∷ l) h = ground (arith, find-settle_other t k l h)

module _ (P : Evidence → Type 0) where
  All-insert : (x : Evidence) (ys : List Evidence) → P x → All P ys → All P (insert_newest x ys)
  All-insert x [] h k = (h, tt)
  All-insert x (y ∷ ys) h k = elim (Bool-cases (leb (time_of y) (time_of x))) [
    | inl e ↦ rw e (h, k)
    | inr e ↦ rw e (k.0, All-insert x ys h k.1)
  ]

  All-newest_first : (l : List Evidence) → All P l → All P (newest_first l)
  unfolding newest_first
  All-newest_first [] h = tt
  All-newest_first (x ∷ xs) h = All-insert x (newest_first xs) h.0 (All-newest_first xs h.1)

All-IsFor-none : (l : List Evidence) → All (IsFor none) l
All-IsFor-none [] = tt
All-IsFor-none (x ∷ l) = (tt, All-IsFor-none l)

-- What the answer to a request for `q` shows belongs to `q`.
answer-IsFor :
    (q : Option String) (body : Reply (Option (List Evidence))) (v : View)
    → ((show_answer (load_work_evidence q body) v).loading ≡ false)
      × All (IsFor q) (show_answer (load_work_evidence q body) v).evidence_items
unfolding load_work_evidence
answer-IsFor none (ok none) v = (refl, All-IsFor-none _)
answer-IsFor none (ok (some items)) v = (refl, All-IsFor-none _)
answer-IsFor none (err m) v = (refl, All-IsFor-none _)
answer-IsFor (some id) (ok none) v = (refl, tt)
answer-IsFor (some id) (ok (some items)) v = (
  refl,
  All-newest_first (IsFor (some id)) _
      (All-select_holds (IsFor (some id)) (of_agent id) (λ x h. h) items),
)
answer-IsFor (some id) (err m) v = (refl, All-newest_first (IsFor (some id)) [] tt)

abbrev Inv : View → Type 0
Inv v = Decreasing (suc v.request_token) v.sent × IsCurrent v

begin_fetch-Inv : (v : View) → Decreasing (suc v.request_token) v.sent → Inv (begin_fetch v)
unfolding begin_fetch
begin_fetch-Inv v d = ((omega arith, d), inl (refl, rw (==_refl (suc v.request_token)) refl))

show_answer-Inv :
    (r : Reply Loaded) (v : View)
    → Decreasing (suc v.request_token) v.sent
    → find_sent v.request_token v.sent ≡ none
    → ((show_answer r v).loading ≡ false)
      × All (IsFor v.agent_filter) (show_answer r v).evidence_items
    → Inv (show_answer r v)
show_answer-Inv (ok res) v d f h = (d, inr (h.0, f, h.1))
show_answer-Inv (err m) v d f h = (d, inr (h.0, f, h.1))

-- The view once the request `t` is settled.
abbrev settled : ℕ → View → View
settled t v = record v { sent = settle_sent t v.sent }

newest-Inv :
    (q : Option String) (body : Reply (Option (List Evidence))) (v : View)
    → Inv v
    → find_sent v.request_token v.sent ≡ some q
    → Inv (show_answer (load_work_evidence q body) (settled v.request_token v))
newest-Inv q body v (d, inr (l, n, a)) f = absurd (ground arith)
newest-Inv q body v (d, inl (l, n)) f =
    show_answer-Inv (load_work_evidence q body) (settled v.request_token v)
      (settle-Decreasing v.request_token (suc v.request_token) v.sent d)
      (find-settle_same v.request_token (suc v.request_token) v.sent d)
      (subst
        (λ p.
          ((show_answer (load_work_evidence q body) (settled v.request_token v)).loading ≡ false)
          × All (IsFor p)
              (show_answer (load_work_evidence q body) (settled v.request_token v)).evidence_items)
        (ground (arith, n, f)) (answer-IsFor q body (settled v.request_token v)))

stale-Inv : (t : ℕ) (v : View) → Inv v → (t == v.request_token) ≡ false → Inv (settled t v)
stale-Inv t v (d, inl (l, n)) h = (
  settle-Decreasing t (suc v.request_token) v.sent d,
  inl (l, rw (find-settle_other t v.request_token v.sent h) n),
)
stale-Inv t v (d, inr (l, n, a)) h = (
  settle-Decreasing t (suc v.request_token) v.sent d,
  inr (l, rw (find-settle_other t v.request_token v.sent h) n, a),
)

answer-Inv :
    (t : ℕ) (body : Reply (Option (List Evidence))) (v : View) → Inv v → Inv (answer t body v)
unfolding answer end_fetch
answer-Inv t body v i = elim (Option-cases (find_sent t v.sent)) [
  | inl f ↦ rw (f, answer) i
  | inr (q, f) ↦ elim (Bool-cases (t == v.request_token)) [
    | inl e ↦
        let p : t ≡ v.request_token = ==_iff t v.request_token e in
        rw (f, answer, end_fetch, e) (rw p (newest-Inv q body v i (rw (sym p) f)))
    | inr e ↦ rw (f, answer, end_fetch, e) (stale-Inv t v i e)
  ]
]

open_for_agent-Inv :
    (active : Bool) (agent_id : Option String) (v : View)
    → IsPossible v (opened active agent_id)
    → Inv v
    → Inv (open_for_agent active agent_id v)
unfolding open_for_agent on_show
open_for_agent-Inv true agent_id v h i =
    rw h (begin_fetch-Inv (record v { mounted = true; agent_filter = agent_id }) i.0)
open_for_agent-Inv false agent_id v h i = elim (Bool-cases v.mounted) [
  | inl e ↦ rw e (begin_fetch-Inv _ (shown_first.0))
  | inr e ↦ rw e shown_first
]
  where
    shown_first : Inv (begin_fetch (record v { agent_filter = agent_id; mounted = true }))
    shown_first = begin_fetch-Inv (record v { agent_filter = agent_id; mounted = true }) i.0

after-Inv : (v : View) (e : Event) → IsPossible v e → Inv v → Inv (after v e)
unfolding after clear_filter on_show pick_mode
after-Inv v refresh h i = begin_fetch-Inv v i.0
after-Inv v (answered t body) h i = answer-Inv t body v i
after-Inv v (picked m) h i = i
after-Inv v cleared h i = begin_fetch-Inv (record v { agent_filter = none }) i.0
after-Inv v shown h i = begin_fetch-Inv (record v { mounted = true }) i.0
after-Inv v (opened active agent_id) h i = open_for_agent-Inv active agent_id v h i

Reachable-Inv : (stored : Option String) (v : View) → Reachable stored v → Inv v
unfolding initial
Reachable-Inv stored _ start = (tt, inr (refl, refl, tt))
Reachable-Inv stored _ (next {v} r e h) = after-Inv v e h (Reachable-Inv stored v r)

-- In every state that the view can reach, with the answers in any order, either it is loading and
-- the newest request, which is not answered, asks for the current filter, or it is not loading,
-- the newest request is answered, and all the evidence shown is that of the filtered agent.
pub Reachable-IsCurrent : (stored : Option String) (v : View) → Reachable stored v → IsCurrent v
Reachable-IsCurrent stored v r = (Reachable-Inv stored v r).1
