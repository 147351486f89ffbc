-- ===== src/Chat/Mission/Tracker/Cards.antt =====
-- How many approval cards `ensureApprovalCard` of api/static/chat.js shows for a mission.
use mathlib.Core.Path.{subst}
use hufi_agents.Prelude.{
  ℕ, zero, suc, ◌≡◌, refl, ap, Bool, true, false, ◌||◌, not, List, [], ◌∷◌, ◌++◌, none, some, ◌=ˢ◌,
  if◌then◌else◌, All, append-nil, arith,
}
use hufi_agents.OrgData.Store.{Reply, ok, err}
use hufi_agents.Chat.Mission.{Progress, blank, is_terminal, one_of}
use hufi_agents.Chat.Mission.Approval.{Approval, by_task}
use hufi_agents.Chat.Mission.Tracker.{
  Waiting, mission, approvals, tool_calls, Tracker, track_mission, start_tick, show_card,
  ensure_card, Snapshot, snapshot_arrives, approvals_arrive, Answer, snapshot, approval_list,
  call_ids, resume, Step, timer, arrives, Reachable, begin, step,
}

abbrev waiting_mission : Snapshot
waiting_mission = record {
  mission = record { status = "waiting_approval"; result = [] };
  tasks = record { id = "task-1"; status = "waiting_approval" } ∷ [];
}

abbrev pub the_approval : Approval
the_approval = record {
  id = "approval-1";
  status = "pending";
  task_id = some "task-1";
  tool_call_id = none;
  risk_class = "R3";
}

abbrev pub repeat {ℓ} : {A : Type ℓ} → ℕ → A → List A
repeat zero a = []
repeat (suc n) a = a ∷ repeat n a

-- A mission that goes on, with what is shown and waited for.
abbrev ongoing : Progress → Bool → List Approval → List Waiting → Tracker
ongoing p shown cards w = record {
  stopped = false;
  ticking = true;
  progress = p;
  rendered = shown;
  cards = cards;
  results = [];
  waiting = w;
}

asks_mission : (n : ℕ) → Reachable (ongoing blank false [] (repeat (suc n) mission))
unfolding track_mission start_tick
asks_mission zero = begin
asks_mission (suc n) = step (asks_mission n) timer

-- `j` ticks have found the mission waiting and ask for the approvals, `k` still ask for the mission.
asks_approvals :
    (j k : ℕ)
    → (p : Progress) × Reachable
        (ongoing p false [] (repeat j (approvals waiting_mission.tasks) ++ repeat k mission))
unfolding resume snapshot_arrives ensure_card track_mission
asks_approvals zero zero = (blank, step begin (arrives [] [] mission (snapshot (err [])) refl))
asks_approvals zero (suc k) = (blank, asks_mission k)
asks_approvals (suc j) k =
    let h = asks_approvals j (suc k) in
    (
      _,
      step (h.1) (
          arrives (repeat j (approvals waiting_mission.tasks)) (repeat k mission) mission
            (snapshot (ok waiting_mission)) refl),
    )

repeat_snoc : {A : Type 0} (n : ℕ) (a : A) → repeat n a ++ a ∷ [] ≡ repeat (suc n) a
repeat_snoc zero a = refl
repeat_snoc (suc n) a = ap (λ l. a ∷ l) (repeat_snoc n a)

-- `c` cards are shown, and `k` ticks still ask for the approvals.
shows_cards :
    (c k : ℕ)
    → (p : Progress) × ((b : Bool) × Reachable
          (ongoing p b (repeat c the_approval) (repeat k (approvals waiting_mission.tasks))))
unfolding resume approvals_arrive by_task show_card
shows_cards zero k =
    let h = asks_approvals k zero in
    (
      h.0,
      (
        false,
        subst (λ w. Reachable (ongoing h.0 false [] w))
            (append-nil (repeat k (approvals waiting_mission.tasks))) h.1,
      ),
    )
shows_cards (suc c) k =
    let h = shows_cards c (suc k) in
    (
      h.0,
      (
        true,
        subst (λ l. Reachable (ongoing h.0 true l (repeat k (approvals waiting_mission.tasks))))
            (repeat_snoc c the_approval)
            (step h.1.1 (
              arrives [] (repeat k (approvals waiting_mission.tasks))
                (approvals waiting_mission.tasks) (approval_list (ok (the_approval ∷ []))) refl)),
      ),
    )

-- The mark that a card is shown is only set after the approvals are fetched, so that for each
-- number there are overlapping ticks after which that many cards stand in the slot, all for the
-- same approval.
pub cards_unbounded : (n : ℕ) → (t : Tracker) × Reachable t × (t.cards ≡ repeat n the_approval)
cards_unbounded n = let h = shows_cards n zero in (_, h.1.1, refl)

-- The tick does not ask for approvals, or for the tool calls that they name.
abbrev pub AsksMission : Waiting → Type 0
AsksMission mission = Unit
AsksMission (approvals tasks) = ⊥
AsksMission (tool_calls l) = ⊥

-- A card is shown and no tick is about to show one.
abbrev pub IsSettled : Tracker → Type 0
IsSettled t = (t.rendered ≡ true) × All AsksMission t.waiting

pub data Steps (t : Tracker) : Tracker → Type 0 where
  none_taken : Steps t t
  then_step : {u v : Tracker} → Steps t u → Step u v → Steps t v

-- What a step keeps of a settled poller: it is settled, and shows the same cards.
abbrev Keeps : List Approval → Tracker → Type 0
Keeps cards t = IsSettled t × (t.cards ≡ cards)

if-Keeps :
    {cards : List Approval} (b : Bool) (x y : Tracker)
    → (b ≡ true → Keeps cards x)
    → (b ≡ false → Keeps cards y)
    → Keeps cards (if b then x else y)
if-Keeps true x y h k = h refl
if-Keeps false x y h k = k refl

snapshot-Keeps :
    {cards : List Approval} (r : Reply Snapshot) (t : Tracker)
    → Keeps cards t
    → Keeps cards (snapshot_arrives r t)
unfolding snapshot_arrives ensure_card
snapshot-Keeps (err m) t h = h
snapshot-Keeps (ok s) t h =
    if-Keeps t.stopped _ _ (λ _. h)
      (λ _.
        if-Keeps (s.mission.status =ˢ "waiting_approval") _ _
          (λ _. if-Keeps t.rendered _ _ (λ _. h) (λ e. absurd (ground (arith, e, h.0.0))))
          (λ _.
            if-Keeps (one_of ("blocked" ∷ "retrying" ∷ []) s.mission.status) _ _ (λ _. h)
              (λ _. if-Keeps (is_terminal s.mission.status) _ _ (λ _. h) (λ _. h))))

resume-Keeps :
    {cards : List Approval} (w : Waiting) (a : Answer) (t : Tracker)
    → AsksMission w
    → Keeps cards t
    → Keeps cards (resume w a t)
unfolding resume
resume-Keeps mission (snapshot r) t q h = snapshot-Keeps r t h
resume-Keeps mission (approval_list r) t q h = h
resume-Keeps mission (call_ids c) t q h = h
resume-Keeps (approvals tasks) a t q h = absurd q
resume-Keeps (tool_calls l) a t q h = absurd q

All-split :
    (before rest : List Waiting) (w : Waiting)
    → All AsksMission (before ++ w ∷ rest)
    → AsksMission w × All AsksMission (before ++ rest)
All-split [] rest w h = (h.0, h.1)
All-split (x ∷ before) rest w h = let k = All-split before rest w h.1 in (k.0, (h.0, k.1))

Step-Keeps : {t u : Tracker} {cards : List Approval} → Step t u → Keeps cards t → Keeps cards u
unfolding start_tick
Step-Keeps {t} timer ((r, a), e) =
    if-Keeps (t.stopped || not t.ticking) _ _ (λ _. ((r, a), e)) (λ _. ((r, (tt, a)), e))
Step-Keeps {t} (arrives before rest w answer q) ((r, a), e) =
    let k = All-split before rest w (subst (λ l. All AsksMission l) q a) in
    resume-Keeps w answer (record t { waiting = before ++ rest }) k.0 ((r, k.1), e)

-- Once a card is shown and no tick is about to show one, the cards never change again, whatever
-- the backend answers: a second approval that the mission needs gets no card.
pub Steps-keep_cards : {t u : Tracker} → IsSettled t → Steps t u → u.cards ≡ t.cards
Steps-keep_cards h s = (go h s).1
  where
    go : {t u : Tracker} → IsSettled t → Steps t u → Keeps t.cards u
    go h none_taken = (h, refl)
    go h (then_step s e) = Step-Keeps e (go h s)
