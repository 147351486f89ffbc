-- ===== src/Chat/Decision.antt =====
-- Deciding an approval in api/static/chat.js: the buttons of `renderApprovalCard`.
use hufi_agents.Prelude.{
  ◌≡◌, ◌≢◌, refl, ap, Bool, true, false, ◌&&◌, ◌⊎◌, inl, inr, List, [], ◌∷◌, ◌++◌, Option, none,
  some, Option-cases, if◌then◌else◌, arith,
}
use hufi_agents.Js.Text.{Text, units}
use hufi_agents.OrgData.Errors.{translate}
use hufi_agents.OrgData.Store.{Reply, ok, err}

pub data Action : Type 0 where
  approve deny : Action

-- The card: whether its buttons can be clicked and seen, its status, and the requests that were
-- made and answered, latest first.
pub record ApprovalCard : Type 0 where
  pub enabled : Bool
  pub actions_shown : Bool
  pub status : Option Text
  pub asked : Option Action
  pub decided : List Action

unfoldable pub new_card : ApprovalCard
new_card = record {
  enabled = true;
  actions_shown = true;
  status = none;
  asked = none;
  decided = [];
}

abbrev pub decided_label : Action → Text
decided_label approve = units "Freigegeben. Hufi macht weiter."
decided_label deny = units "Abgelehnt. Hufi sucht einen anderen Weg."

-- A click: both buttons are disabled while the request waits.
unfoldable pub click : Action → ApprovalCard → ApprovalCard
click a c = if c.enabled && c.actions_shown then record c { enabled = false; asked = some a } else c

abbrev settle : Action → Reply (Unit {0}) → ApprovalCard → ApprovalCard
settle a (ok u) c = record c {
  actions_shown = false;
  status = some (decided_label a);
  asked = none;
  decided = a ∷ c.decided;
}
settle a (err m) c = record c {
  enabled = true;
  status = some (units "Fehlgeschlagen: " ++ translate m);
  asked = none;
}

-- The answer to the request that waits.
unfoldable pub decide : Reply (Unit {0}) → ApprovalCard → ApprovalCard
decide r c = elim c.asked [ none ↦ c | some a ↦ settle a r c ]

pub data CardEvent : Type 0 where
  clicked : Action → CardEvent
  answered : Reply (Unit {0}) → CardEvent

unfoldable pub after : CardEvent → ApprovalCard → ApprovalCard
after (clicked a) c = click a c
after (answered r) c = decide r c

unfoldable pub run : List CardEvent → ApprovalCard → ApprovalCard
run [] c = c
run (e ∷ es) c = run es (after e c)

-- Open: nothing is decided, and the buttons can be clicked exactly when no request waits. Closed:
-- one decision was accepted, it is what the card says, and no button can be clicked again.
abbrev pub IsOpen : ApprovalCard → Type 0
IsOpen c =
    (c.decided ≡ [])
    × (c.actions_shown ≡ true)
    × ((c.enabled ≡ true) × (c.asked ≡ none) ⊎ ((c.enabled ≡ false) × (c.asked ≢ none)))

abbrev pub IsClosed : ApprovalCard → Type 0
IsClosed c =
    (a : Action) × (c.decided ≡ a ∷ [])
    × (c.status ≡ some (decided_label a))
    × (c.actions_shown ≡ false)
    × (c.asked ≡ none)

abbrev IsSound : ApprovalCard → Type 0
IsSound c = IsOpen c ⊎ IsClosed c

if-IsSound :
    (b : Bool) (x y : ApprovalCard)
    → (b ≡ true → IsSound x)
    → (b ≡ false → IsSound y)
    → IsSound (if b then x else y)
if-IsSound true x y h k = h refl
if-IsSound false x y h k = k refl

click-IsSound : (a : Action) (c : ApprovalCard) → IsSound c → IsSound (click a c)
unfolding click
click-IsSound a c (inl (d, s, o)) =
    if-IsSound (c.enabled && c.actions_shown) _ _
      (λ _. inl (d, s, inr (refl, λ q. ground (arith, q)))) (λ _. inl (d, s, o))
click-IsSound a c (inr (b, d, t, s, q)) =
    if-IsSound (c.enabled && c.actions_shown) _ _ (λ e. absurd (ground (arith, e, s)))
      (λ _. inr (b, d, t, s, q))

settle-IsSound :
    (a : Action) (r : Reply (Unit {0})) (c : ApprovalCard)
    → c.decided ≡ []
    → c.actions_shown ≡ true
    → IsSound (settle a r c)
settle-IsSound a (ok u) c d s = inr (a, ap (λ l. a ∷ l) d, refl, refl, refl)
settle-IsSound a (err m) c d s = inl (d, s, inl (refl, refl))

asked-IsSound :
    (a : Action) (r : Reply (Unit {0})) (c : ApprovalCard)
    → c.asked ≡ some a
    → IsSound c
    → IsSound (settle a r c)
asked-IsSound a r c e (inl (d, s, o)) = settle-IsSound a r c d s
asked-IsSound a r c e (inr (b, d, t, s, q)) = absurd (ground (arith, e, q))

decide-IsSound : (r : Reply (Unit {0})) (c : ApprovalCard) → IsSound c → IsSound (decide r c)
unfolding decide
decide-IsSound r c i = elim (Option-cases c.asked) [
  | inl e ↦ rw (e, decide) i
  | inr (a, e) ↦ rw (e, decide) (asked-IsSound a r c e i)
]

run-IsSound : (es : List CardEvent) (c : ApprovalCard) → IsSound c → IsSound (run es c)
unfolding run after
run-IsSound [] c i = i
run-IsSound (clicked a ∷ es) c i = run-IsSound es (click a c) (click-IsSound a c i)
run-IsSound (answered r ∷ es) c i = run-IsSound es (decide r c) (decide-IsSound r c i)

-- Whatever is clicked and answered, in any order, an approval card is open, with nothing decided
-- and buttons that can be clicked exactly when no request waits; or it is closed, after exactly one
-- decision that the backend accepted, which is the one that the card tells.
pub run_decides_once : (es : List CardEvent) → IsOpen (run es new_card) ⊎ IsClosed (run es new_card)
run_decides_once es =
    run-IsSound es new_card (unfold new_card in inl (refl, refl, inl (refl, refl)))
