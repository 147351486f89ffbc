-- ===== src/Dialogs/Trap.antt =====
-- The keys of an open dialog: `openOverlay` of api/static/rooms.js.
use hufi_agents.Prelude.{
  ℕ, zero, suc, ◌+◌, ◌-◌, ◌<◌, ◌≡◌, refl, ◌∙◌, Bool, true, false, ◌&&◌, not, ◌==◌, ltb,
  if◌then◌else◌, inl, inr, Bool-cases, arith,
}

-- Where the focus is: on a control of the dialog, known by its position, or outside of it.
pub data Focus : Type 0 where
  inside : ℕ → Focus
  outside : Focus

pub record Dialog : Type 0 where
  pub is_open : Bool
  pub controls : ℕ
  pub focus : Focus

pub data Key : Type 0 where
  escape : Key
  tab : (shift : Bool) → Key
  other : Key

-- What the browser does with a Tab that is not prevented: the neighbour in the order of the page,
-- where the dialog stands last.
abbrev pub move : (shift : Bool) → (controls : ℕ) → Focus → Focus
move true n (inside i) = if i == 0 then outside else inside (i - 1)
move false n (inside i) = if ltb (i + 1) n then inside (i + 1) else outside
move _ n outside = outside

abbrev pub is_at : ℕ → Focus → Bool
is_at k (inside i) = i == k
is_at k outside = false

-- `onKeydown`
unfoldable pub on_keydown : Key → Dialog → Dialog
on_keydown escape d = record d { is_open = false }
on_keydown (tab shift) d =
    if d.controls == 0
    then record d { focus = move shift d.controls d.focus }
    else if shift && is_at 0 d.focus
    then record d { focus = inside (d.controls - 1) }
    else if not shift && is_at (d.controls - 1) d.focus
    then record d { focus = inside 0 }
    else record d { focus = move shift d.controls d.focus }
on_keydown other d = d

-- The first control has the focus when the dialog opens.
unfoldable pub opened : ℕ → Dialog
opened n = record { is_open = true; controls = n; focus = if n == 0 then outside else inside 0 }

abbrev pub on_control : ℕ → ℕ → Dialog
on_control n i = record { is_open = true; controls = n; focus = inside i }

-- k presses of Tab, or of Shift and Tab.
pub press : Bool → ℕ → Dialog → Dialog
press shift zero d = d
press shift (suc k) d = press shift k (on_keydown (tab shift) d)

forward_step :
    (n i : ℕ) → suc i < n → on_keydown (tab false) (on_control n i) ≡ on_control n (suc i)
unfolding on_keydown
forward_step n i h = ground arith

forward_wrap : (n i : ℕ) → suc i ≡ n → on_keydown (tab false) (on_control n i) ≡ on_control n 0
unfolding on_keydown
forward_wrap n i h = ground arith

step_within : (n k i : ℕ) → k + i < n → press false k (on_control n i) ≡ on_control n (k + i)
unfolding press
step_within n zero i h = let e : 0 + i ≡ i = omega arith in rw e refl
step_within n (suc k) i h =
    let e : suc k + i ≡ k + suc i = omega arith in
    rw (forward_step n i (omega arith), e) (step_within n k (suc i) (omega arith))

press-add :
    (shift : Bool) (k l : ℕ) (d : Dialog) → press shift (k + l) d ≡ press shift l (press shift k d)
unfolding press
press-add shift zero l d = let e : 0 + l ≡ l = omega arith in rw e refl
press-add shift (suc k) l d =
    let e : suc k + l ≡ suc (k + l) = omega arith in rw e (press-add shift k l _)

-- To the last control, to the first, and on.
around :
    (n i j : ℕ)
    → i < n
    → j < n
    → press false ((n - 1 - i) + suc j) (on_control n i) ≡ on_control n j
unfolding press
around n i j hi hj =
    let last : (n - 1 - i) + i ≡ n - 1 = omega arith in
    let zeroth : j + 0 ≡ j = omega arith in
    press-add false (n - 1 - i) (suc j) (on_control n i)
    ∙ (rw (step_within n (n - 1 - i) i (omega arith), last, forward_wrap n (n - 1) (omega arith))
        (rw (step_within n j 0 (omega arith), zeroth)))

backward :
    (n i : ℕ)
    → i < n
    → on_keydown (tab false) (on_keydown (tab true) (on_control n i)) ≡ on_control n i
unfolding on_keydown
backward n i h = ground arith

-- With Tab alone each control of an open dialog is reached from each other one, in fewer presses
-- than the dialog has controls, and Tab takes back what Shift and Tab did; so the focus never
-- leaves the dialog.
pub tab_reaches :
    (n i j : ℕ)
    → i < n
    → j < n
    → ((k : ℕ) × (k < n) × (press false k (on_control n i) ≡ on_control n j))
      × (on_keydown (tab false) (on_keydown (tab true) (on_control n i)) ≡ on_control n i)
tab_reaches n i j hi hj = (reach, backward n i hi)
  where
    reach : (k : ℕ) × (k < n) × (press false k (on_control n i) ≡ on_control n j)
    reach = elim (Bool-cases (ltb j i)) [
      | inl e ↦ ((n - 1 - i) + suc j, ground arith, around n i j hi hj)
      | inr e ↦
          let q : (j - i) + i ≡ j = ground arith in
          (j - i, ground arith, step_within n (j - i) i (omega arith) ∙ (rw q refl))
    ]
