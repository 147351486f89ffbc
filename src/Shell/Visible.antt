-- ===== src/Shell/Visible.antt =====
-- Which view of the shell can be seen: `Hufi.views.show` of api/static/nav.js.
use hufi_agents.Prelude.{
  ◌≡◌, refl, sym, ◌⊎◌, inl, inr, String, Bool, Bool-cases, true, false, not, List, [], ◌∷◌,
  Option-cases, ◌=ˢ◌, All, arith, eq_iff,
}
use hufi_agents.Shell.Panes.{hide_pane}
use hufi_agents.Shell.Views.{
  Section, NavButton, Nav, has_section, hide_if, set_hidden, set_active_nav_button, entry_of, leave,
  fail_if, mark_failed, enter, switch, close_for, show,
}

-- A section is hidden exactly when it is not that of the view.
abbrev pub IsHiddenUnless : String → Section → Type 0
IsHiddenUnless name s = s.is_hidden ≡ not (s.name =ˢ name)

abbrev pub IsPressedFor : String → NavButton → Type 0
IsPressedFor name b = b.is_current ≡ (b.view =ˢ name)

-- The current view has a section, its section is the one that is shown, and its button the one
-- that is marked.
abbrev pub IsConsistent : Nav → Type 0
IsConsistent nav =
    (has_section nav.current nav.sections ≡ true)
    × All (IsHiddenUnless nav.current) nav.sections
    × All (IsPressedFor nav.current) nav.buttons

hide-step :
    (current name : String) (s : Section)
    → IsHiddenUnless current s
    → IsHiddenUnless name (hide_if name false (hide_if current true s))
hide-step current name s h = elim (Bool-cases (s.name =ˢ current)) [
  | inl e ↦ elim (Bool-cases (s.name =ˢ name)) [
    | inl f ↦ rw (e, f, f) refl
    | inr f ↦ rw (e, f, f) refl
  ]
  | inr e ↦ elim (Bool-cases (s.name =ˢ name)) [
    | inl f ↦ rw (e, f, f) refl
    | inr f ↦ rw (e, f, f) (rw e at h)
  ]
]

hide-All :
    (current name : String) (l : List Section)
    → All (IsHiddenUnless current) l
    → All (IsHiddenUnless name) (set_hidden name false (set_hidden current true l))
hide-All current name [] h = tt
hide-All current name (s ∷ l) h = (hide-step current name s h.0, hide-All current name l h.1)

press-All :
    (name : String) (l : List NavButton) → All (IsPressedFor name) (set_active_nav_button name l)
unfolding set_active_nav_button
press-All name [] = tt
press-All name (b ∷ l) = (refl, press-All name l)

name-hide_if : (name : String) (b : Bool) (s : Section) → (hide_if name b s).name ≡ s.name
name-hide_if name b s = elim (Bool-cases (s.name =ˢ name)) [ inl e ↦ rw e refl | inr e ↦ rw e refl ]

has_section-set_hidden :
    (k name : String) (b : Bool) (l : List Section)
    → has_section k (set_hidden name b l) ≡ has_section k l
has_section-set_hidden k name b [] = refl
has_section-set_hidden k name b (s ∷ l) =
    rw (name-hide_if name b s, has_section-set_hidden k name b l) refl

-- What `show` makes of a consistent shell: the wanted view is current, and the pane is closed.
abbrev Entered : String → Nav → Type 0
Entered name nav = (nav.current ≡ name) × IsConsistent nav × (nav.right_pane.pane_open ≡ false)

fail-step : (k name : String) (s : Section) → IsHiddenUnless k s → IsHiddenUnless k (fail_if name s)
fail-step k name s h = elim (Bool-cases (s.name =ˢ name)) [ inl e ↦ rw e h | inr e ↦ rw e h ]

fail-All :
    (k name : String) (l : List Section)
    → All (IsHiddenUnless k) l
    → All (IsHiddenUnless k) (mark_failed name l)
fail-All k name [] h = tt
fail-All k name (s ∷ l) h = (fail-step k name s h.0, fail-All k name l h.1)

name-fail_if : (name : String) (s : Section) → (fail_if name s).name ≡ s.name
name-fail_if name s = elim (Bool-cases (s.name =ˢ name)) [ inl e ↦ rw e refl | inr e ↦ rw e refl ]

has_section-mark_failed :
    (k name : String) (l : List Section) → has_section k (mark_failed name l) ≡ has_section k l
has_section-mark_failed k name [] = refl
has_section-mark_failed k name (s ∷ l) =
    rw (name-fail_if name s, has_section-mark_failed k name l) refl

-- Leaving a view changes no section, no button and not the current view.
leave-keeps :
    (k : String) (nav : Nav)
    → ((leave k nav).sections ≡ nav.sections)
      × ((leave k nav).buttons ≡ nav.buttons)
      × ((leave k nav).current ≡ nav.current)
leave-keeps k nav = elim (Option-cases (entry_of k nav.registry)) [
  | inl e ↦ rw (e, leave) (refl, refl, refl)
  | inr (x, e) ↦ elim (Bool-cases x.has_on_hide) [
    | inl h ↦ rw (e, leave, h) (refl, refl, refl)
    | inr h ↦ rw (e, leave, h) (refl, refl, refl)
  ]
]

switch-Entered :
    (name : String) (nav : Nav)
    → has_section name nav.sections ≡ true
    → All (IsHiddenUnless nav.current) nav.sections
    → Entered name (switch name nav)
unfolding hide_pane
switch-Entered name nav h a = (
  refl,
  (
    rw
        (
          has_section-set_hidden name name false (set_hidden nav.current true nav.sections),
          has_section-set_hidden name nav.current true nav.sections,
        )
        h,
    hide-All nav.current name nav.sections a,
    press-All name nav.buttons,
  ),
  refl,
)

enter-Entered : (name : String) (nav : Nav) → Entered name nav → Entered name (enter name nav)
enter-Entered name nav (c, (s, a, b), p) = elim (Option-cases (entry_of name nav.registry)) [
  | inl e ↦ rw (e, enter) (c, (s, a, b), p)
  | inr (x, e) ↦ elim (Bool-cases x.has_on_show) [
    | inr h ↦ rw (e, enter, h) (c, (s, a, b), p)
    | inl h ↦ elim (Bool-cases x.throws) [
      | inr t ↦ rw (e, enter, h, t) (c, (s, a, b), p)
      | inl t ↦
          rw (e, enter, h, t)
            (
              c,
              (
                rw (has_section-mark_failed nav.current name nav.sections) s,
                fail-All nav.current name nav.sections a,
                b,
              ),
              p,
            )
    ]
  ]
]

close-Entered : (name : String) (nav : Nav) → Entered name nav → Entered name (close_for name nav)
close-Entered name nav h = elim (Bool-cases (name =ˢ "hufi")) [ inl e ↦ rw e h | inr e ↦ rw e h ]

left-Entered :
    (name k : String) (nav : Nav)
    → has_section name nav.sections ≡ true
    → All (IsHiddenUnless nav.current) nav.sections
    → Entered name (switch name (leave k nav))
left-Entered name k nav h a =
    let q = leave-keeps k nav in switch-Entered name (leave k nav) (rw q.0 h) (rw (q.0, q.2) a)

show-moved :
    (name : String) (nav : Nav)
    → has_section name nav.sections ≡ true
    → (name =ˢ nav.current) ≡ false
    → show name nav ≡ close_for name (enter name (switch name (leave nav.current nav)))
unfolding show
show-moved name nav h e = rw (h, e, show) refl

show-same :
    (name : String) (nav : Nav)
    → (has_section name nav.sections ≡ false) ⊎ ((name =ˢ nav.current) ≡ true)
    → show name nav ≡ nav
unfolding show
show-same name nav (inl h) = rw (h, show) refl
show-same name nav (inr e) = elim (Bool-cases (has_section name nav.sections)) [
  | inl h ↦ rw (h, e, show) refl
  | inr h ↦ rw (h, show) refl
]

-- From a consistent shell, showing a name without a section changes nothing; showing one that has a
-- section makes it the current view: its section is then the only one shown, its button the only
-- one marked, and, unless it was the current view already, the right pane is closed.
pub show-Entered :
    (name : String) (nav : Nav)
    → IsConsistent nav
    → ((has_section name nav.sections ≡ false) × (show name nav ≡ nav))
      ⊎ (((show name nav).current ≡ name)
          × IsConsistent (show name nav)
          × ((name ≡ nav.current) ⊎ ((show name nav).right_pane.pane_open ≡ false)))
show-Entered name nav (s, a, b) = elim (Bool-cases (has_section name nav.sections)) [
  | inr h ↦ inl (h, show-same name nav (inl h))
  | inl h ↦ elim (Bool-cases (name =ˢ nav.current)) [
    | inl e ↦
        let q : name ≡ nav.current = ground (arith, e, eq_iff name nav.current) in
        rw (show-same name nav (inr e)) (inr (sym q, (s, a, b), inl q))
    | inr e ↦
        let (c, i, p) =
          close-Entered name _ (enter-Entered name _ (left-Entered name nav.current nav h a)) in
        rw (show-moved name nav h e) (inr (c, i, inr p))
  ]
]
