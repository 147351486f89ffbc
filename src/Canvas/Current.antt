-- ===== src/Canvas/Current.antt =====
-- When the view `firma` of api/static/org-canvas.js is drawn anew.
use hufi_agents.Prelude.{
  ◌≡◌, refl, sym, ap, ◌∙◌, String, Bool, true, false, not, List, [], ◌∷◌, Option, none, some,
  if◌then◌else◌, arith,
}
use hufi_agents.Js.Text.{Text}
use hufi_agents.OrgData.Types.{Agent, State}
use hufi_agents.Canvas.Elements.{Subview, organisation, teams, projekte, ressourcen, liste}
use hufi_agents.Canvas.Rows.{Row, SortState, sort_by}
use hufi_agents.Canvas.View.{
  Canvas, drawn, stage_for, refresh, banner_for, same, set_subview, mount, on_show, on_hide,
  data_change, is_list, redraw_list, search_for, click_column, agents_change,
}

-- What happens to the view. The buttons are there once it is mounted.
pub data Event : Type 0 where
  shows : (wide : Bool) → Event
  hides : Event
  picks : Subview → Event
  types : Text → Event
  clicks : (key : String) → Event
  data_come : Option State → Event
  agents_come : List Agent → Event

unfoldable pub initial : Option State → List Agent → Canvas
initial st agents = record {
  data_now = st;
  agents_now = agents;
  search = [];
  sorting = record { key = "name"; ascending = true };
  subview = organisation;
  visible = false;
  mounted = false;
  dirty = false;
  screen = none;
}

module _ (in_order : SortState → List Row → List Row) where
  unfoldable pub after : Event → Canvas → Canvas
  after (shows wide) c = on_show in_order wide c
  after hides c = on_hide in_order c
  after (picks v) c = if c.mounted then set_subview in_order v c else c
  after (types q) c = if c.mounted then search_for in_order q c else c
  after (clicks key) c = if c.mounted then click_column in_order key c else c
  after (data_come st) c = data_change in_order st c
  after (agents_come l) c = agents_change in_order l c

  unfoldable pub run : List Event → Canvas → Canvas
  run [] c = c
  run (e ∷ es) c = run es (after e c)

  -- The screen is what would be drawn now, but for the agents, which are those of some earlier time.
  abbrev pub IsDrawn : Canvas → Type 0
  IsDrawn c = (l : List Agent) × (c.screen ≡ some (drawn in_order (record c { agents_now = l })))

  abbrev Inv : Canvas → Type 0
  Inv c =
      (c.visible ≡ true → (c.mounted ≡ true) × (c.dirty ≡ false))
      × (c.mounted ≡ true → c.dirty ≡ false → IsDrawn c)

  if-Inv :
      (b : Bool) (x y : Canvas)
      → (b ≡ true → Inv x)
      → (b ≡ false → Inv y)
      → Inv (if b then x else y)
  if-Inv true x y h k = h refl
  if-Inv false x y h k = k refl

  refresh-Inv : (c : Canvas) → (c.visible ≡ true → c.mounted ≡ true) → Inv (refresh in_order c)
  unfolding refresh stage_for
  refresh-Inv c h = (λ v. (h v, refl), λ m d. (c.agents_now, refl))

  on_show-Inv : (wide : Bool) (c : Canvas) → Inv c → Inv (on_show in_order wide c)
  unfolding on_show mount refresh banner_for stage_for
  on_show-Inv wide c i =
      if-Inv (not c.mounted) _ _
        (λ _.
          refresh-Inv
            (record c {
              visible = true;
              subview = if wide then organisation else liste;
              mounted = true;
            })
            (λ _. refl))
        (λ m.
          let t : c.mounted ≡ true = ground (arith, m) in
          if-Inv c.dirty _ _ (λ _. refresh-Inv (record c { visible = true }) (λ _. t))
            (λ d. (λ _. (t, d), i.1)))

  data_change-Inv : (st : Option State) (c : Canvas) → Inv c → Inv (data_change in_order st c)
  unfolding data_change refresh banner_for stage_for
  data_change-Inv st c i =
      if-Inv (not c.mounted) _ _
        (λ m. (λ v. absurd (ground (arith, m, i.0 v)), λ t. absurd (ground (arith, m, t))))
        (λ m.
          if-Inv c.visible _ _
            (λ v. refresh-Inv (record c { data_now = st }) (λ _. ground (arith, m)))
            (λ v. (λ w. absurd (ground (arith, v, w)), λ t d. absurd (ground (arith, d)))))

  -- Without the list, neither the search text nor the order of the list can be seen.
  stage-graph :
      (c : Canvas) (q : Text) (o : SortState) (st : Option State)
      → is_list c.subview ≡ false
      → stage_for in_order (record c { search = q; sorting = o }) st ≡ stage_for in_order c st
  unfolding stage_for
  stage-graph c q o none h = refl
  stage-graph c q o (some st) h = by_subview c.subview refl
    where
      by_subview :
          (v : Subview)
          → c.subview ≡ v
          → stage_for in_order (record c { search = q; sorting = o }) (some st)
            ≡ stage_for in_order c (some st)
      by_subview organisation e = rw e refl
      by_subview teams e = rw e refl
      by_subview projekte e = rw e refl
      by_subview ressourcen e = rw e refl
      by_subview liste e = absurd (ground (arith, rw e at h))

  -- A change of the search text or the order, and the list drawn anew.
  redraw-Inv :
      (c : Canvas) (q : Text) (o : SortState)
      → Inv c
      → Inv (redraw_list in_order (record c { search = q; sorting = o }))
  unfolding stage_for
  redraw-Inv c q o i =
      if-Inv (is_list c.subview) _ _
        (λ _. (i.0, λ m d. let k = i.1 m d in (c.agents_now, rw k.1 refl)))
        (λ h. (
          i.0,
          λ m d.
              let k = i.1 m d in
              (
                k.0,
                k.1
                    ∙ sym (
                        ap
                          (λ x. some (record {
                            banner = banner_for c.data_now;
                            marked = c.subview;
                            stage = x;
                          }))
                          (stage-graph (record c { agents_now = k.0 }) q o c.data_now h)),
              ),
        ))

  click-Inv : (key : String) (c : Canvas) → Inv c → Inv (click_column in_order key c)
  unfolding click_column
  click-Inv key c i =
      if-Inv (is_list c.subview) _ _ (λ _. redraw-Inv c c.search (sort_by key c.sorting) i) (λ _. i)

  after-Inv : (e : Event) (c : Canvas) → Inv c → Inv (after e c)
  unfolding after on_hide set_subview search_for agents_change stage_for
  after-Inv (shows wide) c i = on_show-Inv wide c i
  after-Inv hides c i = (λ v. absurd (ground (arith, v)), i.1)
  after-Inv (picks v) c i =
      if-Inv c.mounted _ _
        (λ m.
          if-Inv (same v c.subview) _ _ (λ _. i)
            (λ _. refresh-Inv (record c { subview = v }) (λ _. m)))
        (λ _. i)
  after-Inv (types q) c i = if-Inv c.mounted _ _ (λ _. redraw-Inv c q c.sorting i) (λ _. i)
  after-Inv (clicks key) c i = if-Inv c.mounted _ _ (λ _. click-Inv key c i) (λ _. i)
  after-Inv (data_come st) c i = data_change-Inv st c i
  after-Inv (agents_come l) c i = i

  run-Inv : (es : List Event) (c : Canvas) → Inv c → Inv (run es c)
  unfolding run
  run-Inv [] c i = i
  run-Inv (e ∷ es) c i = run-Inv es (after e c) (after-Inv e c i)

  initial-Inv : (st : Option State) (l : List Agent) → Inv (initial st l)
  unfolding initial
  initial-Inv st l = (λ v. absurd (ground (arith, v)), λ m d. absurd (ground (arith, m)))

-- After any events, whenever the view is visible, the banner, the marked button and the stage are
-- what is drawn for the current data, lens, search text and order; only the agents may be those of
-- an earlier time, since their module tells nobody of a change.
pub run-IsDrawn :
    (in_order : SortState → List Row → List Row) (st : Option State) (agents : List Agent)
    (es : List Event)
    → (run in_order es (initial st agents)).visible ≡ true
    → IsDrawn in_order (run in_order es (initial st agents))
run-IsDrawn in_order st agents es v =
    let i = run-Inv in_order es (initial st agents) (initial-Inv in_order st agents) in
    let k = i.0 v in i.1 k.0 k.1
