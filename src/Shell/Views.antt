-- ===== src/Shell/Views.antt =====
-- The views of api/static/nav.js: `Hufi.views`.
use hufi_agents.Prelude.{
  String, Bool, true, false, not, List, [], ◌∷◌, Option, none, some, ◌=ˢ◌, if◌then◌else◌, map, any,
  find,
}
use hufi_agents.Js.Text.{Text, units, trim}
use hufi_agents.Shell.Panes.{RightPane, hide_pane, Sidebar, close_sidebar}

-- A `<section data-view>`: what it says when its view could not be shown is `failed`.
pub record Section : Type 0 where
  pub name : String
  pub is_hidden : Bool
  pub failed : Bool

pub record NavButton : Type 0 where
  pub view : String
  pub text : Text
  pub is_current : Bool

-- An entry of `registry`: whether there are handlers, and whether `onShow` throws.
pub record Entry : Type 0 where
  pub name : String
  pub has_on_show : Bool
  pub has_on_hide : Bool
  pub throws : Bool
  pub mounted : Bool

-- The calls of the handlers, latest first.
pub data Call : Type 0 where
  on_show on_hide : String → Call

pub record Nav : Type 0 where
  pub current : String
  pub sections : List Section
  pub buttons : List NavButton
  pub registry : List Entry
  pub active_view : String
  pub topbar_title : Text
  pub right_pane : RightPane
  pub sidebar : Sidebar
  pub calls : List Call

abbrev pub has_section : String → List Section → Bool
has_section name l = any (λ s. s.name =ˢ name) l

abbrev pub hide_if : String → Bool → Section → Section
hide_if name b s = if s.name =ˢ name then record s { is_hidden = b } else s

abbrev pub set_hidden : String → Bool → List Section → List Section
set_hidden name b = map (hide_if name b)

abbrev pub press : String → NavButton → NavButton
press name b = record b { is_current = b.view =ˢ name }

-- `setActiveNavButton`
unfoldable pub set_active_nav_button : String → List NavButton → List NavButton
set_active_nav_button name = map (press name)

abbrev pub entry_of : String → List Entry → Option Entry
entry_of name l = find (λ e. e.name =ˢ name) l

abbrev without : String → List Entry → List Entry
without name [] = []
without name (e ∷ l) = if e.name =ˢ name then l else e ∷ without name l

-- `register` writes the entry of that name anew.
unfoldable pub register : String → (has_on_show has_on_hide throws : Bool) → Nav → Nav
register name shows hides throws nav = record nav {
  registry =
      record {
        name = name;
        has_on_show = shows;
        has_on_hide = hides;
        throws = throws;
        mounted = false;
      }
      ∷ without name nav.registry;
}

-- `onHide` of the view that is left; an error in it is only logged.
abbrev pub leave : String → Nav → Nav
leave name nav = elim (entry_of name nav.registry) [
  | none ↦ nav
  | some e ↦ if e.has_on_hide then record nav { calls = on_hide name ∷ nav.calls } else nav
]

abbrev or_hufi : Text → Text
or_hufi [] = units "Hufi"
or_hufi (c ∷ t) = c ∷ t

-- `navButtons.find(…)?.textContent.trim() || 'Hufi'`
abbrev title_of : String → List NavButton → Text
title_of name l = elim (find (λ b. b.view =ˢ name) l) [
  | none ↦ units "Hufi"
  | some b ↦ or_hufi (trim b.text)
]

abbrev pub fail_if : String → Section → Section
fail_if name s = if s.name =ˢ name then record s { failed = true } else s

abbrev pub mark_failed : String → List Section → List Section
mark_failed name = map (fail_if name)

abbrev mark_mounted : String → List Entry → List Entry
mark_mounted name = map (λ e. if e.name =ˢ name then record e { mounted = true } else e)

abbrev shown_entry : String → Entry → Nav → Nav
shown_entry name e nav =
    if e.throws
    then record nav { sections = mark_failed name nav.sections }
    else record nav { registry = mark_mounted name nav.registry }

-- `onShow` of the view that is entered; an error in it is shown in its section.
abbrev pub enter : String → Nav → Nav
enter name nav = elim (entry_of name nav.registry) [
  | none ↦ nav
  | some e ↦
      if e.has_on_show
      then shown_entry name e (record nav { calls = on_show name ∷ nav.calls })
      else nav
]

-- What is switched between the two handlers.
abbrev pub switch : String → Nav → Nav
switch name nav = record nav {
  right_pane = hide_pane nav.right_pane;
  sections = set_hidden name false (set_hidden nav.current true nav.sections);
  active_view = name;
  buttons = set_active_nav_button name nav.buttons;
  topbar_title = title_of name nav.buttons;
  current = name;
}

abbrev pub close_for : String → Nav → Nav
close_for name nav =
    if name =ˢ "hufi" then nav else record nav { sidebar = close_sidebar nav.sidebar }

unfoldable pub show : String → Nav → Nav
show name nav =
    if not (has_section name nav.sections)
    then nav
    else if name =ˢ nav.current
    then nav
    else close_for name (enter name (switch name (leave nav.current nav)))
