-- ===== src/Shell/Panes.antt =====
-- The right pane and the sidebar of api/static/app.js.
use hufi_agents.Prelude.{Bool, true, false, if◌then◌else◌}
use hufi_agents.Js.Text.{Text}

-- Three elements carry the state of the right pane.
pub record RightPane : Type 0 where
  pub title : Text
  pub pane_open : Bool
  pub scrim_visible : Bool
  pub shell_open : Bool

unfoldable pub show_pane : Text → RightPane → RightPane
show_pane title p = record {
  title = title;
  pane_open = true;
  scrim_visible = true;
  shell_open = true;
}

unfoldable pub hide_pane : RightPane → RightPane
hide_pane p = record p { pane_open = false; scrim_visible = false; shell_open = false }

-- The button of the pane.
unfoldable pub toggle_pane : RightPane → RightPane
unfolding hide_pane
toggle_pane p =
    if p.pane_open
    then hide_pane p
    else record p { pane_open = true; scrim_visible = true; shell_open = true }

pub record Sidebar : Type 0 where
  pub is_open : Bool
  pub scrim_visible : Bool

unfoldable pub open_sidebar : Sidebar → Sidebar
open_sidebar s = record { is_open = true; scrim_visible = true }

unfoldable pub close_sidebar : Sidebar → Sidebar
close_sidebar s = record { is_open = false; scrim_visible = false }

unfoldable pub toggle_sidebar : Sidebar → Sidebar
unfolding open_sidebar close_sidebar
toggle_sidebar s = if s.is_open then close_sidebar s else open_sidebar s
