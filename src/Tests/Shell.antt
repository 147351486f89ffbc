-- ===== src/Tests/Shell.antt =====
-- Examples of the shell and the avatars: api/static/app.js, nav.js and agents.js.
use hufi_agents.Prelude.{ℕ, ◌≡◌, ◌+◌, refl, ◌⊎◌, true, false, [], ◌∷◌, All, length}
use hufi_agents.Js.Text.{Text, units}
use hufi_agents.Shell.Escape.{esc, IsPlain, decode, esc_lem}
use hufi_agents.Shell.Views.{Nav, show, has_section}
use hufi_agents.Shell.Visible.{IsConsistent, show-Entered}

abbrev tag : Text
tag = units "<b title='x'>"

esc_lem_example : All IsPlain (esc tag) × ((k : ℕ) → decode (length tag + k) (esc tag) ≡ tag)
esc_lem_example = esc_lem tag

escaped : esc (units "<a>") ≡ units "&lt;a&gt;"
unfolding esc
escaped = refl

-- The page as it is loaded, with two of its views.
abbrev at_start : Nav
at_start = record {
  current = "hufi";
  sections =
      record { name = "hufi"; is_hidden = false; failed = false }
      ∷ record { name = "firma"; is_hidden = true; failed = false }
      ∷ [];
  buttons =
      record { view = "hufi"; text = units "Hufi"; is_current = true }
      ∷ record { view = "firma"; text = units "Firma"; is_current = false }
      ∷ [];
  registry =
      record {
        name = "firma";
        has_on_show = true;
        has_on_hide = true;
        throws = false;
        mounted = false;
      }
      ∷ [];
  active_view = "hufi";
  topbar_title = units "Hufi";
  right_pane = record { title = []; pane_open = true; scrim_visible = true; shell_open = true };
  sidebar = record { is_open = false; scrim_visible = false };
  calls = [];
}

show-Entered_example :
    ((has_section "firma" at_start.sections ≡ false) × (show "firma" at_start ≡ at_start))
    ⊎ (((show "firma" at_start).current ≡ "firma")
        × IsConsistent (show "firma" at_start)
        × (("firma" ≡ at_start.current) ⊎ ((show "firma" at_start).right_pane.pane_open ≡ false)))
show-Entered_example = show-Entered "firma" at_start (refl, (refl, (refl, tt)), (refl, (refl, tt)))
