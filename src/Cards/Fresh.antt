-- ===== src/Cards/Fresh.antt =====
-- What the view "Projekte" of api/static/cards.js shows is what is drawn for the data of now.
use hufi_agents.Prelude.{String, ◌≡◌, Bool, true, List, [], Option, none, some}
use hufi_agents.OrgData.Types.{Agent}
use hufi_agents.OrgData.Store.{Store}
use hufi_agents.Cards.Lookup.{mock_notice}
use hufi_agents.Cards.Grid.{render_resources, render_projects}
use hufi_agents.Cards.View.{Visit, Page}

module _ (le : String → String → Bool) where
  -- Both grids and the notice are drawn for the data of now, with the controls and the registry of
  -- the visit.
  pub record IsFresh (s : Store) (drawn_agents : List Agent) (v : Visit) : Type 0 where
    pub resources_lem : v.resources ≡ render_resources le v.controls s.state v.failed v.registry
    pub projects_lem : v.projects ≡ render_projects drawn_agents s
    pub notice_lem : v.notice ≡ mock_notice s []

  abbrev pub Fresh : Store → List Agent → Option Visit → Type 0
  Fresh s l none = Unit
  Fresh s l (some v) = IsFresh s l v

  abbrev Inv : Page → Type 0
  Inv p = p.is_subscribed ≡ true → Fresh p.store p.drawn_agents p.latest
