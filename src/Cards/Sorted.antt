-- ===== src/Cards/Sorted.antt =====
-- The order in which api/static/cards.js shows the resources.
use hufi_agents.Prelude.{
  ℕ, String, ◌≡◌, Bool, true, false, ◌&&◌, List, leb, select, IsSorted, IsOrder, sort-IsSorted,
  select-sort, arith,
}
use hufi_agents.OrgData.Types.{Resource, State}
use hufi_agents.Cards.Grid.{
  SortBy, by_name, recent, Controls, combined, matches, time_of, in_order, shown_resources,
}

leb_total : (a b : ℕ) → leb a b ≡ false → leb b a ≡ true
leb_total a b h = ground arith

leb_trans : (a b c : ℕ) → leb a b ≡ true → leb b c ≡ true → leb a c ≡ true
leb_trans a b c h k = ground arith

module _ (le : String → String → Bool) (o : IsOrder le) where
  in_order-IsOrder : (by : SortBy) → IsOrder (in_order le by)
  in_order-IsOrder by_name = record {
    total = λ x y h. o.total x.name y.name h;
    trans = λ x y z h k. o.trans x.name y.name z.name h k;
  }
  in_order-IsOrder recent = record {
    total = λ x y h. leb_total (time_of y) (time_of x) h;
    trans = λ x y z h k. leb_trans (time_of z) (time_of y) (time_of x) k h;
  }

  -- The resources whose place beside r the order leaves open.
  abbrev pub tied : SortBy → Resource → Resource → Bool
  tied by r x = in_order le by r x && in_order le by x r

  tied_order :
      (by : SortBy) (r x y : Resource)
      → tied by r x ≡ true
      → tied by r y ≡ true
      → in_order le by x y ≡ true
  tied_order by r x y h k = (in_order-IsOrder by).trans x r y (both_right _ _ h) (both_left _ _ k)
    where
      both_left : (a b : Bool) → (a && b) ≡ true → a ≡ true
      both_left a b h = ground arith

      both_right : (a b : Bool) → (a && b) ≡ true → b ≡ true
      both_right a b h = ground arith

  -- With an order of names that is total and transitive, the grid shows the resources in the chosen
  -- order, and those of one place in the order are the ones that match the filter and the search,
  -- in the order in which the organisation and the registry have them.
  pub shown_resources_lem :
      (c : Controls) (st : State) (registry : List Resource)
      → IsSorted (in_order le c.sort_by) (shown_resources le c st registry)
        × ((r : Resource)
            → select (tied c.sort_by r) (shown_resources le c st registry)
              ≡ select (tied c.sort_by r) (select (matches c) (combined st registry)))
  unfolding shown_resources
  shown_resources_lem c st registry = (
    sort-IsSorted (in_order le c.sort_by) (in_order-IsOrder c.sort_by) _,
    λ r. select-sort (in_order le c.sort_by) (tied c.sort_by r) (tied_order c.sort_by r) _,
  )
