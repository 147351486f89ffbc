-- ===== src/Js/Regex/Groups.antt =====
-- Patterns without groups, and the captures.
use hufi_agents.Prelude.{◌≡◌, refl, ◌∙◌, ap, inl, inr}
use hufi_agents.Js.Regex.{
  Regex, empty, start, finish, boundary, unit, seq, alt, star, lazy, group, not_ahead, Cursor,
}
use hufi_agents.Js.Regex.Derives.{Derives, Rounds, enough, round}

abbrev pub NoGroups : Regex → Type 0
NoGroups (seq a b) = NoGroups a × NoGroups b
NoGroups (alt a b) = NoGroups a × NoGroups b
NoGroups (star r) = NoGroups r
NoGroups (lazy r) = NoGroups r
NoGroups (group i r) = ⊥
NoGroups _ = Unit

groups-Rounds :
    {R : Cursor → Cursor → Type 0} {s t : Cursor}
    → ((a b : Cursor) → R a b → b.groups ≡ a.groups)
    → Rounds R s t
    → t.groups ≡ s.groups
groups-Rounds keep enough = refl
groups-Rounds keep (round r less rs) = groups-Rounds keep rs ∙ keep _ _ r

pub groups-Derives : (r : Regex) → NoGroups r → (s t : Cursor) → Derives r s t → t.groups ≡ s.groups
groups-Derives empty n s t d = ap (λ (c : Cursor). c.groups) d
groups-Derives start n s t d = ap (λ (c : Cursor). c.groups) d.1
groups-Derives finish n s t d = ap (λ (c : Cursor). c.groups) d.1
groups-Derives boundary n s t d = ap (λ (c : Cursor). c.groups) d.1
groups-Derives (unit p) n s t d = ap (λ (c : Cursor). c.groups) d.4
groups-Derives (seq a b) n s t (m, d, e) = groups-Derives b n.1 m t e ∙ groups-Derives a n.0 s m d
groups-Derives (alt a b) n s t (inl d) = groups-Derives a n.0 s t d
groups-Derives (alt a b) n s t (inr d) = groups-Derives b n.1 s t d
groups-Derives (star r) n s t d = groups-Rounds (groups-Derives r n) d
groups-Derives (lazy r) n s t d = groups-Rounds (groups-Derives r n) d
groups-Derives (group i r) n s t d = absurd n
groups-Derives (not_ahead r) n s t d = ap (λ (c : Cursor). c.groups) d.1
