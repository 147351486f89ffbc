-- ===== src/Canvas/Keyboard.antt =====
-- Dragging a node onto another, and the keyboard dialog: `resolveDrop` and
-- `SOURCE_TYPE_OPTIONS` of api/static/org-canvas.js.
use hufi_agents.Prelude.{
  ◌⊎◌, inl, inr, ◌≡◌, refl, String, Bool-cases, true, false, List, [], ◌∷◌, ◌=ˢ◌, select, map,
  arith, eq_iff,
}
use hufi_agents.Js.Text.{Text}
use hufi_agents.OrgData.Store.{Edge}
use hufi_agents.Canvas.Connect.{
  Item, DropAction, connect, confirm, say, choice_edge, resolve_drop, confirm_edge,
  source_type_options, option_edge,
}

-- The relationships that the dialog for an access can end in.
abbrev access_edges : Item → Item → List Edge
access_edges s t =
    choice_edge "responsible_for_resource" s t ∷ choice_edge "may_use_resource" s t ∷ []

-- The relationships that a drop can end in.
abbrev pub edges_of_drop : DropAction → List Edge
edges_of_drop (connect r a i b j message) =
    record {
      relationship_type = r;
      source_type = a;
      source_id = i;
      target_type = b;
      target_id = j;
      primary = true;
    }
    ∷ []
edges_of_drop (confirm s t) = access_edges s t
edges_of_drop (say message) = []

-- The relationships that the dialog of the node `s` offers with the node `t`.
abbrev pub offered_edges : Item → Item → List Edge
offered_edges s t =
    map (option_edge s t) (select (λ o. o.target_kind =ˢ t.kind) (source_type_options s.kind))

literal-cases : (l t : String) → (l ≡ t) ⊎ (((l =ˢ t) ≡ false) × ((t =ˢ l) ≡ false))
literal-cases l t = elim (Bool-cases (l =ˢ t)) [
  | inl e ↦ inl (ground (arith, eq_iff l t))
  | inr e ↦ inr (e, ground (arith, eq_iff l t, eq_iff t l))
]

-- The claim of `drop_dialog` for nodes given by their fields.
abbrev Agrees : String → String → String → String → Text → Text → Type 0
Agrees k l i j a b =
    edges_of_drop (
      resolve_drop (record { kind = k; id = i; label = a })
        (record { kind = l; id = j; label = b }))
    ≡ offered_edges (record { kind = k; id = i; label = a })
        (record { kind = l; id = j; label = b })

module _ (i j : String) (a b : Text) where
  agent_drop : (l : String) → Agrees "agent" l i j a b
  unfolding resolve_drop source_type_options confirm_edge
  agent_drop l = elim (literal-cases l "agent") [
    | inl e ↦ rw e refl
    | inr na ↦ elim (literal-cases l "team") [
      | inl e ↦ rw e refl
      | inr nt ↦ elim (literal-cases l "project") [
        | inl e ↦ rw e refl
        | inr np ↦ elim (literal-cases l "resource") [
          | inl e ↦ rw e refl
          | inr nr ↦ elim (literal-cases l "owner") [
            | inl e ↦ rw e refl
            | inr nw ↦ rw (na.0, na.1, nt.0, nt.1, np.0, np.1, nr.0, nr.1, nw.0) refl
          ]
        ]
      ]
    ]
  ]

  team_drop : (l : String) → Agrees "team" l i j a b
  unfolding resolve_drop source_type_options confirm_edge
  team_drop l = elim (literal-cases l "resource") [
    | inl e ↦ rw e refl
    | inr nr ↦ elim (literal-cases l "team") [
      | inl e ↦ rw e refl
      | inr nt ↦ rw (nr.0, nr.1, nt.0) refl
    ]
  ]

  drop_dialog_lem : (k l : String) → Agrees k l i j a b
  unfolding resolve_drop source_type_options
  drop_dialog_lem k l = elim (literal-cases k "agent") [
    | inl e ↦ rw e (agent_drop l)
    | inr na ↦ elim (literal-cases k "team") [
      | inl e ↦ rw e (team_drop l)
      | inr nt ↦ rw (na.0, nt.0) refl
    ]
  ]

-- For every two nodes, the relationships that dropping the first on the second can end in are,
-- in order, those that the edit dialog of the first node offers with the second one; what a drop
-- refuses, or does not know, the dialog does not offer either.
pub drop_dialog : (s t : Item) → edges_of_drop (resolve_drop s t) ≡ offered_edges s t
drop_dialog s t = drop_dialog_lem s.id t.id s.label t.label s.kind t.kind
