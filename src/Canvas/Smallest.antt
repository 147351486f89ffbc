-- ===== src/Canvas/Smallest.antt =====
-- What `handleDrop` of api/static/org-canvas.js takes for the target.
use mathlib.Core.Path.{subst}
use hufi_agents.Prelude.{
  ◌≡◌, ◌≢◌, refl, sym, ◌⊎◌, inl, inr, String, true, false, ◌&&◌, ◌=ˢ◌, List, [], ◌∷◌, Option, none,
  some, Bool-cases, arith, All, At, here, there, eq_iff,
}
use hufi_agents.Canvas.Drop.{
  Numbers, Placed, area, best_area, is_under, improves, best_under, target_of,
}

-- What the code needs of `<`.
pub record IsStrict (n : Numbers) : Type 0 where
  pub irreflexive : (a : n.Number) → n.less a a ≡ false
  pub transitive : (a b c : n.Number) → n.less a b ≡ true → n.less b c ≡ true → n.less a c ≡ true

-- The product of the width and the height of a node's box.
abbrev pub size : (n : Numbers) → Placed n → n.Number
size n p = n.times (n.minus p.x2 p.x1) (n.minus p.y2 p.y1)

module _ (n : Numbers) (dragged : String) (x y : n.Number) where
  -- Another node than the dragged one, with the point within its left, right, top and bottom edges.
  abbrev pub LiesUnder : Placed n → Type 0
  LiesUnder p =
      (p.node_id ≢ dragged)
      × (n.at_most p.x1 x ≡ true)
      × (n.at_most x p.x2 ≡ true)
      × (n.at_most p.y1 y ≡ true)
      × (n.at_most y p.y2 ≡ true)

  -- No node under the point is smaller than the number.
  abbrev pub NoneSmaller : n.Number → List (Placed n) → Type 0
  NoneSmaller a ps = All (λ p. LiesUnder p → n.less (size n p) a ≡ false) ps

  -- No node of finite size lies under the point; or the choice does, and nothing smaller does.
  abbrev pub IsBest : Option (Placed n) → List (Placed n) → Type 0
  IsBest none ps = NoneSmaller n.infinity ps
  IsBest (some b) ps = At b ps × LiesUnder b × NoneSmaller (size n b) ps

  is_under-LiesUnder : (p : Placed n) → is_under n dragged x y p ≡ true → LiesUnder p
  is_under-LiesUnder p h = (
    λ e. absurd (ground (arith, h, (eq_iff p.node_id dragged).1 e)),
    ground (arith, h),
    ground (arith, h),
    ground (arith, h),
    ground (arith, h),
  )

  LiesUnder-is_under : (p : Placed n) → LiesUnder p → is_under n dragged x y p ≡ true
  LiesUnder-is_under p (d, a, b, c, e) = elim (Bool-cases (p.node_id =ˢ dragged)) [
    | inl t ↦ absurd (d ((eq_iff p.node_id dragged).0 t))
    | inr f ↦ rw (f, a, b, c, e) refl
  ]

  -- After a choice and the rest of the nodes: the choice stays, with nothing smaller; or a smaller
  -- one of the rest replaces it.
  abbrev Chosen : Option (Placed n) → Option (Placed n) → List (Placed n) → Type 0
  Chosen best r ps =
      ((r ≡ best) × NoneSmaller (best_area n best) ps)
      ⊎ ((b : Placed n) × (r ≡ some b)
          × At b ps
          × LiesUnder b
          × (n.less (area n b) (best_area n best) ≡ true)
          × NoneSmaller (area n b) ps)

  module _ (o : IsStrict n) where
    not_between : (a b c : n.Number) → n.less b c ≡ true → n.less a c ≡ false → n.less a b ≡ false
    not_between a b c t f = elim (Bool-cases (n.less a b)) [
      | inl u ↦ absurd (ground (arith, o.transitive a b c u t, f))
      | inr u ↦ u
    ]

    taken :
        (best r : Option (Placed n)) (p : Placed n) (ps : List (Placed n))
        → LiesUnder p
        → n.less (area n p) (best_area n best) ≡ true
        → Chosen (some p) r ps
        → Chosen best r (p ∷ ps)
    taken best r p ps u t (inl (e, s)) =
        inr (p, e, here, u, t, ((λ _. o.irreflexive (area n p)), s))
    taken best r p ps u t (inr (b, e, m, v, l, s)) = inr (
      b,
      e,
      there m,
      v,
      o.transitive (area n b) (area n p) (best_area n best) l t,
      ((λ _. not_between (area n p) (area n b) (area n p) l (o.irreflexive (area n p))), s),
    )

    passed :
        (best r : Option (Placed n)) (p : Placed n) (ps : List (Placed n))
        → (LiesUnder p → n.less (area n p) (best_area n best) ≡ false)
        → Chosen best r ps
        → Chosen best r (p ∷ ps)
    passed best r p ps f (inl (e, s)) = inl (e, (f, s))
    passed best r p ps f (inr (b, e, m, v, l, s)) =
        inr (b, e, there m, v, l, ((λ u. not_between (area n p) (area n b) _ l (f u)), s))

    best_under-Chosen :
        (best : Option (Placed n)) (ps : List (Placed n))
        → Chosen best (best_under n dragged x y best ps) ps
    unfolding best_under
    best_under-Chosen best [] = inl (refl, tt)
    best_under-Chosen best (p ∷ ps) =
        elim (Bool-cases (is_under n dragged x y p && improves n p best)) [
          | inl t ↦ rw t (
              taken best _ p ps (is_under-LiesUnder p (ground (arith, t))) (ground (arith, t))
                (best_under-Chosen (some p) ps))
          | inr f ↦ rw f (
              passed best _ p ps (λ u. ground (arith, f, LiesUnder-is_under p u))
                (best_under-Chosen best ps))
        ]

    IsBest-of_Chosen :
        (r : Option (Placed n)) (ps : List (Placed n)) → Chosen none r ps → IsBest r ps
    IsBest-of_Chosen r ps (inl (e, s)) = subst (λ q. IsBest q ps) (sym e) s
    IsBest-of_Chosen r ps (inr (b, e, m, v, l, s)) = subst (λ q. IsBest q ps) (sym e) (m, v, s)

-- When the platform's `<` is irreflexive and transitive, the target of a drop is a node other than
-- the dragged one whose box holds the centre of the dragged one's box, and the box of no such node
-- has a smaller product of width and height; and there is no target only if no such node has a box
-- of finite size.
pub target_of-IsBest :
    (n : Numbers) (o : IsStrict n) (p : Placed n) (nodes : List (Placed n))
    → IsBest n p.node_id
        (n.half (n.plus p.x1 p.x2))
        (n.half (n.plus p.y1 p.y2))
        (target_of n p nodes)
        nodes
unfolding target_of
target_of-IsBest n o p nodes =
    IsBest-of_Chosen n _ _ _ o _ nodes (best_under-Chosen n _ _ _ o none nodes)
