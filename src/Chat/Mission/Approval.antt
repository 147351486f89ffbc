-- ===== src/Chat/Mission/Approval.antt =====
-- Which approval `ensureApprovalCard` of api/static/chat.js shows for a mission.
use hufi_agents.Prelude.{
  sym, ◌≡◌, refl, ◌⊎◌, inl, inr, String, Bool, Bool-cases, true, false, ◌&&◌, List, [], ◌∷◌, Option,
  none, some, Option-cases, ◌=ˢ◌, is_some, find, find_sound, select, map, All, At, here, there,
  At-inv, At-select, At-of_select, arith,
}
use hufi_agents.Chat.Mission.{Task, one_of}

-- An approval belongs to a task or to a tool call.
pub record Approval : Type 0 where
  pub id : String
  pub status : String
  pub task_id : Option String
  pub tool_call_id : Option String
  pub risk_class : String

abbrev pub named : List String → Option String → Bool
named l none = false
named l (some x) = one_of l x

abbrev pub is_pending : Approval → Bool
is_pending a = a.status =ˢ "pending"

abbrev pub task_ids : List Task → List String
task_ids tasks = map (λ t. t.id) tasks

-- The first pass, over the tasks of the mission.
unfoldable pub by_task : List Task → List Approval → Option Approval
by_task tasks approvals = find (λ a. is_pending a && named (task_ids tasks) a.task_id) approvals

-- The approvals that wait for a tool call.
unfoldable pub pending_calls : List Approval → List Approval
pending_calls approvals = select (λ a. is_pending a && is_some a.tool_call_id) approvals

-- The second pass, over the tool calls of those tasks.
unfoldable pub by_call : (own_calls : List String) → List Approval → Option Approval
unfolding pending_calls
by_call own_calls approvals = find (λ a. named own_calls a.tool_call_id) (pending_calls approvals)

abbrev first : List Task → Approval → Bool
first tasks a = is_pending a && named (task_ids tasks) a.task_id

-- The two passes; `own_calls` are asked for only when the first finds nothing.
unfoldable pub choose_approval :
    List Task → (own_calls : List String) → List Approval → Option Approval
unfolding by_task by_call
choose_approval tasks own_calls approvals = elim (by_task tasks approvals) [
  | some a ↦ some a
  | none ↦ by_call own_calls approvals
]

-- The approval is pending, and is that of a task of the mission or of a tool call of one.
abbrev pub IsOwn : List Task → List String → Approval → Type 0
IsOwn tasks own_calls a =
    (is_pending a ≡ true)
    × ((named (task_ids tasks) a.task_id ≡ true) ⊎ (named own_calls a.tool_call_id ≡ true))

module _ {A : Type 0} (p : A → Bool) where
  find-At : (xs : List A) (a : A) → find p xs ≡ some a → At a xs
  find-At [] a h = absurd (ground arith)
  find-At (x ∷ xs) a h = elim (Bool-cases (p x)) [
    | inl e ↦ let q : x ≡ a = ground (arith, rw e at h) in rw (q) here
    | inr e ↦ there (find-At xs a (rw e at h))
  ]

  find-none : (xs : List A) (a : A) → find p xs ≡ none → At a xs → p a ≡ false
  find-none [] a h m = elim m [ ]
  find-none (x ∷ xs) a h m = elim (Bool-cases (p x)) [
    | inl e ↦ absurd (ground (arith, rw e at h))
    | inr e ↦ elim (At-inv m) [ inl q ↦ rw q e | inr n ↦ find-none xs a (rw e at h) n ]
  ]

named-is_some : (l : List String) (o : Option String) → named l o ≡ true → is_some o ≡ true
named-is_some l none h = absurd (ground arith)
named-is_some l (some x) h = refl

by_call_sound :
    (own_calls : List String) (l : List Approval) (a : Approval)
    → by_call own_calls l ≡ some a
    → At a l × (is_pending a ≡ true) × (named own_calls a.tool_call_id ≡ true)
unfolding by_call pending_calls
by_call_sound own_calls l a h =
    let m =
      At-of_select (λ x. is_pending x && is_some x.tool_call_id) l
        (find-At (λ x. named own_calls x.tool_call_id) (pending_calls l) a h) in
    (m.0, ground (arith, m.1), find_sound (λ x. named own_calls x.tool_call_id) (pending_calls l) h)

choose_sound :
    (tasks : List Task) (own_calls : List String) (l : List Approval) (a : Approval)
    → choose_approval tasks own_calls l ≡ some a
    → At a l × IsOwn tasks own_calls a
unfolding choose_approval by_task
choose_sound tasks own_calls l a h = elim (Option-cases (by_task tasks l)) [
  | inl e ↦
      let k = by_call_sound own_calls l a (rw (e, choose_approval) at h) in (k.0, (k.1, inr (k.2)))
  | inr (x, e) ↦
      let q : x ≡ a = ground (arith, rw (e, choose_approval) at h) in
      let f : by_task tasks l ≡ some a = rw (sym q) e in
      let t = find_sound (first tasks) l f in
      (find-At (first tasks) l a f, (ground (arith, t), inl (ground (arith, t))))
]

choose_complete :
    (tasks : List Task) (own_calls : List String) (l : List Approval)
    → choose_approval tasks own_calls l ≡ none
    → (a : Approval) → At a l
    → IsOwn tasks own_calls a
    → ⊥
unfolding choose_approval by_task by_call pending_calls
choose_complete tasks own_calls l h a m (p, o) = elim (Option-cases (by_task tasks l)) [
  | inr (x, e) ↦ absurd (ground (arith, rw (e, choose_approval) at h))
  | inl e ↦ elim o [
    | inl t ↦ absurd (ground (arith, p, t, find-none (first tasks) l a e m))
    | inr c ↦
        let q : (is_pending a && is_some a.tool_call_id) ≡ true =
          ground (arith, p, named-is_some own_calls a.tool_call_id c) in
        absurd (
          ground (
            arith,
            c,
            find-none (λ x. named own_calls x.tool_call_id) (pending_calls l) a
                (rw (e, choose_approval) at h)
                (At-select (λ x. is_pending x && is_some x.tool_call_id) m q),
          ))
  ]
]

none-IsOwn :
    (tasks : List Task) (own_calls : List String) (l : List Approval)
    → ((a : Approval) → At a l → ¬ (IsOwn tasks own_calls a))
    → All (λ a. ¬ (IsOwn tasks own_calls a)) l
none-IsOwn tasks own_calls [] h = tt
none-IsOwn tasks own_calls (x ∷ l) h =
    (h x here, none-IsOwn tasks own_calls l (λ a m. h a (there m)))

-- Either an approval is shown, and it is one of those that were fetched, pending, and of a task of
-- the mission or of a tool call of such a task; or none is, and no approval that was fetched is of
-- that kind.
pub choose_approval-IsOwn :
    (tasks : List Task) (own_calls : List String) (l : List Approval)
    → ((a : Approval) × (choose_approval tasks own_calls l ≡ some a)
        × At a l
        × IsOwn tasks own_calls a)
      ⊎ ((choose_approval tasks own_calls l ≡ none) × All (λ a. ¬ (IsOwn tasks own_calls a)) l)
choose_approval-IsOwn tasks own_calls l = elim (Option-cases (choose_approval tasks own_calls l)) [
  | inl e ↦ inr (e, none-IsOwn tasks own_calls l (choose_complete tasks own_calls l e))
  | inr (a, e) ↦ let k = choose_sound tasks own_calls l a e in inl (a, e, k.0, k.1)
]
