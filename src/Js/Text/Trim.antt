-- ===== src/Js/Text/Trim.antt =====
-- Trimming a text twice.
use hufi_agents.Prelude.{ℕ, ◌≡◌, refl, inl, inr, [], ◌∷◌, if◌then◌else◌, Bool-cases, arith}
use hufi_agents.Js.Text.{Text, is_space, trim_start, trim_end, trim}

-- What `trim_end` makes of a unit and the trimmed rest.
abbrev keep : ℕ → Text → Text
keep c [] = if is_space c then [] else c ∷ []
keep c (d ∷ r) = c ∷ d ∷ r

keep_idem : (c : ℕ) (r : Text) → trim_end r ≡ r → trim_end (keep c r) ≡ keep c r
unfolding trim_end
keep_idem c [] h = ground arith
keep_idem c (d ∷ r) h = rw h

trim_end_step : (c : ℕ) (s : Text) → trim_end (c ∷ s) ≡ keep c (trim_end s)
unfolding trim_end
trim_end_step c s = ground arith

trim_end_idem : (s : Text) → trim_end (trim_end s) ≡ trim_end s
trim_end_idem [] = unfold trim_end in refl
trim_end_idem (c ∷ s) = rw trim_end_step (keep_idem c (trim_end s) (trim_end_idem s))

keep_stable : (c : ℕ) (r s : Text) → keep c r ≡ c ∷ s → r ≡ s
keep_stable c [] s h = ground arith
keep_stable c (d ∷ r) s h = cc

trim_start_stable : (s : Text) → trim_end s ≡ s → trim_end (trim_start s) ≡ trim_start s
unfolding trim_start
trim_start_stable [] h = h
trim_start_stable (c ∷ s) h = elim (Bool-cases (is_space c)) [
  | inl e ↦ rw e (trim_start_stable s (keep_stable c (trim_end s) s (rw trim_end_step at h)))
  | inr e ↦ rw e h
]

trim_start_idem : (s : Text) → trim_start (trim_start s) ≡ trim_start s
unfolding trim_start
trim_start_idem [] = refl
trim_start_idem (c ∷ s) = elim (Bool-cases (is_space c)) [
  | inl e ↦ rw e (trim_start_idem s)
  | inr e ↦ rw e (rw e)
]

pub trim_idem : (s : Text) → trim (trim s) ≡ trim s
unfolding trim
trim_idem s = rw (trim_start_stable (trim_end s) (trim_end_idem s)) (trim_start_idem (trim_end s))
