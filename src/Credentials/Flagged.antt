-- ===== src/Credentials/Flagged.antt =====
-- Which texts `interceptChatInput` of api/static/credentials.js stops.
use hufi_agents.Prelude.{
  ◌≡◌, refl, ◌⊎◌, inl, inr, ◌↔◌, String, Bool-cases, true, List, [], ◌∷◌, none, some, Option-cases,
  is_some, any, At, here, there, At-inv, arith,
}
use mathlib.Core.Path.{subst}
use hufi_agents.Js.Text.{Text}
use hufi_agents.Js.Regex.{Cursor}
use hufi_agents.Js.Regex.Search.{test}
use hufi_agents.Js.Regex.Found.{Found, test_sound, test_complete}
use hufi_agents.Credentials.Detect.{
  SecretPattern, secret_patterns, reason_of, runs_of, looks_random, intercept_chat_input,
}

-- One of the patterns matches at some place of the text.
abbrev pub HasSecret : List SecretPattern → Text → Type 0
HasSecret ps s = (p : SecretPattern) × At p ps × ((c : Cursor) × (e : Cursor) × Found p.re [] s c e)

reason_sound :
    (ps : List SecretPattern) (s : Text) → is_some (reason_of ps s) ≡ true → HasSecret ps s
reason_sound [] s h = absurd (ground arith)
reason_sound (p ∷ ps) s h = elim (Bool-cases (test p.re s)) [
  | inl e ↦ (p, here, test_sound p.re s e)
  | inr e ↦ let (q, m, f) = reason_sound ps s (rw e at h) in (q, there m, f)
]

reason_complete :
    (ps : List SecretPattern) (s : Text) → HasSecret ps s → is_some (reason_of ps s) ≡ true
reason_complete [] s (q, m, f) = elim m [ ]
reason_complete (p ∷ ps) s (q, m, (c, e, f)) = elim (Bool-cases (test p.re s)) [
  | inl t ↦ rw t refl
  | inr t ↦ elim (At-inv m) [
    | inl k ↦
        let h : test p.re s ≡ true =
          test_complete p.re s c e (subst (λ x. Found x.re [] s c e) k f) in
        absurd (ground (arith, h, t))
    | inr n ↦ rw t (reason_complete ps s (q, n, (c, e, f)))
  ]
]

-- A text is stopped exactly when a pattern of the table matches somewhere in it, by the meaning of
-- patterns that knows no search order, or one of its long runs looks random.
pub intercept_chat_input_iff :
    (s : Text)
    → (is_some (intercept_chat_input s) ≡ true)
      ↔ (HasSecret secret_patterns s ⊎ (any looks_random (runs_of s) ≡ true))
unfolding intercept_chat_input
intercept_chat_input_iff s = (stopped (Option-cases (reason_of secret_patterns s)), stops)
  where
    stopped :
        (reason_of secret_patterns s ≡ none)
          ⊎ ((r : String) × (reason_of secret_patterns s ≡ some r))
        → is_some (intercept_chat_input s) ≡ true
        → HasSecret secret_patterns s ⊎ (any looks_random (runs_of s) ≡ true)
    stopped (inr (r, e)) h = inl (reason_sound secret_patterns s (rw e refl))
    stopped (inl e) h = elim (Bool-cases (any looks_random (runs_of s))) [
      | inl q ↦ inr q
      | inr q ↦ absurd (ground (arith, rw (intercept_chat_input, e, q) at h))
    ]

    by_reason :
        is_some (reason_of secret_patterns s) ≡ true → is_some (intercept_chat_input s) ≡ true
    by_reason h = elim (Option-cases (reason_of secret_patterns s)) [
      | inl e ↦ absurd (ground (arith, rw e at h))
      | inr (r, e) ↦ rw (intercept_chat_input, e) refl
    ]

    stops :
        HasSecret secret_patterns s ⊎ (any looks_random (runs_of s) ≡ true)
        → is_some (intercept_chat_input s) ≡ true
    stops (inl k) = by_reason (reason_complete secret_patterns s k)
    stops (inr q) = elim (Option-cases (reason_of secret_patterns s)) [
      | inl e ↦ rw (intercept_chat_input, e, q) refl
      | inr (r, e) ↦ rw (intercept_chat_input, e) refl
    ]
