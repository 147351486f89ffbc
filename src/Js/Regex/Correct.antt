-- ===== src/Js/Regex/Correct.antt =====
-- The backtracking matcher compared with the meaning of patterns.
use hufi_agents.Prelude.{
  ℕ, zero, suc, ◌≤◌, ◌<◌, ◌≡◌, ◌≢◌, refl, Bool, true, false, not, ◌⊎◌, inl, inr, [], ◌∷◌, length,
  Option, none, some, arith, ltb, is_some, Option-cases,
}
use hufi_agents.Js.Text.{Text}
use hufi_agents.Js.Regex.{
  Regex, empty, start, finish, boundary, unit, seq, alt, star, lazy, group, not_ahead, Cursor, Cont,
  captured, run, many, few, first, when, is_nil, eat,
}
use hufi_agents.Js.Regex.Derives.{Derives, Rounds, enough, round}

abbrev pub Step : Type 0
Step = Cursor → Cont → Option Cursor

-- A result comes from a derivation that the continuation accepts.
abbrev pub Sound : (Cursor → Cursor → Type 0) → Step → Type 0
Sound R step =
    (s : Cursor) (k : Cont) (t : Cursor) → step s k ≡ some t → (u : Cursor) × R s u × (k u ≡ some t)

-- A derivation that the continuation accepts makes the search succeed.
abbrev pub Complete : (Cursor → Cursor → Type 0) → Step → Type 0
Complete R step = (s u : Cursor) (k : Cont) → R s u → k u ≢ none → step s k ≢ none

first-some : (a b : Option Cursor) (t : Cursor) → first a b ≡ some t → (a ≡ some t) ⊎ (b ≡ some t)
first-some none b t h = inr h
first-some (some a) b t h = inl h

first_left : (a b : Option Cursor) → a ≢ none → first a b ≢ none
first_left none b h = absurd (h refl)
first_left (some a) b h = λ e. cc

first_right : (a b : Option Cursor) → b ≢ none → first a b ≢ none
first_right none b h = h
first_right (some a) b h = λ e. cc

-- One round, as the loops write it.
abbrev guarded : Cursor → Cont → Cont
guarded s next s' = elim (ltb (length s'.rest) (length s.rest)) [ true ↦ next s' | false ↦ none ]

guarded-some :
    (s s' t : Cursor) (next : Cont)
    → guarded s next s' ≡ some t
    → (length s'.rest < length s.rest) × (next s' ≡ some t)
guarded-some s s' t next h = ground arith

guarded_ne_none :
    (s s' : Cursor) (next : Cont)
    → length s'.rest < length s.rest
    → next s' ≢ none
    → guarded s next s' ≢ none
guarded_ne_none s s' next h n e = n (ground arith)

module _ {R : Cursor → Cursor → Type 0} {step : Step} where
  many-Sound : Sound R step → (n : ℕ) → Sound (Rounds R) (many step n)
  unfolding many
  many-Sound sound zero s k t h = (s, enough, h)
  many-Sound sound (suc n) s k t h = elim (first-some _ (k s) t h) [
    | inl m ↦
        let (u, r, g) = sound s (guarded s (λ s'. many step n s' k)) t m in
        let (less, g') = guarded-some s u t (λ s'. many step n s' k) g in
        let (v, rs, kv) = many-Sound sound n u k t g' in (v, round r less rs, kv)
    | inr e ↦ (s, enough, e)
  ]

  few-Sound : Sound R step → (n : ℕ) → Sound (Rounds R) (few step n)
  unfolding few
  few-Sound sound zero s k t h = (s, enough, h)
  few-Sound sound (suc n) s k t h = elim (first-some (k s) _ t h) [
    | inr m ↦
        let (u, r, g) = sound s (guarded s (λ s'. few step n s' k)) t m in
        let (less, g') = guarded-some s u t (λ s'. few step n s' k) g in
        let (v, rs, kv) = few-Sound sound n u k t g' in (v, round r less rs, kv)
    | inl e ↦ (s, enough, e)
  ]

  many-Complete :
      Complete R step
      → {s u : Cursor} → Rounds R s u
      → (n : ℕ) (k : Cont) → length s.rest ≤ n
      → k u ≢ none
      → many step n s k ≢ none
  unfolding many
  many-Complete complete enough zero k b h = h
  many-Complete complete {s} enough (suc n) k b h = first_right _ (k s) h
  many-Complete complete (round r less rs) zero k b h = absurd (omega arith)
  many-Complete complete {s} (round {t = t} r less rs) (suc n) k b h = first_left _ (k s) (
      complete s t (guarded s (λ s'. many step n s' k)) r (
        guarded_ne_none s t (λ s'. many step n s' k) less
          (many-Complete complete rs n k (omega arith) h)))

  few-Complete :
      Complete R step
      → {s u : Cursor} → Rounds R s u
      → (n : ℕ) (k : Cont) → length s.rest ≤ n
      → k u ≢ none
      → few step n s k ≢ none
  unfolding few
  few-Complete complete enough zero k b h = h
  few-Complete complete {s} enough (suc n) k b h = first_left (k s) _ h
  few-Complete complete (round r less rs) zero k b h = absurd (omega arith)
  few-Complete complete {s} (round {t = t} r less rs) (suc n) k b h = first_right (k s) _ (
      complete s t (guarded s (λ s'. few step n s' k)) r (
        guarded_ne_none s t (λ s'. few step n s' k) less
          (few-Complete complete rs n k (omega arith) h)))

pub record Correct (r : Regex) : Type 0 where
  pub sound : Sound (Derives r) (run r)
  pub complete : Complete (Derives r) (run r)

no_run :
    (r : Regex) → Correct r → (s : Cursor) → ((u : Cursor) → ¬ Derives r s u) → run r s some ≡ none
no_run r c s n = elim (Option-cases (run r s some)) [
  | inl e ↦ e
  | inr (t, e) ↦ let (u, d, q) = c.sound s some t e in absurd (n u d)
]

-- A negative lookahead succeeds exactly when the search inside it fails.
refuted :
    (r : Regex) → Correct r → (s : Cursor) → run r s some ≡ none → (u : Cursor) → ¬ Derives r s u
refuted r c s h u d = c.complete s u some d (λ e. cc) h

when-some :
    (b : Bool) (s : Cursor) (k : Cont) (t : Cursor)
    → when b s k ≡ some t
    → (b ≡ true) × (k s ≡ some t)
when-some b s k t h = ground arith

when_ne_none : (b : Bool) (s : Cursor) (k : Cont) → b ≡ true → k s ≢ none → when b s k ≢ none
when_ne_none b s k e n h = n (ground arith)

is_nil-true : (l : Text) → is_nil l ≡ true → l ≡ []
is_nil-true [] h = refl
is_nil-true (x ∷ xs) h = cc

assert_Sound :
    (b : Bool) (s : Cursor) (k : Cont) (t : Cursor)
    → when b s k ≡ some t
    → (u : Cursor) × ((b ≡ true) × (u ≡ s)) × (k u ≡ some t)
assert_Sound b s k t h = (s, ((when-some b s k t h).0, refl), (when-some b s k t h).1)

assert_Complete :
    (b : Bool) (s u : Cursor) (k : Cont) → (b ≡ true) × (u ≡ s) → k u ≢ none → when b s k ≢ none
assert_Complete b s u k (e, p) h = when_ne_none b s k e (λ q. h (rw p q))

eat-some :
    (p : ℕ → Bool) (s : Cursor) (r : Text) (k : Cont) (t : Cursor)
    → eat p s r k ≡ some t
    → (x : ℕ) × (xs : Text) × (r ≡ x ∷ xs)
      × (p x ≡ true)
      × (k (record s { before = x ∷ s.before; rest = xs }) ≡ some t)
eat-some p s [] k t h = cc
eat-some p s (x ∷ xs) k t h = (x, xs, refl, ground arith, ground arith)

eat_ne_none :
    (p : ℕ → Bool) (s : Cursor) (k : Cont) (x : ℕ) (xs : Text)
    → p x ≡ true
    → k (record s { before = x ∷ s.before; rest = xs }) ≢ none
    → eat p s (x ∷ xs) k ≢ none
eat_ne_none p s k x xs e n h = n (ground arith)

pub run-Correct : (r : Regex) → Correct r
unfolding run
run-Correct empty = record {
  sound = λ s k t h. (s, refl, h);
  complete = λ s u k d h. λ q. h (rw d q);
}
run-Correct start = record {
  sound = λ s k t h.
      let (u, (e, p), q) = assert_Sound (is_nil s.before) s k t h in
      (u, (is_nil-true s.before e, p), q);
  complete = λ s u k (e, p) h. assert_Complete (is_nil s.before) s u k (rw e refl, p) h;
}
run-Correct finish = record {
  sound = λ s k t h.
      let (u, (e, p), q) = assert_Sound (is_nil s.rest) s k t h in
      (u, (is_nil-true s.rest e, p), q);
  complete = λ s u k (e, p) h. assert_Complete (is_nil s.rest) s u k (rw e refl, p) h;
}
run-Correct boundary = record {
  sound = λ s k t h. assert_Sound _ s k t h;
  complete = λ s u k d h. assert_Complete _ s u k d h;
}
run-Correct (unit p) = record {
  sound = λ s k t h.
      let (x, xs, e, px, q) = eat-some p s s.rest k t h in
      (record s { before = x ∷ s.before; rest = xs }, (x, xs, e, px, refl), q);
  complete = λ s u k (x, xs, e, px, q) h. rw e (eat_ne_none p s k x xs px (λ z. h (rw q z)));
}
run-Correct (seq a b) = record {
  sound = λ s k t h.
      let (m, d, q) = (run-Correct a).sound s (λ m. run b m k) t h in
      let (u, e, q') = (run-Correct b).sound m k t q in (u, (m, d, e), q');
  complete = λ s u k (m, d, e) h.
      (run-Correct a).complete s m (λ m'. run b m' k) d ((run-Correct b).complete m u k e h);
}
run-Correct (alt a b) = record {
  sound = λ s k t h. elim (first-some (run a s k) (run b s k) t h) [
    | inl e ↦ let (u, d, q) = (run-Correct a).sound s k t e in (u, inl d, q)
    | inr e ↦ let (u, d, q) = (run-Correct b).sound s k t e in (u, inr d, q)
  ];
  complete = λ s u k d h. elim d [
    | inl x ↦ first_left (run a s k) (run b s k) ((run-Correct a).complete s u k x h)
    | inr x ↦ first_right (run a s k) (run b s k) ((run-Correct b).complete s u k x h)
  ];
}
run-Correct (star r) = record {
  sound = λ s. many-Sound (run-Correct r).sound (length s.rest) s;
  complete =
      λ s u k d h. many-Complete (run-Correct r).complete d (length s.rest) k (omega arith) h;
}
run-Correct (lazy r) = record {
  sound = λ s. few-Sound (run-Correct r).sound (length s.rest) s;
  complete = λ s u k d h. few-Complete (run-Correct r).complete d (length s.rest) k (omega arith) h;
}
run-Correct (group i r) = record {
  sound = λ s k t h.
      let (m, d, q) = (run-Correct r).sound s (λ m. k (captured i s m)) t h in
      (captured i s m, (m, d, refl), q);
  complete = λ s u k (m, d, p) h.
      (run-Correct r).complete s m (λ m'. k (captured i s m')) d (λ q. h (rw p q));
}
run-Correct (not_ahead r) = record {
  sound = λ s k t h.
      let (u, (e, p), q) = assert_Sound (not (is_some (run r s some))) s k t h in
      (u, (refuted r (run-Correct r) s (ground arith), p), q);
  complete =
      λ s u k (n, p) h. assert_Complete _ s u k (ground (arith, no_run r (run-Correct r) s n), p) h;
}
