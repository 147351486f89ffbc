-- ===== src/Chat/Routine/Clock.antt =====
-- The time of day that `extractTimeDe` of api/static/chat.js returns.
use mathlib.Core.Path.{subst}
use hufi_agents.Prelude.{
  ℕ, ◌+◌, ◌-◌, ◌*◌, ◌/◌, ◌%◌, ◌<◌, ◌≤◌, ◌≡◌, ◌∙◌, ap, Bool, true, inl, inr, List, [], ◌∷◌, ◌++◌,
  some, Option-cases, length, take, arith,
}
use hufi_agents.Js.Text.{Text, units}
use hufi_agents.Js.Regex.{Regex, unit, seq, group, not_ahead, Cursor, boundary, star}
use hufi_agents.Js.Regex.Derives.{Derives}
use hufi_agents.Js.Regex.Groups.{NoGroups, groups-Derives}
use hufi_agents.Js.Regex.Patterns.{is_digit, digit, space, lit, opt, seqs}
use hufi_agents.Js.Regex.Search.{exec}
use hufi_agents.Js.Regex.Found.{exec_sound}
use hufi_agents.Chat.Routine.{
  hour, minute, separator, time_exact, time_uhr, time_um, pad2, exact_time, full_hour,
  extract_time_de, group_text,
}

abbrev pub two_digits : ℕ → Text
two_digits n = (b'0' + n / 10) ∷ (b'0' + n % 10) ∷ []

-- `HH:MM`
abbrev pub clock : ℕ → ℕ → Text
clock h m = two_digits h ++ (b':' ∷ two_digits m)

pub record IsClock (t : Text) : Type 0 where
  pub hour : ℕ
  pub minute : ℕ
  pub hour_bound : hour < 24
  pub minute_bound : minute < 60
  pub spelled : t ≡ clock hour minute

-- What stands between two places that a match of one or two units joins.
between : Cursor → Cursor → Text
between s t = take (length s.rest - length t.rest) s.rest

take_one : (r : Text) (x : ℕ) → take (length (x ∷ r) - length r) (x ∷ r) ≡ x ∷ []
take_one r x = let e : length (x ∷ r) - length r ≡ 1 = omega arith in rw e

take_two : (r : Text) (x y : ℕ) → take (length (x ∷ y ∷ r) - length r) (x ∷ y ∷ r) ≡ x ∷ y ∷ []
take_two r x y = let e : length (x ∷ y ∷ r) - length r ≡ 2 = omega arith in rw e

abbrev Digit : ℕ → Type 0
Digit c = (b'0' ≤ c) × (c ≤ b'9')

Digit-bounds : (c : ℕ) → is_digit c ≡ true → Digit c
unfolding is_digit
Digit-bounds c h = ground arith

-- A number below `n` in one or two digits.
data Spells (n : ℕ) (w : Text) : Type 0 where
  one : (c : ℕ) → Digit c → w ≡ c ∷ [] → Spells n w
  two :
      (c d : ℕ) → Digit c → Digit d → (c - b'0') * 10 + (d - b'0') < n → w ≡ c ∷ d ∷ [] → Spells n w

spell : (n : ℕ) (w : Text) → Spells n w → 9 < n → (k : ℕ) × (k < n) × (pad2 w ≡ two_digits k)
unfolding pad2
spell n w (one c d e) l = (c - b'0', omega arith, rw e (ground arith))
spell n w (two c d p q b e) l = ((c - b'0') * 10 + (d - b'0'), b, rw e (ground arith))

unit_step :
    (p : ℕ → Bool) (s t : Cursor)
    → Derives (unit p) s t
    → (x : ℕ) × (p x ≡ true) × (s.rest ≡ x ∷ t.rest)
unit_step p s t (x, xs, e, h, q) = (x, h, rw q e)

between_one : (s t : Cursor) (x : ℕ) → s.rest ≡ x ∷ t.rest → between s t ≡ x ∷ []
unfolding between
between_one s t x e = rw e (take_one t.rest x)

between_two :
    (s m t : Cursor) (x y : ℕ)
    → s.rest ≡ x ∷ m.rest
    → m.rest ≡ y ∷ t.rest
    → between s t ≡ x ∷ y ∷ []
unfolding between
between_two s m t x y e f = rw (e, f) (take_two t.rest x y)

hour-Spells : (s t : Cursor) → Derives hour s t → Spells 24 (between s t)
hour-Spells s t (inl (m, inl d, e)) =
    let (x, p, q) = unit_step _ s m d in
    let (y, p', q') = unit_step is_digit m t e in
    let dy = Digit-bounds y p' in
    two x y (ground arith) dy (ground arith) (between_two s m t x y q q')
hour-Spells s t (inl (m, inr d, e)) =
    let (y, p', q') = unit_step is_digit m t e in
    one y (Digit-bounds y p') (between_one s t y (rw d at q'))
hour-Spells s t (inr (m, d, e)) =
    let (x, p, q) = unit_step _ s m d in
    let (y, p', q') = unit_step _ m t e in
    two x y (ground arith) (ground arith) (ground arith) (between_two s m t x y q q')

minute_spells :
    (s t : Cursor) → Derives minute s t → (k : ℕ) × (k < 60) × (between s t ≡ two_digits k)
minute_spells s t (m, d, e) =
    let (x, p, q) = unit_step _ s m d in
    let (y, p', q') = unit_step is_digit m t e in
    let dy = Digit-bounds y p' in
    ((x - b'0') * 10 + (y - b'0'), ground arith, rw (between_two s m t x y q q') (ground arith))

-- A group followed by a pattern without groups: the capture is what stands between.
captured_then :
    (i : ℕ) (r after : Regex)
    → NoGroups r
    → NoGroups after
    → (s e : Cursor) → Derives (seq (group i r) after) s e
    → (m : Cursor) × Derives r s m × (e.groups ≡ (i, between s m) ∷ s.groups)
unfolding between
captured_then i r after n n' s e (g, (m, d, p), a) =
    (m, d, groups-Derives after n' g e a ∙ rw (p, groups-Derives r n s m d))

full_hour-IsClock :
    (s m : Cursor) (w : Text) → Derives hour s m → w ≡ between s m → IsClock (pad2 w ++ units ":00")
full_hour-IsClock s m w d e =
    let (k, b, q) = spell 24 (between s m) (hour-Spells s m d) (omega arith) in
    record { hour = k; minute = 0; hour_bound = b; minute_bound = omega arith; spelled = rw (e, q) }

abbrev after_exact : Regex
after_exact = seqs (star space ∷ opt (lit "uhr") ∷ boundary ∷ [])

abbrev after_uhr : Regex
after_uhr = seqs (star space ∷ lit "uhr" ∷ boundary ∷ [])

abbrev after_um : Regex
after_um = seqs (boundary ∷ not_ahead (seqs (star space ∷ separator ∷ digit ∷ [])) ∷ [])

exact_time_groups :
    (e : Cursor) (w v : Text) (gs : List (ℕ × Text)) (h k : ℕ)
    → e.groups ≡ (2, v) ∷ (1, w) ∷ gs
    → pad2 w ≡ two_digits h
    → v ≡ two_digits k
    → exact_time e ≡ clock h k
exact_time_groups e w v gs h k g p q = rw (g, p, q)

time_exact-IsClock : (c e : Cursor) → Derives time_exact c e → IsClock (exact_time e)
time_exact-IsClock c e (c1, b, (c2, (m, d, p), (c3, sep, rest))) =
    let (m', d', g) =
      captured_then 2 minute after_exact (tt, tt) (tt, (((tt, (tt, tt)), tt), tt)) c3 e rest in
    let (h, hb, hq) = spell 24 (between c1 m) (hour-Spells c1 m d) (omega arith) in
    let (k, kb, kq) = minute_spells c3 m' d' in
    let g3 : c3.groups ≡ (1, between c1 m) ∷ m.groups =
      groups-Derives separator tt c2 c3 sep ∙ (unfold between in ap (λ (c : Cursor). c.groups) p) in
    let g' = g ∙ ap (λ gs. (2, between c3 m') ∷ gs) g3 in
    record {
      hour = h;
      minute = k;
      hour_bound = hb;
      minute_bound = kb;
      spelled = exact_time_groups e (between c1 m) (between c3 m') m.groups h k g' hq kq;
    }

hour_then-IsClock :
    (after : Regex)
    → NoGroups after
    → (s e : Cursor) → Derives (seq (group 1 hour) after) s e
    → IsClock (full_hour e)
hour_then-IsClock after n s e d =
    let (m, d', g) = captured_then 1 hour after (((tt, tt), tt), (tt, tt)) n s e d in
    full_hour-IsClock s m (group_text 1 e) d' (rw g)

time_uhr-IsClock : (c e : Cursor) → Derives time_uhr c e → IsClock (full_hour e)
time_uhr-IsClock c e (c1, b, d) = hour_then-IsClock after_uhr (tt, ((tt, (tt, tt)), tt)) c1 e d

time_um-IsClock : (c e : Cursor) → Derives time_um c e → IsClock (full_hour e)
time_um-IsClock c e (c1, b, (c2, u, (c3, v, d))) = hour_then-IsClock after_um (tt, tt) c3 e d

-- Whatever the text, a time that is found is a time of day.
pub extract_time_de-IsClock : (s t : Text) → extract_time_de s ≡ some t → IsClock t
unfolding extract_time_de
extract_time_de-IsClock s t h = elim (Option-cases (exec time_exact s)) [
  | inr (m, e) ↦
      let (c, f) = exec_sound time_exact s m e in
      subst IsClock (ground arith) (time_exact-IsClock c m f.1)
  | inl n ↦ elim (Option-cases (exec time_uhr s)) [
    | inr (m, e) ↦
        let (c, f) = exec_sound time_uhr s m e in
        subst IsClock (ground arith) (time_uhr-IsClock c m f.1)
    | inl n' ↦ elim (Option-cases (exec time_um s)) [
      | inr (m, e) ↦
          let (c, f) = exec_sound time_um s m e in
          subst IsClock (ground arith) (time_um-IsClock c m f.1)
      | inl n'' ↦ ground arith
    ]
  ]
]
