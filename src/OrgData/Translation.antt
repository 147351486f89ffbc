-- ===== src/OrgData/Translation.antt =====
-- What a user can be shown of a backend error, and what a second translation does to it.
use mathlib.Core.Path.{subst}
use hufi_agents.Prelude.{
  String, ◌≡◌, refl, ◌∙◌, true, false, inl, inr, List, [], ◌∷◌, some, arith, Bool-cases,
  Option-cases, At, here, there, ◌⊎◌, ◌++◌, ==_iff, All, All_at, if◌then◌else◌,
}
use hufi_agents.Js.Text.{Text, units, trim, trim_start, trim_end, is_space, starts_with}
use hufi_agents.Js.Text.Trim.{trim_idem}
use hufi_agents.Js.Regex.{Regex}
use hufi_agents.Js.Regex.Patterns.{is_digit}
use hufi_agents.Js.Regex.Search.{test}
use hufi_agents.OrgData.Errors.{
  known_errors, known_error, not_started, is_plain, translate_trimmed, translate,
}

-- The German sentences of a table of errors.
abbrev pub sentences : List (Regex × String) → List String
sentences [] = []
sentences ((pattern, message) ∷ r) = message ∷ sentences r

known_error-At :
    (table : List (Regex × String)) (raw : Text) (m : String)
    → known_error table raw ≡ some m
    → At m (sentences table)
unfolding known_error
known_error-At [] raw m h = cc
known_error-At ((pattern, message) ∷ r) raw m h = elim (Bool-cases (test pattern raw)) [
  | inl e ↦ let q : message ≡ m = ground arith in subst (λ x. At x (message ∷ sentences r)) q here
  | inr e ↦ there (known_error-At r raw m (ground arith))
]

translate-trim : (raw : Text) → translate (trim raw) ≡ translate raw
unfolding translate
translate-trim raw = rw trim_idem

-- What `translate` can return: a sentence of the table, the general sentence, or a text that is
-- German already.
data Shown (raw shown : Text) : Type 0 where
  sentence : (m : String) → At m (sentences known_errors) → shown ≡ units m → Shown raw shown
  general : shown ≡ not_started → Shown raw shown
  passed : is_plain (trim raw) ≡ true → shown ≡ trim raw → Shown raw shown

trimmed_cases : (raw t : Text) → trim raw ≡ t → Shown raw (translate_trimmed t)
trimmed_cases raw [] e = general refl
trimmed_cases raw (c ∷ s) e = elim (Option-cases (known_error known_errors (c ∷ s))) [
  | inr (m, h) ↦ rw h (sentence m (known_error-At known_errors (c ∷ s) m h) refl)
  | inl h ↦ elim (Bool-cases (is_plain (c ∷ s))) [
    | inl q ↦ rw (h, q) (passed (rw e q) (rw e))
    | inr q ↦ rw (h, q) (general refl)
  ]
]

translate-Shown : (raw : Text) → Shown raw (translate raw)
unfolding translate
translate-Shown raw = trimmed_cases raw (trim raw) refl

-- The German sentences that stand for the technical messages of the backend.
abbrev pub german_sentences : List String
german_sentences =
    "Diese Zuordnung würde einen Kreis in deiner Teamstruktur erzeugen."
    ∷ "Das geht nicht: Ein Team oder Mitarbeiter davon ist bereits archiviert."
    ∷ "Das geht nicht auf sich selbst."
    ∷ "Eine Berichtsbeziehung ist nur zwischen zwei Mitarbeitern möglich."
    ∷ "Diese Art von Verbindung wird nicht unterstützt." ∷ "Das passt nicht zusammen."
    ∷ "Eine aufgehobene Verbindung kann nicht erneuert werden." ∷ "Das wurde nicht gefunden."
    ∷ "Diese Aufgabe darf aktuell keine kostenpflichtige KI verwenden."
    ∷ "Freigaben sind in dieser Umgebung noch nicht eingerichtet." ∷ "Dafür fehlt die Berechtigung."
    ∷ "Bitte melde dich erneut an." ∷ "Der Auftrag war zu groß für das gewählte Modell."
    ∷ "Das lokale Modell war nicht erreichbar." ∷ "Kein passendes Team gefunden."
    ∷ "Die Mission ist beim Start fehlgeschlagen." ∷ []

abbrev pub Begins : Text → Text → Type 0
Begins prefix t = (rest : Text) × (t ≡ prefix ++ rest)

-- One of these sentences, or a text that begins as the program's own German messages do.
abbrev pub IsGerman : Text → Type 0
IsGerman t =
    ((m : String) × At m german_sentences × (t ≡ units m))
    ⊎ (Begins (units "Das hat leider") t ⊎ Begins (units "Der Auftrag konnte") t)

starts_with-Begins : (p t : Text) → starts_with p t ≡ true → Begins p t
starts_with-Begins [] t h = (t, refl)
starts_with-Begins (c ∷ p) [] h = absurd (ground (arith, h))
starts_with-Begins (c ∷ p) (d ∷ t) h =
    let (rest, e) = starts_with-Begins p t (ground (arith, h)) in
    (rest, rw (e, ==_iff c d (ground (arith, h))) refl)

plain-IsGerman : (t : Text) → is_plain t ≡ true → IsGerman t
plain-IsGerman t h = elim (Bool-cases (starts_with (units "Das hat leider") t)) [
  | inl e ↦ inr (inl (starts_with-Begins (units "Das hat leider") t e))
  | inr e ↦ inr (inr (starts_with-Begins (units "Der Auftrag konnte") t (ground (arith, e, h))))
]

Shown-IsGerman : (raw shown : Text) → Shown raw shown → IsGerman shown
Shown-IsGerman raw shown (sentence m at e) = inl (m, at, e)
Shown-IsGerman raw shown (general e) = inr (inr (units " nicht gestartet werden.", e))
Shown-IsGerman raw shown (passed p e) = rw e (plain-IsGerman (trim raw) p)

-- Whatever the backend says, what is shown is one of the program's German sentences for technical
-- messages, or a text that begins with `Das hat leider` or `Der Auftrag konnte`, as the program's
-- own messages do; no other text is passed on.
pub translate-IsGerman : (raw : Text) → IsGerman (translate raw)
translate-IsGerman raw = Shown-IsGerman raw (translate raw) (translate-Shown raw)

-- Each sentence of the table, translated once more.
abbrev IsLost : String → Type 0
IsLost m = (translate (units m) ≡ not_started) × (is_plain (units m) ≡ false)

sentences-IsLost : All IsLost (sentences known_errors)
unfolding translate known_error test trim trim_start trim_end is_space is_digit
sentences-IsLost = (
  (refl, refl),
  (
    (refl, refl),
    (
      (refl, refl),
      (
        (refl, refl),
        (
          (refl, refl),
          (
            (refl, refl),
            (
              (refl, refl),
              (
                (refl, refl),
                (
                  (refl, refl),
                  (
                    (refl, refl),
                    (
                      (refl, refl),
                      (
                        (refl, refl),
                        ((refl, refl), ((refl, refl), ((refl, refl), ((refl, refl), tt)))),
                      ),
                    ),
                  ),
                ),
              ),
            ),
          ),
        ),
      ),
    ),
  ),
)

not_started_fixed : translate not_started ≡ not_started
unfolding translate known_error test trim trim_start trim_end is_space is_digit
not_started_fixed = refl

twice_of_Shown :
    (raw shown : Text)
    → translate raw ≡ shown
    → Shown raw shown
    → translate shown ≡ (if is_plain shown then shown else not_started)
twice_of_Shown raw shown e (sentence m at q) =
    let lost = All_at IsLost sentences-IsLost at in rw q (rw lost.1 lost.0)
twice_of_Shown raw shown e (general q) = rw q not_started_fixed
twice_of_Shown raw shown e (passed p q) = rw (q, p) (translate-trim raw ∙ e ∙ q)

-- A message that is translated a second time keeps its text only if it is one of the program's own
-- general messages; every other sentence of the table becomes the general one.
pub translate_twice :
    (raw : Text)
    → translate (translate raw) ≡ (if is_plain (translate raw) then translate raw else not_started)
translate_twice raw = twice_of_Shown raw (translate raw) refl (translate-Shown raw)
