-- ===== src/Agents/Names.antt =====
-- How agents are called: `humanizeId`, `friendlyRole` and the labels of api/static/agents.js.
use hufi_agents.Prelude.{
  ℕ, String, Bool, true, false, not, ◌||◌, ◌==◌, List, [], ◌∷◌, ◌++◌, Option, none, some,
  if◌then◌else◌, or_else, select, map,
}
use hufi_agents.Js.Text.{Text, units, beq, trim, split_on, join, upper}
use hufi_agents.Js.Regex.{Regex, star, unit, finish}
use hufi_agents.Js.Regex.Patterns.{chr, lit, plus, seqs, space}
use hufi_agents.Js.Regex.Search.{replace_all, replace}

-- A property of an object literal.
unfoldable pub property : List (String × String) → Text → Option Text
property [] k = none
property ((j, v) ∷ r) k = if beq (units j) k then some (units v) else property r k

-- `labels` of `humanizeId`
abbrev pub labels : List (String × String)
labels =
    ("hufiboss", "HufiBoss")
    ∷ ("mr_equi", "Mr. Equi")
    ∷ ("provider_qa", "Provider QA")
    ∷ ("client_qa", "Client QA")
    ∷ ("partner_qa", "Partner QA")
    ∷ ("cross_role_qa", "Cross-Role QA")
    ∷ ("trust_security", "HufiTrust Sentinel")
    ∷ ("hufi_chief", "Hufi")
    ∷ ("builder", "Entwicklung")
    ∷ ("integrator", "Integration")
    ∷ ("project_lead", "Projektleitung")
    ∷ ("reviewer", "Qualitätsprüfung")
    ∷ ("security", "Sicherheit")
    ∷ []

abbrev pub is_separator : ℕ → Bool
is_separator c = c == b'_' || c == b'-'

abbrev pub not_empty : Text → Bool
not_empty [] = false
not_empty (_ ∷ _) = true

-- `w[0].toUpperCase() + w.slice(1)`
unfoldable pub capitalize : Text → Text
capitalize [] = []
capitalize (c ∷ w) = upper c ++ w

abbrev pub or_text : Text → Text → Text
or_text [] d = d
or_text (c ∷ s) d = c ∷ s

-- `id` with runs of `_` and `-` as one space, trimmed, each word capitalized.
unfoldable pub spell_out : Text → Text
spell_out id = join (b' ' ∷ []) (
    map capitalize (
      select not_empty
        (split_on b' ' (trim (replace_all (plus (unit is_separator)) (λ _. b' ' ∷ []) id)))))

unfoldable pub humanize_id : Text → Text
humanize_id id = elim (property labels id) [ some l ↦ l | none ↦ or_text (spell_out id) id ]

-- `ROLE_TRANSLATIONS`
abbrev pub role_translations : List (String × String)
role_translations =
    ("Bounded workspace builder", "Arbeitet eigenständig in einer abgesicherten Umgebung.")
    ∷ (
      "Independent mechanical acceptance reviewer",
      "Prüft Ergebnisse unabhängig, bevor sie freigegeben werden.",
    )
    ∷ ("Bounded git push / draft-PR workflow", "Reicht Änderungen kontrolliert per Git ein.")
    ∷ (
      "Mission intake, prioritisation, coordination",
      "Nimmt neue Aufgaben an, priorisiert und koordiniert.",
    )
    ∷ (
      "Per-project coordination across HufiAgents/HufManager",
      "Koordiniert projektübergreifend zwischen deinen Projekten.",
    )
    ∷ []

abbrev pub not_close : Regex
not_close = unit (λ c. not (c == b')'))

-- `\s*\([^)]*\.py[^)]*\)\s*$`
abbrev pub file_aside : Regex
file_aside = seqs (
    star space
    ∷ chr b'('
    ∷ star not_close
    ∷ lit ".py"
    ∷ star not_close
    ∷ chr b')'
    ∷ star space
    ∷ finish
    ∷ [])

unfoldable pub friendly_role : Text → Text
friendly_role role = elim (property role_translations role) [
  | some t ↦ t
  | none ↦ or_text (replace file_aside (λ _. []) role) (units "Noch keine Rollenbeschreibung.")
]

abbrev pub status_label : String → Text
status_label s =
    or_else (property (("active", "Aktiv") ∷ ("disabled", "Deaktiviert") ∷ []) (units s)) (units s)
