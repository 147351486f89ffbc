-- ===== src/OrgData/Errors.antt =====
-- `Hufi.errors` of api/static/org-data.js: technical messages of the backend in plain German.
use hufi_agents.Prelude.{String, Bool, ◌||◌, List, [], ◌∷◌, Option, none, some, if◌then◌else◌}
use hufi_agents.Js.Text.{Text, units, trim, starts_with}
use hufi_agents.Js.Regex.{Regex, alt, star}
use hufi_agents.Js.Regex.Patterns.{lit_i, seqs, alts, digit, dot, plus}
use hufi_agents.Js.Regex.Search.{test}

-- `KNOWN_ERRORS`, all with the flag `i`
abbrev pub known_errors : List (Regex × String)
known_errors =
    (lit_i "reporting cycle", "Diese Zuordnung würde einen Kreis in deiner Teamstruktur erzeugen.")
    ∷ (
      lit_i "archived nodes cannot gain memberships",
      "Das geht nicht: Ein Team oder Mitarbeiter davon ist bereits archiviert.",
    )
    ∷ (lit_i "self relationships are not allowed", "Das geht nicht auf sich selbst.")
    ∷ (
      lit_i "reports_to requires agent nodes",
      "Eine Berichtsbeziehung ist nur zwischen zwei Mitarbeitern möglich.",
    )
    ∷ (lit_i "unsupported relationship type", "Diese Art von Verbindung wird nicht unterstützt.")
    ∷ (lit_i "task does not belong to mission", "Das passt nicht zusammen.")
    ∷ (
      lit_i "cannot rotate revoked credential",
      "Eine aufgehobene Verbindung kann nicht erneuert werden.",
    )
    ∷ (lit_i "resource not found", "Das wurde nicht gefunden.")
    ∷ (
      lit_i "external cost budget exceeded",
      "Diese Aufgabe darf aktuell keine kostenpflichtige KI verwenden.",
    )
    ∷ (
      lit_i "approval resolution disabled",
      "Freigaben sind in dieser Umgebung noch nicht eingerichtet.",
    )
    ∷ (lit_i "owner approval token required", "Dafür fehlt die Berechtigung.")
    ∷ (lit_i "authentication required", "Bitte melde dich erneut an.")
    ∷ (
      alts (seqs (lit_i "at most " ∷ plus digit ∷ lit_i " characters" ∷ [])) (
          lit_i "too long" ∷ lit_i "too large" ∷ lit_i "exceeds maximum" ∷ lit_i "max_length" ∷ []),
      "Der Auftrag war zu groß für das gewählte Modell.",
    )
    ∷ (
      alts (seqs (lit_i "local router" ∷ star dot ∷ lit_i "unreachable" ∷ []))
          (lit_i "connection refused" ∷ lit_i "failed to connect" ∷ []),
      "Das lokale Modell war nicht erreichbar.",
    )
    ∷ (alt (lit_i "no suitable team") (lit_i "team not found"), "Kein passendes Team gefunden.")
    ∷ (
      alts (seqs (lit_i "mission" ∷ star dot ∷ lit_i "failed" ∷ []))
          (lit_i "could not be created" ∷ lit_i "start failed" ∷ []),
      "Die Mission ist beim Start fehlgeschlagen.",
    )
    ∷ []

abbrev pub not_started : Text
not_started = units "Der Auftrag konnte nicht gestartet werden."

-- The first entry whose pattern is found.
unfoldable pub known_error : List (Regex × String) → Text → Option String
known_error [] raw = none
known_error ((pattern, message) ∷ r) raw =
    if test pattern raw then some message else known_error r raw

-- The texts that are passed on as they are.
abbrev pub is_plain : Text → Bool
is_plain raw =
    starts_with (units "Das hat leider") raw || starts_with (units "Der Auftrag konnte") raw

abbrev pub after_lookup : Option String → Text → Text
after_lookup (some message) raw = units message
after_lookup none raw = if is_plain raw then raw else not_started

abbrev pub translate_trimmed : Text → Text
translate_trimmed [] = not_started
translate_trimmed (c ∷ s) = after_lookup (known_error known_errors (c ∷ s)) (c ∷ s)

-- `Hufi.errors.translate`
unfoldable pub translate : Text → Text
translate raw = translate_trimmed (trim raw)
