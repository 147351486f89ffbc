-- ===== src/Tests/Keys.antt =====
-- Examples of the detection of access keys: api/static/credentials.js.
use hufi_agents.Prelude.{List, map, ◌∷◌, [], none}
use hufi_agents.Prelude.{◌≡◌, refl, true, some, is_some}
use hufi_agents.Js.Text.{units, is_space, trim, trim_start, trim_end}
use hufi_agents.Js.Regex.Patterns.{is_digit}
use hufi_agents.Js.Regex.Search.{test}
use hufi_agents.Credentials.Detect.{secret_patterns, intercept_chat_input, loose_plausibility_check}
use hufi_agents.OrgData.Store.{ok}
use hufi_agents.Credentials.Connect.{no_dialogs}
use hufi_agents.Credentials.Connect.Session.{opens, checks, submits, answered, run}
use hufi_agents.Credentials.Connect.Alike.{AlikeTexts, seen}
use hufi_agents.Credentials.Connect.Secrecy.{Twin, both, typed, left, right, run_alike}
use hufi_agents.Credentials.Keys.{aws, known_keys_stopped}

known_keys_stopped_example :
    is_some (intercept_chat_input (units "key AKIA0123456789ABCDEF!")) ≡ true
unfolding is_digit
known_keys_stopped_example =
    known_keys_stopped aws (units "key ") (units "0123456789ABCDEF") (units "!") refl
      (
        refl,
        (
          refl,
          (
            refl,
            (
              refl,
              (
                refl,
                (
                  refl,
                  (
                    refl,
                    (
                      refl,
                      (refl, (refl, (refl, (refl, (refl, (refl, (refl, (refl, (refl, tt))))))))),
                    ),
                  ),
                ),
              ),
            ),
          ),
        ),
      )
      refl

assigned :
    intercept_chat_input (units "password=hunter2")
    ≡ some "Sieht nach einem zugewiesenen Passwort oder Token aus."
unfolding intercept_chat_input secret_patterns test is_space is_digit
assigned = refl

-- A key that the backend takes, in one session, and a wrong one in the other.
abbrev two_sessions : List Twin
two_sessions =
    both (opens "github" "GitHub")
    ∷ typed (units "ghp_secret") (units "ghp_other!")
    ∷ both checks
    ∷ both submits
    ∷ both (answered 5 0 (ok none))
    ∷ []

are_alike : AlikeTexts (units "ghp_secret") (units "ghp_other!")
unfolding loose_plausibility_check trim trim_start trim_end is_space
are_alike = refl

run_alike_example :
    seen (run (map left two_sessions) no_dialogs) ≡ seen (run (map right two_sessions) no_dialogs)
run_alike_example = run_alike two_sessions (tt, (are_alike, (tt, (tt, (tt, tt)))))
