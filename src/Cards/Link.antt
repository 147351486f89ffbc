-- ===== src/Cards/Link.antt =====
-- Links to repositories: `toHttpsGithubUrl` of api/static/cards.js. A missing text is empty.
use hufi_agents.Prelude.{
  ℕ, Bool, true, false, ◌||◌, ◌&&◌, [], ◌∷◌, ◌++◌, Option, none, some, ◌==◌, if◌then◌else◌, or_else,
}
use hufi_agents.Js.Text.{Text, units}
use hufi_agents.Js.Regex.{Regex, start, finish, unit, seq, lazy, group, is_word, Cursor}
use hufi_agents.Js.Regex.Patterns.{chr, lit, plus, opt, dot, seqs}
use hufi_agents.Js.Regex.Search.{test, exec, capture, replace}

abbrev is_name_unit : ℕ → Bool
is_name_unit c = is_word c || c == b'.' || c == b'-'

-- `^[\w.-]+\/[\w.-]+$`
abbrev pub repo_pattern : Regex
repo_pattern =
    seqs (start ∷ plus (unit is_name_unit) ∷ chr b'/' ∷ plus (unit is_name_unit) ∷ finish ∷ [])

-- `^git@github\.com:(.+?)(\.git)?$`
abbrev pub ssh_pattern : Regex
ssh_pattern = seqs (
    start
    ∷ lit "git@github.com:"
    ∷ group 1 (seq dot (lazy dot))
    ∷ opt (group 2 (lit ".git"))
    ∷ finish
    ∷ [])

-- `^https?:\/\/`
abbrev pub http_pattern : Regex
http_pattern = seqs (start ∷ lit "http" ∷ opt (chr b's') ∷ lit "://" ∷ [])

-- `\.git$`
abbrev pub git_suffix : Regex
git_suffix = seq (lit ".git") finish

abbrev pub github : Text
github = units "https://github.com/"

abbrev pub is_given : Text → Bool
is_given [] = false
is_given (_ ∷ _) = true

abbrev pub http_or_none : Bool → Text → Option Text
http_or_none true s = some (replace git_suffix (λ _. []) s)
http_or_none false s = none

abbrev pub ssh_or_http : Option Cursor → Text → Option Text
ssh_or_http none s = http_or_none (test http_pattern s) s
ssh_or_http (some m) s = some (github ++ or_else (capture 1 m) [])

-- What the address of the repository itself gives.
unfoldable pub from_address : Text → Option Text
unfolding exec test replace
from_address [] = none
from_address (c ∷ s) = ssh_or_http (exec ssh_pattern (c ∷ s)) (c ∷ s)

unfoldable pub to_https_github_url : (repo_url github_repo : Text) → Option Text
unfolding from_address test
to_https_github_url repo_url github_repo =
    if is_given github_repo && test repo_pattern github_repo
    then some (github ++ github_repo)
    else from_address repo_url
