-- ===== src/Cards/Safe.antt =====
-- Where the links of the registered repositories lead: `toHttpsGithubUrl` and `renderResourceTile` of
-- api/static/cards.js.
use mathlib.Core.Path.{subst}
use hufi_agents.Prelude.{
  ℕ, String, ◌≡◌, ◌≢◌, refl, sym, ap, ◌∙◌, ◌⊎◌, inl, inr, Bool, true, false, Bool-cases, List, [],
  ◌∷◌, ◌++◌, Option, none, some, or_else, ◌&&◌, ◌==◌, ==_iff, if◌then◌else◌, At, map, here, there,
}
use hufi_agents.Js.Text.{Text, units, starts_with}
use hufi_agents.Js.Regex.{Cursor}
use hufi_agents.Js.Regex.Derives.{Derives}
use hufi_agents.Js.Regex.Patterns.{chr, sequence, opt}
use hufi_agents.Js.Regex.Found.{Place, here as place_here, later, test_sound}
use hufi_agents.Js.Regex.Search.{test, exec, replace, capture}
use hufi_agents.Cards.Link.{
  http_pattern, git_suffix, github, http_or_none, ssh_or_http, ssh_pattern, repo_pattern, is_given,
  from_address, to_https_github_url,
}
use hufi_agents.OrgData.Store.{Reply, ok, err}
use hufi_agents.OrgData.Types.{Resource}
use hufi_agents.Cards.Sets.{At-of_map}
use hufi_agents.Cards.Tile.{
  opens, Button, link_button, or_url, url_value, text_or_empty, field_of, link_of, buttons_of,
  Registered, render_resource_tile, load_registry_projects, registry_resource,
}

-- A literal takes itself.
lit-rest : (w : Text) (c e : Cursor) → Derives (sequence chr w) c e → c.rest ≡ w ++ e.rest
lit-rest [] c e d = ap (λ (x : Cursor). x.rest) (sym d)
lit-rest (x ∷ []) c e (y, ys, q, k, r) =
    let z : y ≡ x = ==_iff y x k in
    let w : e.rest ≡ ys = ap (λ (m : Cursor). m.rest) r in rw (q, z, w)
lit-rest (x ∷ y ∷ w) c e (m, (z, zs, q, k, r), d) =
    let i : z ≡ x = ==_iff z x k in
    let j : m.rest ≡ zs = ap (λ (n : Cursor). n.rest) r in
    let l : m.rest ≡ (y ∷ w) ++ e.rest = lit-rest (y ∷ w) m e d in
    rw (q, i) (ap (λ t. x ∷ t) (sym j ∙ l))

before_later : {x : ℕ} {b s : Text} {c : Cursor} → Place (x ∷ b) s c → c.before ≢ []
before_later place_here h = cc
before_later (later p) h = before_later p h

Place-start : {s : Text} {c : Cursor} → Place [] s c → c.before ≡ [] → c.rest ≡ s
Place-start place_here h = refl
Place-start (later p) h = absurd (before_later p h)

-- A web address.
abbrev pub IsWeb : Text → Type 0
IsWeb u = (starts_with (units "http://") u ≡ true) ⊎ (starts_with (units "https://") u ≡ true)

-- An address that begins like one of the web.
Web : Text → Type 0
Web s = ((t : Text) × (s ≡ units "http://" ++ t)) ⊎ ((t : Text) × (s ≡ units "https://" ++ t))

Web-rest :
    (s : Text) (a b e : Cursor)
    → s ≡ units "http" ++ a.rest
    → Derives (opt (chr b's')) a b
    → b.rest ≡ units "://" ++ e.rest
    → Web s
unfolding Web
Web-rest s a b e h (inl (x, xs, q, k, r)) l =
    let i : x ≡ b's' = ==_iff x b's' k in
    let j : b.rest ≡ xs = ap (λ (n : Cursor). n.rest) r in
    let m : a.rest ≡ b's' ∷ (units "://" ++ e.rest) = q ∙ (rw i (ap (λ t. b's' ∷ t) (sym j ∙ l))) in
    inr (e.rest, h ∙ ap (λ t. units "http" ++ t) m)
Web-rest s a b e h (inr q) l =
    let m : a.rest ≡ units "://" ++ e.rest = ap (λ (n : Cursor). n.rest) (sym q) ∙ l in
    inl (e.rest, h ∙ ap (λ t. units "http" ++ t) m)

test-http : (s : Text) → test http_pattern s ≡ true → Web s
test-http s h =
    let (c, e, (p, (m0, (k, q), (m1, d1, (m2, d2, d3))))) = test_sound http_pattern s h in
    let start : m0.rest ≡ s = ap (λ (n : Cursor). n.rest) q ∙ Place-start p k in
    Web-rest s m1 m2 e (sym start ∙ lit-rest (units "http") m0 m1 d1) d2
      (lit-rest (units "://") m2 e d3)

replace-http :
    (t : Text)
    → starts_with (units "http://") (replace git_suffix (λ _. []) (units "http://" ++ t)) ≡ true
unfolding replace
replace-http t = refl

replace-https :
    (t : Text)
    → starts_with (units "https://") (replace git_suffix (λ _. []) (units "https://" ++ t)) ≡ true
unfolding replace
replace-https t = refl

replace-IsWeb : (s : Text) → Web s → IsWeb (replace git_suffix (λ _. []) s)
unfolding Web
replace-IsWeb s (inl (t, q)) = inl (rw q (replace-http t))
replace-IsWeb s (inr (t, q)) = inr (rw q (replace-https t))

some_inj : (t u : Text) → some t ≡ some u → t ≡ u
some_inj t u h = cc

github-IsWeb : (t : Text) → IsWeb (github ++ t)
github-IsWeb t = inr refl

http_or_none-IsWeb :
    (s u : Text) (b : Bool) → test http_pattern s ≡ b → http_or_none b s ≡ some u → IsWeb u
http_or_none-IsWeb s u true h k = subst IsWeb (some_inj _ u k) (replace-IsWeb s (test-http s h))
http_or_none-IsWeb s u false h k = cc

ssh_or_http-IsWeb : (o : Option Cursor) (s u : Text) → ssh_or_http o s ≡ some u → IsWeb u
ssh_or_http-IsWeb none s u h = http_or_none-IsWeb s u (test http_pattern s) refl h
ssh_or_http-IsWeb (some m) s u h =
    subst IsWeb (some_inj _ u h) (github-IsWeb (or_else (capture 1 m) []))

address-IsWeb : (a u : Text) → from_address a ≡ some u → IsWeb u
unfolding from_address
address-IsWeb [] u h = cc
address-IsWeb (x ∷ a) u h = ssh_or_http-IsWeb (exec ssh_pattern (x ∷ a)) (x ∷ a) u h

chosen-IsWeb :
    (b : Bool) (a g u : Text)
    → (if b then some (github ++ g) else from_address a) ≡ some u
    → IsWeb u
chosen-IsWeb true a g u h = subst IsWeb (some_inj _ u h) (github-IsWeb g)
chosen-IsWeb false a g u h = address-IsWeb a u h

url-IsWeb : (a g u : Text) → to_https_github_url a g ≡ some u → IsWeb u
unfolding to_https_github_url
url-IsWeb a g u h = chosen-IsWeb (is_given g && test repo_pattern g) a g u h

-- The text of a link button begins like its address.
starts_with-append : (p u t : Text) → starts_with p u ≡ true → starts_with p (u ++ t) ≡ true
starts_with-append [] u t h = refl
starts_with-append (x ∷ p) [] t h = cc
starts_with-append (x ∷ p) (y ∷ u) t h = elim (Bool-cases (x == y)) [
  | inl e ↦ rw e (starts_with-append p u t (rw e at h))
  | inr e ↦ cc
]

append-IsWeb : (u t : Text) → IsWeb u → IsWeb (u ++ t)
append-IsWeb u t (inl h) = inl (starts_with-append (units "http://") u t h)
append-IsWeb u t (inr h) = inr (starts_with-append (units "https://") u t h)

-- An address from the metadata, or else the computed one.
or_url-IsWeb :
    (o k : Option Text) (u : Text)
    → ((v : Text) → o ≡ some v → IsWeb v)
    → ((v : Text) → k ≡ some v → IsWeb v)
    → or_url (text_or_empty (url_value o)) k ≡ some u
    → IsWeb u
or_url-IsWeb none k u p q h = q u h
or_url-IsWeb (some []) k u p q h = q u h
or_url-IsWeb (some (c ∷ t)) k u p q h = p u h

link_of-IsWeb : (p : Registered) (u : Text) → link_of (registry_resource p) ≡ some u → IsWeb u
unfolding link_of registry_resource
link_of-IsWeb p u h =
    let meta : String → Text = λ k. text_or_empty (field_of (registry_resource p).metadata k) in
    or_url-IsWeb (to_https_github_url (units p.repo_url) (units p.github_repo))
      (to_https_github_url (meta "repo_url") (meta "github_repo")) u
      (url-IsWeb (units p.repo_url) (units p.github_repo))
      (url-IsWeb (meta "repo_url") (meta "github_repo")) h

-- A button for a link opens the link, or a page below it.
link_button-IsWeb :
    (label : String) (path : Text) (o : Option Text) (u : Text)
    → ((v : Text) → o ≡ some v → IsWeb v)
    → (link_button label path o).action ≡ opens u
    → IsWeb u
link_button-IsWeb label path none u p h = cc
link_button-IsWeb label path (some v) u p h =
    subst IsWeb (opens_inj _ u h) (append-IsWeb v path (p v refl))
  where
    opens_inj : (t w : Text) → opens t ≡ opens w → t ≡ w
    opens_inj t w k = cc

registry_button-IsWeb :
    (p : Registered) (not_connected : Bool) (b : Button) (u : Text)
    → At b (render_resource_tile not_connected (registry_resource p)).buttons
    → b.action ≡ opens u
    → IsWeb u
unfolding render_resource_tile buttons_of registry_resource
registry_button-IsWeb p n b u here h = link_button-IsWeb _ _ _ u (link_of-IsWeb p) h
registry_button-IsWeb p n b u (there here) h = cc
registry_button-IsWeb p n b u (there (there here)) h = link_button-IsWeb _ _ _ u (link_of-IsWeb p) h
registry_button-IsWeb p n b u (there (there (there here))) h =
    link_button-IsWeb _ _ _ u (link_of-IsWeb p) h
registry_button-IsWeb p n b u (there (there (there (there m)))) h = elim m [ ]

-- Whatever the registry answers, each address that a button on the tile of one of its repositories
-- opens begins with http:// or https://.
pub registry_links :
    (reply : Reply (List Registered)) (rs : List Resource) (r : Resource) (not_connected : Bool)
    (b : Button) (u : Text)
    → load_registry_projects reply ≡ some rs
    → At r rs
    → At b (render_resource_tile not_connected r).buttons
    → b.action ≡ opens u
    → IsWeb u
unfolding load_registry_projects
registry_links (ok rows) rs r n b u h m k e =
    let (p, _, q) = At-of_map registry_resource rows (subst (At r) (sym (list_inj h)) m) in
    registry_button-IsWeb p n b u (subst (λ x. At b (render_resource_tile n x).buttons) q k) e
  where
    list_inj : some (map registry_resource rows) ≡ some rs → map registry_resource rows ≡ rs
    list_inj k = cc
registry_links (err m) rs r n b u h i k e = cc
