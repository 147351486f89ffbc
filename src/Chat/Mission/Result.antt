-- ===== src/Chat/Mission/Result.antt =====
-- The result card of api/static/chat.js: `renderResult`.
use hufi_agents.Prelude.{
  ℕ, zero, suc, ◌≡◌, ◌≤◌, ◌<◌, refl, ◌⊎◌, inl, inr, String, Bool, Bool-cases, true, false, List, [],
  ◌∷◌, ◌++◌, ◌=ˢ◌, if◌then◌else◌, ltb, length, take, length-append, arith,
}
use hufi_agents.Js.Text.{Text, units, trim, trim_start, trim_end, is_space}
use hufi_agents.Chat.Mission.{Mission}
use hufi_agents.Chat.Send.{visible_redact}

pub record ResultCard : Type 0 where
  pub mark : String
  pub title : String
  pub tone : String
  pub full : Text
  pub short : Text
  pub is_long : Bool

abbrev pub fallback : String → Text
fallback status =
    if status =ˢ "failed"
    then units "Es ist ein Fehler aufgetreten. Details siehe unten."
    else if status =ˢ "cancelled"
    then units "Die Mission wurde abgebrochen."
    else units "Fertig."

abbrev or_fallback : Text → Text → Text
or_fallback [] d = d
or_fallback (c ∷ t) d = c ∷ t

-- `short`
unfoldable pub shorten : Text → Text
shorten full = if ltb 320 (length full) then trim (take 320 full) ++ units "…" else full

abbrev result_text : Mission → Text
result_text m = or_fallback (visible_redact (trim m.result)) (fallback m.status)

unfoldable pub render_result : Mission → ResultCard
render_result m =
    let failed = m.status =ˢ "failed" in
    let cancelled = m.status =ˢ "cancelled" in
    record {
      mark = if failed then "✕" else if cancelled then "○" else "✓";
      title = if failed then "Nicht geschafft" else if cancelled then "Abgebrochen" else "Fertig";
      tone = if failed then "bad" else if cancelled then "idle" else "ok";
      full = result_text m;
      short = shorten (result_text m);
      is_long = ltb 320 (length (result_text m));
    }

length-take : {A : Type 0} (n : ℕ) (l : List A) → length (take n l) ≤ n
length-take zero l = omega arith
length-take (suc n) [] = omega arith
length-take (suc n) (x ∷ l) = omega (arith, length-take n l)

length-trim_start : (s : Text) → length (trim_start s) ≤ length s
unfolding trim_start
length-trim_start [] = omega arith
length-trim_start (c ∷ s) = elim (Bool-cases (is_space c)) [
  | inl e ↦ rw e (omega (arith, length-trim_start s))
  | inr e ↦ rw e (omega arith)
]

length-keep :
    (c : ℕ) (r : Text) (n : ℕ)
    → length r ≤ n
    → length (elim r [ [] ↦ (if is_space c then [] else c ∷ []) | d ∷ q ↦ c ∷ d ∷ q ]) ≤ suc n
length-keep c [] n h = elim (Bool-cases (is_space c)) [
  | inl e ↦ rw e (omega arith)
  | inr e ↦ rw e (omega arith)
]
length-keep c (d ∷ q) n h = omega (arith, h)

length-trim_end : (s : Text) → length (trim_end s) ≤ length s
unfolding trim_end
length-trim_end [] = omega arith
length-trim_end (c ∷ s) = length-keep c (trim_end s) (length s) (length-trim_end s)

length-trim : (s : Text) → length (trim s) ≤ length s
unfolding trim
length-trim s = omega (arith, length-trim_start (trim_end s), length-trim_end s)

length-shorten : (s : Text) → length (shorten s) ≤ 321
unfolding shorten
length-shorten s = elim (Bool-cases (ltb 320 (length s))) [
  | inl e ↦ rw e (
      omega (
        arith,
        length-append (trim (take 320 s)) (units "…"),
        length-trim (take 320 s),
        length-take 320 s,
      ))
  | inr e ↦ rw e (ground arith)
]

shorten-whole : (s : Text) → ltb 320 (length s) ≡ false → shorten s ≡ s
unfolding shorten
shorten-whole s h = rw (h, shorten) refl

or_fallback-pos : (t d : Text) → 0 < length d → 0 < length (or_fallback t d)
or_fallback-pos [] d h = h
or_fallback-pos (c ∷ t) d h = omega arith

fallback-pos : (status : String) → 0 < length (fallback status)
fallback-pos status = ground arith

-- The card of a result always has a text; at first it shows at most 321 units of it, and when no
-- button to open the rest is offered, it shows the whole text.
pub render_result-short :
    (m : Mission)
    → (0 < length (render_result m).full)
      × (length (render_result m).short ≤ 321)
      × (((render_result m).is_long ≡ true) ⊎ ((render_result m).short ≡ (render_result m).full))
unfolding render_result
render_result-short m = (
  or_fallback-pos (visible_redact (trim m.result)) (fallback m.status) (fallback-pos m.status),
  length-shorten (result_text m),
  whole (Bool-cases (ltb 320 (length (result_text m)))),
)
  where
    whole :
        (ltb 320 (length (result_text m)) ≡ true) ⊎ (ltb 320 (length (result_text m)) ≡ false)
        → (ltb 320 (length (result_text m)) ≡ true) ⊎ (shorten (result_text m) ≡ result_text m)
    whole (inl e) = inl e
    whole (inr e) = inr (shorten-whole (result_text m) e)
