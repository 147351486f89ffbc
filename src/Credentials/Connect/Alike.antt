-- ===== src/Credentials/Connect/Alike.antt =====
-- Dialogs of api/static/credentials.js that differ in the text of the input.
use hufi_agents.Prelude.{
  ℕ, ◌≡◌, refl, sym, ap, ◌∙◌, inl, inr, Bool, Bool-cases, true, false, List, [], ◌∷◌, Option, none,
  some, ◌==◌, ◌=ˢ◌, if◌then◌else◌, any, ltb, length,
}
use hufi_agents.Js.Text.{Text, trim, is_space}
use hufi_agents.Credentials.Detect.{Check, check_answer, check_trimmed, loose_plausibility_check}
use hufi_agents.Credentials.Connect.{
  Panel, form, connected, Overlay, Dialogs, in_overlay, in_panel, edit, toggle, check, redraw,
  refuse, renew,
}

-- Two texts of which „Prüfen“ says the same.
abbrev pub AlikeTexts : Text → Text → Type 0
AlikeTexts v w = loose_plausibility_check v ≡ loose_plausibility_check w

abbrev pub put : Text → Panel → Panel
put i (form f) = form (record f { input = i })
put i (connected x) = connected x

abbrev pub put_in : Text → Option Overlay → Option Overlay
put_in i none = none
put_in i (some o) = some (in_panel (put i) o)

-- The dialogs with another text in the input, and another record of what was sent.
abbrev pub with_secret : Text → List Text → Dialogs → Dialogs
with_secret i l d = record d { overlay = put_in i d.overlay; sent = l }

-- The dialogs as they are seen and kept, without the text in the input and the requests' bodies.
abbrev pub seen : Dialogs → Dialogs
seen d = with_secret [] [] d

abbrev pub FitsPanel : Text → Panel → Type 0
FitsPanel i (form f) = AlikeTexts f.input i
FitsPanel i (connected x) = Unit

abbrev pub Fits : Text → Option Overlay → Type 0
Fits i none = Unit
Fits i (some o) = FitsPanel i o.panel

-- The second dialogs are the first ones, but for the input, which is alike, and what was sent.
abbrev pub Same : Dialogs → Dialogs → Type 0
Same d e = (i : Text) × (l : List Text) × (e ≡ with_secret i l d) × Fits i d.overlay

-- A change of the overlay that does the same to alike inputs.
abbrev pub Uniform : (Overlay → Overlay) → (Overlay → Overlay) → Type 0
Uniform f g =
    (i : Text) (o : Overlay)
    → FitsPanel i o.panel
    → (j : Text) × (g (in_panel (put i) o) ≡ in_panel (put j) (f o)) × FitsPanel j (f o).panel

pub in_overlay-Same :
    (f g : Overlay → Overlay) (d : Dialogs) (i : Text) (l : List Text)
    → Uniform f g
    → (o : Option Overlay) → Fits i o
    → Same
        (in_overlay f (record d { overlay = o }))
        (in_overlay g (with_secret i l (record d { overlay = o })))
in_overlay-Same f g d i l u none h = (i, l, refl, tt)
in_overlay-Same f g d i l u (some o) h =
    let (j, e, k) = u i o h in (j, l, ap (λ x. record d { overlay = some x; sent = l }) e, k)

panel-Uniform :
    (f g : Panel → Panel)
    → ((i : Text) (p : Panel)
        → FitsPanel i p
        → (j : Text) × (g (put i p) ≡ put j (f p)) × FitsPanel j (f p))
    → Uniform (in_panel f) (in_panel g)
panel-Uniform f g u i o h =
    let (j, e, k) = u i o.panel h in (j, ap (λ p. record o { panel = p }) e, k)

-- Drawing a panel that has no secret in it.
pub redraw-Uniform :
    (n : ℕ) (p : Panel) → ((put [] p ≡ p) × FitsPanel [] p) → Uniform (redraw n p) (redraw n p)
redraw-Uniform n p (e, k) i o h = elim (Bool-cases (o.number == n)) [
  | inl t ↦ rw t ([], ap (λ x. record o { panel = x }) (sym e), k)
  | inr t ↦ rw t (i, refl, h)
]

pub edit-Uniform : (v w : Text) → AlikeTexts v w → Uniform (in_panel (edit v)) (in_panel (edit w))
edit-Uniform v w a = panel-Uniform (edit v) (edit w) by_panel
  where
    by_panel :
        (i : Text) (p : Panel)
        → FitsPanel i p
        → (j : Text) × (edit w (put i p) ≡ put j (edit v p)) × FitsPanel j (edit v p)
    by_panel i (form f) h = (w, refl, a)
    by_panel i (connected x) h = (i, refl, tt)

-- An operation on a panel that leaves the input as it is.
pub KeepsInput : (Panel → Panel) → Type 0
KeepsInput f =
    (i : Text) (p : Panel) → FitsPanel i p → (f (put i p) ≡ put i (f p)) × FitsPanel i (f p)

pub keeps-Uniform : (f : Panel → Panel) → KeepsInput f → Uniform (in_panel f) (in_panel f)
unfolding KeepsInput
keeps-Uniform f k = panel-Uniform f f (λ i p h. let (e, q) = k i p h in (i, e, q))

pub toggle-KeepsInput : KeepsInput toggle
unfolding KeepsInput
toggle-KeepsInput i (form f) h = (refl, h)
toggle-KeepsInput i (connected x) h = (refl, tt)

pub check-KeepsInput : KeepsInput check
unfolding KeepsInput
check-KeepsInput i (connected x) h = (refl, tt)
check-KeepsInput i (form f) h = by_busy f.busy
  where
    by_busy :
        (b : Bool)
        → ((if b
              then form (record f { input = i })
              else form (record f { input = i; checked = some (loose_plausibility_check i) }))
            ≡ put i (
                if b
                then form f
                else form (record f { checked = some (loose_plausibility_check f.input) })))
          × FitsPanel i (
              if b
              then form f
              else form (record f { checked = some (loose_plausibility_check f.input) }))
    by_busy true = (refl, h)
    by_busy false = (ap (λ c. form (record f { input = i; checked = some c })) (sym h), h)

pub refuse-KeepsInput : (n : ℕ) → KeepsInput (refuse n)
unfolding KeepsInput
refuse-KeepsInput n i (connected x) h = (refl, tt)
refuse-KeepsInput n i (form f) h = elim (Bool-cases (f.number == n)) [
  | inl t ↦ rw t (refl, h)
  | inr t ↦ rw t (refl, h)
]

pub renew-Uniform : (n : ℕ) → Uniform (in_panel (renew n)) (in_panel (renew n))
renew-Uniform n = panel-Uniform (renew n) (renew n) by_panel
  where
    by_panel :
        (i : Text) (p : Panel)
        → FitsPanel i p
        → (j : Text) × (renew n (put i p) ≡ put j (renew n p)) × FitsPanel j (renew n p)
    by_panel i (form f) h = (i, refl, h)
    by_panel i (connected x) h = ([], refl, refl)

-- „Prüfen“ says of a blank text what it says of no other.
abbrev says_blank : Check → Bool
says_blank c = c.message =ˢ "Bitte einen Zugangsschlüssel eingeben."

abbrev pub is_empty : Text → Bool
is_empty [] = true
is_empty (c ∷ t) = false

check_trimmed-blank : (t : Text) → says_blank (check_trimmed t) ≡ is_empty t
check_trimmed-blank [] = refl
check_trimmed-blank (c ∷ t) = by_tests (any is_space (c ∷ t)) (ltb (length (c ∷ t)) 8)
  where
    by_tests :
        (a b : Bool)
        → says_blank (
            if a
            then check_answer false
                "Das enthält Leerzeichen — ein Zugangsschlüssel ist meist eine einzelne, zusammenhängende Zeichenfolge."
            else if b
            then check_answer false "Das wirkt zu kurz für einen Zugangsschlüssel."
            else check_answer true
                "Sieht plausibel aus. Das ist keine echte Prüfung beim Anbieter.")
          ≡ false
    by_tests true b = refl
    by_tests false true = refl
    by_tests false false = refl

pub alike-blank : (v w : Text) → AlikeTexts v w → is_empty (trim v) ≡ is_empty (trim w)
unfolding loose_plausibility_check
alike-blank v w a =
    sym (check_trimmed-blank (trim v)) ∙ ap says_blank a ∙ check_trimmed-blank (trim w)
