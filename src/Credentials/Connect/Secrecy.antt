-- ===== src/Credentials/Connect/Secrecy.antt =====
-- What the dialogs of api/static/credentials.js let a secret change.
use mathlib.Core.Path.{subst}
use hufi_agents.Prelude.{
  ℕ, suc, ◌≡◌, refl, sym, ap, ◌∙◌, inl, inr, String, Bool, true, false, List, [], ◌∷◌, Option, none,
  some, Option-cases, ◌=ˢ◌, if◌then◌else◌, map, All, arith,
}
use hufi_agents.Js.Text.{Text, trim}
use hufi_agents.OrgData.Store.{Reply, ok, err}
use hufi_agents.Credentials.Connect.{
  Info, Form, Panel, form, connected, Overlay, Request, Dialogs, no_dialogs, empty_form, get_info,
  without, open_connect_modal, close_overlay, in_panel, edit_input, toggle, toggle_eye, check,
  check_input, send_secret, submit_form, submit_in, submit, refuse, info_of, note, answer_request,
  replace, disconnect,
}
use hufi_agents.Credentials.Connect.Session.{
  Event, opens, types, closes, replaces, toggles, checks, submits, disconnects, answered, split_at,
  after, run,
}
use hufi_agents.Credentials.Connect.Alike.{
  AlikeTexts, put, put_in, with_secret, seen, FitsPanel, Fits, Same, in_overlay-Same,
  redraw-Uniform, edit-Uniform, keeps-Uniform, toggle-KeepsInput, check-KeepsInput,
  refuse-KeepsInput, renew-Uniform, is_empty, alike-blank,
}

-- An event of two sessions: the same in both, or a text typed in the one and another in the other.
pub data Twin : Type 0 where
  both : Event → Twin
  typed : (v w : Text) → Twin

abbrev pub left : Twin → Event
left (both e) = e
left (typed v w) = types v

abbrev pub right : Twin → Event
right (both e) = e
right (typed v w) = types w

abbrev pub IsAlike : Twin → Type 0
IsAlike (both e) = Unit
IsAlike (typed v w) = AlikeTexts v w

send-Same :
    (o : Overlay) (f : Form) (i : Text) (d : Dialogs) (l : List Text) (t u : Text)
    → AlikeTexts f.input i
    → is_empty t ≡ is_empty u
    → Same
        (send_secret o f t d)
        (send_secret (in_panel (put i) o) (record f { input = i }) u (with_secret i l d))
send-Same o f i d l [] [] h e = (i, l, refl, h)
send-Same o f i d l [] (x ∷ u) h e = absurd (ground (arith, e))
send-Same o f i d l (x ∷ t) [] h e = absurd (ground (arith, e))
send-Same o f i d l (x ∷ t) (y ∷ u) h e = (i, i ∷ l, refl, h)

submit_form-Same :
    (o : Overlay) (p : Panel) (i : Text) (d : Dialogs) (l : List Text)
    → Fits i d.overlay
    → FitsPanel i p
    → Same (submit_form o p d) (submit_form (in_panel (put i) o) (put i p) (with_secret i l d))
submit_form-Same o (connected x) i d l k h = (i, l, refl, k)
submit_form-Same o (form f) i d l k h = by_busy f.busy
  where
    by_busy :
        (b : Bool)
        → Same (if b then d else send_secret o f (trim f.input) d) (
            if b
            then with_secret i l d
            else send_secret
                (in_panel (put i) o)
                (record f { input = i })
                (trim i)
                (with_secret i l d))
    by_busy true = (i, l, refl, k)
    by_busy false = send-Same o f i d l (trim f.input) (trim i) h (alike-blank f.input i h)

submit-Same :
    (d : Dialogs) (i : Text) (l : List Text) (o : Option Overlay)
    → d.overlay ≡ o
    → Fits i d.overlay
    → Same (submit_in o d) (submit_in (put_in i o) (with_secret i l d))
submit-Same d i l none e k = (i, l, refl, k)
submit-Same d i l (some o) e k = submit_form-Same o o.panel i d l k (subst (λ x. Fits i x) e k)

answer-Same :
    (now : ℕ) (q : Request) (r : Reply (Option Text)) (d : Dialogs) (i : Text) (l : List Text)
    → Fits i d.overlay
    → Same (answer_request now q r d) (answer_request now q r (with_secret i l d))
unfolding answer_request
answer-Same now q (ok hint) d i l k =
    in_overlay-Same _ _ (note q (info_of now q hint) d) i l
      (redraw-Uniform q.overlay (connected (info_of now q hint)) (refl, tt)) d.overlay k
answer-Same now q (err m) d i l k =
    in_overlay-Same _ _ d i l
      (keeps-Uniform (refuse q.form_number) (refuse-KeepsInput q.form_number)) d.overlay k

-- The dialogs after an overlay was opened.
abbrev opened_with : (connector label : String) → Dialogs → Option Info → Dialogs
opened_with connector label d o = record d {
  opened = suc d.opened;
  drawn = suc d.drawn;
  overlay = some (record {
    number = d.opened;
    connector = connector;
    label = label;
    panel = elim o [ some x ↦ connected x | none ↦ empty_form d.drawn ];
  });
}

opened-Same :
    (connector label : String) (d : Dialogs) (i : Text) (l : List Text)
    → Fits i d.overlay
    → (b : Bool) (o : Option Info)
    → Same
        (if b then d else opened_with connector label d o)
        (if b then with_secret i l d else record (opened_with connector label d o) { sent = l })
opened-Same connector label d i l k true o = (i, l, refl, k)
opened-Same connector label d i l k false none = ([], l, refl, refl)
opened-Same connector label d i l k false (some x) = ([], l, refl, tt)

open-Same :
    (connector label : String) (d : Dialogs) (i : Text) (l : List Text)
    → Fits i d.overlay
    → Same
        (open_connect_modal connector label d)
        (open_connect_modal connector label (with_secret i l d))
unfolding open_connect_modal
open-Same connector label d i l k =
    opened-Same connector label d i l k (connector =ˢ "") (get_info connector d.connections)

after-Same :
    (e : Event) (d : Dialogs) (i : Text) (l : List Text)
    → Fits i d.overlay
    → Same (after e d) (after e (with_secret i l d))
unfolding after edit_input close_overlay toggle_eye check_input replace disconnect submit
after-Same (opens connector label) d i l k = open-Same connector label d i l k
after-Same (types v) d i l k = in_overlay-Same _ _ d i l (edit-Uniform v v refl) d.overlay k
after-Same closes d i l k = (i, l, refl, tt)
after-Same replaces d i l k =
    in_overlay-Same _ _ (record d { drawn = suc d.drawn }) i l (renew-Uniform d.drawn) d.overlay k
after-Same toggles d i l k =
    in_overlay-Same _ _ d i l (keeps-Uniform toggle toggle-KeepsInput) d.overlay k
after-Same checks d i l k =
    in_overlay-Same _ _ d i l (keeps-Uniform check check-KeepsInput) d.overlay k
after-Same submits d i l k = submit-Same d i l d.overlay refl k
after-Same (disconnects number connector) d i l k =
    in_overlay-Same _ _
      (record d { connections = without connector d.connections; drawn = suc d.drawn }) i l
      (redraw-Uniform number (empty_form d.drawn) (refl, refl)) d.overlay k
after-Same (answered now place reply) d i l k = elim (Option-cases (split_at place d.waiting)) [
  | inl e ↦ rw (e, after) (i, l, refl, k)
  | inr ((q, m), e) ↦ rw (e, after) (answer-Same now q reply (record d { waiting = m }) i l k)
]

typed-Same :
    (v w : Text) (d : Dialogs) (i : Text) (l : List Text)
    → AlikeTexts v w
    → Fits i d.overlay
    → Same (after (types v) d) (after (types w) (with_secret i l d))
unfolding after edit_input
typed-Same v w d i l a k = in_overlay-Same _ _ d i l (edit-Uniform v w a) d.overlay k

twin-Same :
    (t : Twin) (d : Dialogs) (i : Text) (l : List Text)
    → IsAlike t
    → Fits i d.overlay
    → Same (after (left t) d) (after (right t) (with_secret i l d))
twin-Same (both e) d i l a k = after-Same e d i l k
twin-Same (typed v w) d i l a k = typed-Same v w d i l a k

run-Same :
    (ts : List Twin) (d : Dialogs) (i : Text) (l : List Text)
    → All IsAlike ts
    → Fits i d.overlay
    → Same (run (map left ts) d) (run (map right ts) (with_secret i l d))
unfolding run
run-Same [] d i l a k = (i, l, refl, k)
run-Same (t ∷ ts) d i l a k =
    let (j, m, e, h) = twin-Same t d i l a.0 k in
    subst (λ x. Same (run (map left ts) (after (left t) d)) (run (map right ts) x)) (sym e)
      (run-Same ts (after (left t) d) j m a.1 h)

seen-with_secret : (i : Text) (l : List Text) (d : Dialogs) → seen (with_secret i l d) ≡ seen d
seen-with_secret i l d = by_overlay d.overlay
  where
    by_panel : (p : Panel) → put [] (put i p) ≡ put [] p
    by_panel (form f) = refl
    by_panel (connected x) = refl

    by_overlay :
        (o : Option Overlay)
        → seen (with_secret i l (record d { overlay = o })) ≡ seen (record d { overlay = o })
    by_overlay none = refl
    by_overlay (some o) =
        ap (λ p. record d { overlay = some (record o { panel = p }); sent = [] }) (by_panel o.panel)

-- Two sessions of the connect dialogs, with the same clicks and the same answers of the backend, in
-- which different texts are typed: if „Prüfen“ says the same of the texts, then the connections that
-- are kept, the requests that wait and all that the dialogs show are the same in both, but for the
-- text in the input itself; only the bodies of the requests differ.
pub run_alike :
    (ts : List Twin)
    → All IsAlike ts
    → seen (run (map left ts) no_dialogs) ≡ seen (run (map right ts) no_dialogs)
run_alike ts a =
    let (i, l, e, k) = run-Same ts no_dialogs [] [] a tt in
    sym (ap seen e ∙ seen-with_secret i l (run (map left ts) no_dialogs))
