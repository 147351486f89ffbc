-- ===== src/Rooms/Log.antt =====
-- The messages of the rooms in api/static/rooms.js beside a plain account of what was written where.
use mathlib.Core.Bool.{false≢true}
use hufi_agents.Prelude.{
  ℕ, String, ◌≡◌, refl, sym, ◌∙◌, Bool, true, false, inl, inr, Bool-cases, List, [], ◌∷◌, ◌++◌,
  append-nil, append_assoc, Option, none, some, Option-cases, ◌=ˢ◌, if◌then◌else◌, eq_iff, eq_refl,
  arith,
}
use hufi_agents.Js.Text.{Text, trim}
use hufi_agents.Rooms.Thread.{
  Message, MessageStore, messages_of, set_messages, Panel, Rooms, is_empty, render_room, open_panel,
  close_panel, type_text, deliver, send, Event, opens, closes, types, sends, step, initial, run,
}

-- The room whose composer is on the screen, with what stands in it.
abbrev pub Composer : Type 0
Composer = Option (String × Text)

abbrev pub retype : Text → Composer → Composer
retype t none = none
retype t (some (id, _)) = some (id, t)

-- What a click on the button adds to the account of a room.
abbrev pub written_to : String → ℕ → String → Text → List Message
written_to id now room [] = []
written_to id now room (c ∷ t) = if room =ˢ id then record { text = c ∷ t; ts = now } ∷ [] else []

abbrev pub written : String → ℕ → Composer → List Message
written id now none = []
written id now (some (room, t)) = written_to id now room (trim t)

-- A blank text stays in the composer.
abbrev pub left_to : String → Text → Text → Composer
left_to room t [] = some (room, t)
left_to room t (_ ∷ _) = some (room, [])

abbrev pub left : Composer → Composer
left none = none
left (some (room, t)) = left_to room t (trim t)

-- The account of a room: the texts that were sent while the room was open, in their order.
abbrev pub log : String → Composer → List Event → List Message
log id c [] = []
log id c (opens r ∷ es) = log id (some (r.id, [])) es
log id c (closes ∷ es) = log id none es
log id c (types t ∷ es) = log id (retype t c) es
log id c (sends now ∷ es) = written id now c ++ log id (left c) es

abbrev composer_of : Option Panel → Composer
composer_of none = none
composer_of (some p) = some (p.room_id, p.input)

not_both : (j k id : String) → (j =ˢ k) ≡ false → (k =ˢ id) ≡ true → (j =ˢ id) ≡ true → ⊥
not_both j k id n a b =
    let e : j ≡ k = (eq_iff j id).0 b ∙ sym ((eq_iff k id).0 a) in
    false≢true (sym n ∙ (rw e (eq_refl k)))

messages_of-set_messages :
    (id k : String) (l : List Message) (m : MessageStore)
    → messages_of id (set_messages k l m) ≡ (if k =ˢ id then l else messages_of id m)
messages_of-set_messages id k l [] = refl
messages_of-set_messages id k l ((j, x) ∷ m) = elim (Bool-cases (j =ˢ k)) [
  | inl e ↦ let q : j ≡ k = (eq_iff j k).0 e in rw e (rw q (over (k =ˢ id) l x (messages_of id m)))
  | inr e ↦
      rw (e, messages_of-set_messages id k l m) (swapped (j =ˢ id) (k =ˢ id) (not_both j k id e))
]
  where
    over :
        (b : Bool) (p q r : List Message)
        → (if b then p else r) ≡ (if b then p else (if b then q else r))
    over true p q r = refl
    over false p q r = refl

    swapped :
        (b c : Bool)
        → (c ≡ true → b ≡ true → ⊥)
        → (if b then x else (if c then l else messages_of id m))
          ≡ (if c then l else (if b then x else messages_of id m))
    swapped true true n = absurd (n refl refl)
    swapped true false n = refl
    swapped false c n = refl

-- The thread on the screen is that of the stored messages.
abbrev pub Drawn : MessageStore → Option Panel → Type 0
Drawn m none = Unit
Drawn m (some p) = (p.bubbles ≡ messages_of p.room_id m) × (p.has_hint ≡ is_empty p.bubbles)

-- One step of the store follows the account of every room.
record Follows (e : Event) (s : Rooms) : Type 0 where
  stored :
      (id : String) (es : List Event)
      → messages_of id s.messages ++ log id (composer_of s.panel) (e ∷ es)
        ≡ messages_of id (step e s).messages ++ log id (composer_of (step e s).panel) es
  drawn : Drawn (step e s).messages (step e s).panel

is_empty-append : (l : List Message) (x : Message) → is_empty (l ++ x ∷ []) ≡ false
is_empty-append [] x = refl
is_empty-append (y ∷ l) x = refl

-- A sent message is added to the account of its room, and to no other.
delivered :
    (id : String) (now : ℕ) (c : ℕ) (t : Text) (p : Panel) (m : MessageStore) (l : List Message)
    → messages_of id m ++ (written_to id now p.room_id (c ∷ t) ++ l)
      ≡ messages_of id (deliver now (c ∷ t) p m).messages ++ l
delivered id now c t p m l = elim (Bool-cases (p.room_id =ˢ id)) [
  | inl e ↦
      let q : p.room_id ≡ id = (eq_iff p.room_id id).0 e in
      rw (messages_of-set_messages id p.room_id (messages_of p.room_id m ++ msg ∷ []) m, e)
        (rw q (sym (append_assoc (messages_of id m) (msg ∷ []) l)))
  | inr e ↦
      rw (messages_of-set_messages id p.room_id (messages_of p.room_id m ++ msg ∷ []) m, e) refl
]
  where
    msg : Message
    msg = record { text = c ∷ t; ts = now }

delivered_drawn :
    (now : ℕ) (c : ℕ) (t : Text) (p : Panel) (m : MessageStore)
    → Drawn m (some p)
    → Drawn (deliver now (c ∷ t) p m).messages (deliver now (c ∷ t) p m).panel
delivered_drawn now c t p m d = (
  rw
      (
        messages_of-set_messages p.room_id p.room_id (messages_of p.room_id m ++ msg ∷ []) m,
        eq_refl p.room_id,
        d.0,
      )
      refl,
  sym (is_empty-append p.bubbles msg),
)
  where
    msg : Message
    msg = record { text = c ∷ t; ts = now }

abbrev sent : ℕ → Text → Panel → Rooms → Rooms
sent now [] p s = s
sent now (c ∷ t) p s = deliver now (c ∷ t) p s.messages

sent-Follows :
    (now : ℕ) (x : Text) (p : Panel) (s : Rooms)
    → s.panel ≡ some p
    → Drawn s.messages (some p)
    → ((id : String) (es : List Event)
        → messages_of id s.messages
            ++ (written_to id now p.room_id x ++ log id (left_to p.room_id p.input x) es)
          ≡ messages_of id (sent now x p s).messages
            ++ log id (composer_of (sent now x p s).panel) es)
      × Drawn (sent now x p s).messages (sent now x p s).panel
sent-Follows now [] p s h d = (λ id es. rw h refl, rw h d)
sent-Follows now (c ∷ t) p s h d =
    (λ id es. delivered id now c t p s.messages _, delivered_drawn now c t p s.messages d)

send_lem :
    (now : ℕ) (p : Panel) (s : Rooms) → s.panel ≡ some p → send now s ≡ sent now (trim p.input) p s
unfolding send
send_lem now p s h = ground arith

step-Follows : (e : Event) (s : Rooms) → Drawn s.messages s.panel → Follows e s
unfolding step open_panel close_panel type_text render_room
step-Follows (opens r) s d = record { stored = λ id es. refl; drawn = (refl, refl) }
step-Follows closes s d = record { stored = λ id es. refl; drawn = tt }
step-Follows (types t) s d = elim (Option-cases s.panel) [
  | inl n ↦ record { stored = λ id es. rw n refl; drawn = rw n tt }
  | inr (p, e) ↦ record { stored = λ id es. rw e refl; drawn = rw e (rw e at d) }
]
step-Follows (sends now) s d = elim (Option-cases s.panel) [
  | inl n ↦ record { stored = λ id es. unfold send in rw n refl; drawn = unfold send in rw n tt }
  | inr (p, e) ↦
      let f = sent-Follows now (trim p.input) p s e (rw e at d) in
      record {
        stored = λ id es. simp (e, send_lem now p s e) (f.0 id es);
        drawn = rw (send_lem now p s e) f.1;
      }
]

-- From any state whose thread is drawn.
run-log :
    (es : List Event) (s : Rooms)
    → Drawn s.messages s.panel
    → ((id : String)
        → messages_of id (run es s).messages
          ≡ messages_of id s.messages ++ log id (composer_of s.panel) es)
      × Drawn (run es s).messages (run es s).panel
unfolding run
run-log [] s d = (λ id. sym (append-nil (messages_of id s.messages)), d)
run-log (e ∷ es) s d =
    let f = step-Follows e s d in
    let r = run-log es (step e s) f.drawn in (λ id. r.0 id ∙ sym (f.stored id es), r.1)

-- After any events, the store holds for each room exactly the texts that were sent in it, trimmed,
-- not blank and in their order; and an open panel shows all messages of its room, with the hint
-- exactly when there are none.
pub run_lem :
    (es : List Event)
    → ((id : String) → messages_of id (run es initial).messages ≡ log id none es)
      × Drawn (run es initial).messages (run es initial).panel
run_lem es = run-log es initial tt
