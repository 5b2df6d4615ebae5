-- ===== src/Chat/Turns.antt =====
-- The conversation takes turns: a question is followed by its answer before the next one.
use drishtiscope_oss.Common.{
  ℕ, ◌≡◌, refl, ap, ◌∙◌, String, Bool, true, false, ◌||◌, if◌then◌else◌, Option, none, some, List,
  [], ◌∷◌, ◌++◌, map, arith,
}
use drishtiscope_oss.Chat.{
  Chat, Role, user, assistant, Message, Request, Outcome, fresh, spoken, send_message, on_outcome,
  user_msg, is_blank, add_graph, title_of, answer, request, sending,
}
use drishtiscope_oss.Chat.Graphs.{requested_graph}
use drishtiscope_oss.Common.Text.{trim, to_lower}
use drishtiscope_oss.Store.Types.{ScopeStore}

-- A conversation: the component's state, the store, and the request that is on its way.
pub record Session : Type 0 where
  pub chat : Chat
  pub store : ScopeStore
  pub pending : Option Request

-- What happens: the user sends a text, the request ends, the switch `includeSnapshot` is flipped.
pub data Event : Type 0 where
  send : ℕ → List ℕ → Event
  outcome : ℕ → Outcome → Event
  live : Bool → Event

abbrev pub sent : (Chat × ScopeStore) × Option Request → Option Request → Session
sent ((c, st), some r) p = record { chat = c; store = st; pending = some r }
sent ((c, st), none) p = record { chat = c; store = st; pending = p }

abbrev pub ended : ℕ → Outcome → Session → Option Request → Session
ended later o s (some r) = record s { chat = on_outcome later r o s.chat; pending = none }
ended later o s none = s

unfoldable pub step : Event → Session → Session
unfolding send_message
step (send now text) s = sent (send_message now text s.chat s.store) s.pending
step (outcome later o) s = ended later o s s.pending
step (live b) s = record s { chat = record s.chat { include_snapshot = b } }

unfoldable pub run : List Event → Session → Session
unfolding step
run [] s = s
run (e ∷ es) s = run es (step e s)

abbrev pub other : Role → Role
other user = assistant
other assistant = user

abbrev pub same_role : Role → Role → Bool
same_role user user = true
same_role assistant assistant = true
same_role _ _ = false

-- Whose turn it is after these turns, the first of which is `r`'s; `none` if one is out of turn.
abbrev pub turn : Role → List (Role × List ℕ) → Option Role
turn r [] = some r
turn r (m ∷ ms) = elim (same_role m.0 r) [ true ↦ turn (other r) ms | false ↦ none ]

abbrev pub awaited : Bool → Role
awaited true = assistant
awaited false = user

abbrev pub is_pending : Option Request → Bool
is_pending (some r) = true
is_pending none = false

pub turn-append :
    (r s : Role) (ms : List (Role × List ℕ)) (t : List ℕ)
    → turn r ms ≡ some s
    → turn r (ms ++ (s, t) ∷ []) ≡ some (other s)
turn-append user user [] t h = refl
turn-append user assistant [] t h = cc
turn-append assistant user [] t h = cc
turn-append assistant assistant [] t h = refl
turn-append user s ((user, x) ∷ ms) t h = turn-append assistant s ms t h
turn-append user s ((assistant, x) ∷ ms) t h = cc
turn-append assistant s ((user, x) ∷ ms) t h = cc
turn-append assistant s ((assistant, x) ∷ ms) t h = turn-append user s ms t h

-- The component waits for an answer exactly while a request is on its way, and the turns are kept.
pub record IsOrderly (s : Session) : Type 0 where
  pub waits : s.chat.loading ≡ is_pending s.pending
  pub turns : turn user (map spoken s.chat.messages) ≡ some (awaited s.chat.loading)

pub map-append_one :
    (ms : List Message) (m : Message) → map spoken (ms ++ m ∷ []) ≡ map spoken ms ++ spoken m ∷ []
map-append_one [] m = refl
map-append_one (k ∷ ms) m = ap (λ l. spoken k ∷ l) (map-append_one ms m)

appended :
    (ms : List Message) (m : Message) (b : Bool)
    → turn user (map spoken ms) ≡ some (awaited b)
    → m.role ≡ awaited b
    → turn user (map spoken (ms ++ m ∷ [])) ≡ some (other (awaited b))
appended ms m b h k =
    ap (turn user) (map-append_one ms m)
    ∙ ap (λ r. turn user (map spoken ms ++ (r, m.content) ∷ [])) k
    ∙ turn-append user (awaited b) (map spoken ms) m.content h

sending-IsOrderly :
    (now : ℕ) (text : List ℕ) (s : Session) (st : ScopeStore) (r : Request)
    → s.chat.loading ≡ false
    → IsOrderly s
    → IsOrderly (record { chat = sending now text s.chat; store = st; pending = some r })
sending-IsOrderly now text s st r l h = record {
  waits = refl;
  turns =
      appended s.chat.messages (user_msg now text) false (h.turns ∙ ap (λ b. some (awaited b)) l)
        refl;
}

role-answer :
    (later : ℕ) (title : Option String) (o : Outcome) → (answer later title o).role ≡ assistant
role-answer later title (Outcome.reply _ _ _ _) = refl
role-answer later title Outcome.failure = refl

ended-IsOrderly :
    (later : ℕ) (o : Outcome) (s : Session) (p : Option Request)
    → s.pending ≡ p
    → IsOrderly s
    → IsOrderly (ended later o s p)
unfolding on_outcome
ended-IsOrderly later o s none e h = h
ended-IsOrderly later o s (some r) e h = record {
  waits = refl;
  turns =
      appended s.chat.messages (answer later r.graph_title o) true
        (h.turns ∙ ap (λ b. some (awaited b)) (h.waits ∙ ap is_pending e))
        (role-answer later r.graph_title o);
}

pub or_false : (a b : Bool) → (a || b) ≡ false → b ≡ false
or_false a b h = ground arith

step-IsOrderly : (e : Event) (s : Session) → IsOrderly s → IsOrderly (step e s)
unfolding step send_message
step-IsOrderly (send now text) s h = go (is_blank (trim text) || s.chat.loading) (or_false _ _)
  where
    go :
        (b : Bool)
        → (b ≡ false → s.chat.loading ≡ false)
        → IsOrderly (
            sent
              (if b then ((s.chat, s.store), none) else (
                (sending now text s.chat, add_graph (requested_graph now (to_lower text)) s.store),
                some (request (title_of (requested_graph now (to_lower text))) text s.chat),
              ))
              s.pending)
    go true l = record { waits = h.waits; turns = h.turns }
    go false l = sending-IsOrderly now text s _ _ (l refl) h
step-IsOrderly (outcome later o) s h = ended-IsOrderly later o s s.pending refl h
step-IsOrderly (live b) s h = record { waits = h.waits; turns = h.turns }

abbrev pub start : ScopeStore → Session
start st = record { chat = fresh; store = st; pending = none }

pub run-IsOrderly : (es : List Event) (s : Session) → IsOrderly s → IsOrderly (run es s)
unfolding run
run-IsOrderly [] s h = h
run-IsOrderly (e ∷ es) s h = run-IsOrderly es (step e s) (step-IsOrderly e s h)

-- Whatever the user sends and however the requests end, questions and answers alternate, starting
-- with a question, and the last one has its answer exactly when nothing is loading.
pub turns_alternate :
    (es : List Event) (st : ScopeStore)
    → let c = (run es (start st)).chat in
      turn user (map spoken c.messages) ≡ some (awaited c.loading)
turns_alternate es st = (run-IsOrderly es (start st) (record { waits = refl; turns = refl })).turns
