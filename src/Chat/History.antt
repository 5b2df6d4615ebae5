-- ===== src/Chat/History.antt =====
-- What a request tells the backend of the conversation: `history` of `sendMessage`.
use drishtiscope_oss.Common.{
  ℕ, String, zero, suc, ◌-◌, ◌%◌, ◌/◌, ◌≤◌, ◌≡◌, ◌≢◌, refl, ap, ◌∙◌, subst, Bool, false, ◌||◌,
  Option, none, some, List, [], ◌∷◌, map, length, length-append, length-drop, drop, slice_last,
  last, last-append, arith, if◌then◌else◌,
}
use drishtiscope_oss.Chat.{
  Chat, Role, user, assistant, Message, Request, spoken, request, send_message, is_blank, title_of,
}
use drishtiscope_oss.Chat.Graphs.{requested_graph}
use drishtiscope_oss.Common.Text.{trim, to_lower}
use drishtiscope_oss.Chat.Turns.{
  awaited, or_false, turn, turn-append, Event, run, start, turns_alternate,
}
use drishtiscope_oss.Store.Types.{ScopeStore}

abbrev double : ℕ → ℕ
double zero = zero
double (suc k) = suc (suc (double k))

half-suc : (n : ℕ) → suc (suc n) / 2 ≡ suc (n / 2)
half-suc n = omega arith

double_lem : (n : ℕ) → n % 2 ≡ 0 → double (n / 2) ≡ n
double_lem zero h = refl
double_lem (suc zero) h = absurd (omega arith)
double_lem (suc (suc n)) h =
    ap double (half-suc n) ∙ ap (λ k. suc (suc k)) (double_lem n (omega arith))

after_exchange :
    (r q : Role) (x y : List ℕ) (ms : List (Role × List ℕ))
    → turn user ((r, x) ∷ (q, y) ∷ ms) ≡ some user
    → turn user ms ≡ some user
after_exchange user assistant x y ms h = h
after_exchange user user x y ms h = cc
after_exchange assistant q x y ms h = cc

lone_turn : (r : Role) (x : List ℕ) → turn user ((r, x) ∷ []) ≢ some user
lone_turn user x h = cc
lone_turn assistant x h = cc

-- Dropping whole exchanges leaves whole exchanges.
turn-drop :
    (k : ℕ) (ms : List Message)
    → turn user (map spoken ms) ≡ some user
    → turn user (map spoken (drop (double k) ms)) ≡ some user
turn-drop zero ms h = h
turn-drop (suc k) [] h = h
turn-drop (suc k) (m ∷ []) h = absurd (lone_turn m.role m.content h)
turn-drop (suc k) (m ∷ n ∷ ms) h =
    turn-drop k ms (after_exchange m.role n.role m.content n.content (map spoken ms) h)

even_length : (ms : List Message) → turn user (map spoken ms) ≡ some user → length ms % 2 ≡ 0
even_length [] h = refl
even_length (m ∷ []) h = absurd (lone_turn m.role m.content h)
even_length (m ∷ n ∷ ms) h =
    omega
      (arith, even_length ms (after_exchange m.role n.role m.content n.content (map spoken ms) h))

turn-slice_last :
    (ms : List Message)
    → turn user (map spoken ms) ≡ some user
    → turn user (map spoken (slice_last 10 ms)) ≡ some user
turn-slice_last ms h =
    subst (λ n. turn user (map spoken (drop n ms)) ≡ some user)
      (double_lem (length ms - 10) (omega (arith, even_length ms h)))
      (turn-drop ((length ms - 10) / 2) ms h)

length-map-spoken : (ms : List Message) → length (map spoken ms) ≡ length ms
length-map-spoken [] = refl
length-map-spoken (m ∷ ms) = ap suc (length-map-spoken ms)

length-history :
    (c : Chat) (t : Option String) (text : List ℕ) → length (request t text c).history ≤ 11
length-history c t text = omega (
  arith,
  length-append (map spoken (slice_last 10 c.messages)) ((user, trim text) ∷ []),
  length-map-spoken (slice_last 10 c.messages),
  length-drop (length c.messages - 10) c.messages,
)

-- What a request that was sent says: the user's text comes last, the turns alternate from a
-- question on, and there are at most eleven.
pub record IsFit (text : List ℕ) (r : Request) : Type 0 where
  pub ends : last r.history ≡ some (user, trim text)
  pub turns : turn user r.history ≡ some assistant
  pub bound : length r.history ≤ 11

request-IsFit :
    (c : Chat) (t : Option String) (text : List ℕ)
    → turn user (map spoken c.messages) ≡ some user
    → IsFit text (request t text c)
request-IsFit c t text h = record {
  ends = last-append (map spoken (slice_last 10 c.messages)) (user, trim text);
  turns =
      turn-append user user (map spoken (slice_last 10 c.messages)) (trim text)
        (turn-slice_last c.messages h);
  bound = length-history c t text;
}

if_some :
    {A B : Type 0} (b : Bool) (x y : A) (z w : B)
    → (if◌then◌else◌ {A = A × Option B} b (x, none) (y, some z)).1 ≡ some w
    → (b ≡ false) × (z ≡ w)
if_some b x y z w h = ground arith

-- At any point of a conversation, a text that is sent goes out with a history of at most eleven
-- turns that alternate from a question on and end with that text, trimmed.
pub history-IsFit :
    (es : List Event) (st : ScopeStore) (now : ℕ) (text : List ℕ) (r : Request)
    → let s = run es (start st) in (send_message now text s.chat s.store).1 ≡ some r → IsFit text r
unfolding send_message
history-IsFit es st now text r h = subst (IsFit text) sent.1 (
    request-IsFit c _ text
      (turns_alternate es st ∙ ap (λ b. some (awaited b)) (or_false _ _ sent.0)))
  where
    c : Chat
    c = (run es (start st)).chat

    sent :
        ((is_blank (trim text) || c.loading) ≡ false)
        × (request (title_of (requested_graph now (to_lower text))) text c ≡ r)
    sent = if_some (is_blank (trim text) || c.loading) _ _ _ r h
