-- ===== src/Examples/ChatRuns.antt =====
-- The theorems on the chat and the help at concrete conversations.
use drishtiscope_oss.Common.{arith, all, not, nat_eq, All}
use drishtiscope_oss.Chat.Lines.{render_text, join_lines, new_line}
use drishtiscope_oss.Chat.Inline.Segments.{Without, IsProse, Segment}
use drishtiscope_oss.Chat.Documents.{
  Part, line, listing, title, dash_item, numbered_item, empty, text, document_lines, part_element,
  IsPart, render_text-document,
}
use drishtiscope_oss.Common.{map, ℕ, ◌≡◌, refl, true, some, none, List, [], ◌∷◌, map}
use drishtiscope_oss.Common.Text.{codes, trim, to_lower, lower_code, drop_space, starts_with}
use drishtiscope_oss.Chat.{
  Chat, user, Message, Outcome, Request, fresh, spoken, send_message, on_outcome, user_msg, answer,
  request,
}
use drishtiscope_oss.Chat.Graphs.{requested_graph, page_faults_graph}
use drishtiscope_oss.Chat.History.{IsFit, history-IsFit}
use drishtiscope_oss.Chat.Turns.{Event, turn, awaited, step, run, start, turns_alternate}
use drishtiscope_oss.Help.Laws.{IsHelped, requested-IsHelped}
use drishtiscope_oss.Store.{create}
use drishtiscope_oss.Store.Types.{ScopeStore}

abbrev a_store : ScopeStore
a_store = (create (record { class_list = []; local_storage = [] })).0

abbrev talk : List Event
talk =
    Event.send 1000 (codes "why is the CPU high?")
    ∷ Event.send 1500 (codes "are you there?")
    ∷ Event.outcome 2000 (Outcome.reply (codes "A tight loop.") none none (some 12))
    ∷ Event.send 3000 (codes " plot it ")
    ∷ Event.outcome 4000 Outcome.failure
    ∷ []

turns_alternate_example :
    turn user (map spoken (run talk (start a_store)).chat.messages)
    ≡ some (awaited (run talk (start a_store)).chat.loading)
turns_alternate_example = turns_alternate talk a_store

abbrev greeting : List Event
greeting =
    Event.send 1000 (codes "hi")
    ∷ Event.outcome 2000 (Outcome.reply (codes "ok") none none none)
    ∷ []

abbrev greeted : Chat
greeted = (run greeting (start a_store)).chat

history-IsFit_example : IsFit (codes " so? ") (request none (codes " so? ") greeted)
unfolding run step send_message on_outcome trim drop_space requested_graph to_lower lower_code
history-IsFit_example =
    history-IsFit greeting a_store 5000 (codes " so? ") (request none (codes " so? ") greeted) refl

abbrev a_request : Request
a_request = record { history = []; include_snapshot = true; graph_title = none }

abbrev two_answers : List (ℕ × (Request × Outcome))
two_answers = (2000, (a_request, Outcome.failure)) ∷ (3000, (a_request, Outcome.failure)) ∷ []

abbrev an_answer : Message
an_answer = answer 2000 none Outcome.failure

abbrev read_chat : Chat
read_chat = record fresh { messages = user_msg 1000 (codes "hello") ∷ an_answer ∷ [] }

requested-IsHelped_example : IsHelped (page_faults_graph 9)
unfolding requested_graph to_lower
requested-IsHelped_example =
    requested-IsHelped 9 (to_lower (codes "Draw the page hits")) (page_faults_graph 9)
      "Linux Page Fault Rates (Minor vs Major)" refl

absent : (c : ℕ) (s : List ℕ) → all (λ a. not (nat_eq a c)) s ≡ true → Without c s
absent c [] h = tt
absent c (a ∷ s) h = (ground arith, absent c s (ground arith))

abbrev advice : List Part
advice =
    line (title (codes "Diagnosis"))
    ∷ line (dash_item (Segment.bold [] (codes "spin") ∷ []) (codes " in a loop"))
    ∷ listing (codes "bash") (codes "top -H" ∷ []) []
    ∷ line empty
    ∷ line (numbered_item (codes "2") [] (codes "Stop it"))
    ∷ line (text (Segment.coded (codes "Use ") (codes "kill") ∷ []) (codes "."))
    ∷ []

prose :
    (s : List ℕ)
    → all (λ a. not (nat_eq a b'*')) s ≡ true
    → all (λ a. not (nat_eq a b'`')) s ≡ true
    → IsProse s
prose s h k = (absent b'*' s h, absent b'`' s k)

advice-IsPart : All IsPart advice
unfolding starts_with trim drop_space
advice-IsPart = (
  tt,
  (
    (
      ((prose [] refl refl, absent b'*' (codes "spin") refl, omega arith), tt),
      prose (codes " in a loop") refl refl,
    ),
    (
      (refl, tt),
      (
        tt,
        (
          (
            omega arith,
            (refl, tt),
            (refl, (refl, (refl, (refl, (refl, (refl, (refl, tt))))))),
            (tt, prose (codes "Stop it") refl refl),
          ),
          (
            (
              (refl, refl, (refl, (refl, (refl, (refl, (refl, (refl, tt))))))),
              (
                (
                  (prose (codes "Use ") refl refl, absent b'`' (codes "kill") refl, omega arith),
                  tt,
                ),
                prose (codes ".") refl refl,
              ),
            ),
            tt,
          ),
        ),
      ),
    ),
  ),
)

render_text-document_example :
    render_text (join_lines (document_lines advice)) ≡ map part_element advice
render_text-document_example = render_text-document advice advice-IsPart (omega arith) (
  absent new_line (codes "# Diagnosis") refl,
  (
    absent new_line (codes "- **spin** in a loop") refl,
    (
      absent new_line (codes "```bash") refl,
      (
        absent new_line (codes "top -H") refl,
        (
          absent new_line (codes "```") refl,
          (
            tt,
            (
              absent new_line (codes "2. Stop it") refl,
              (absent new_line (codes "Use `kill`.") refl, tt),
            ),
          ),
        ),
      ),
    ),
  ),
)
