-- ===== src/Examples/KeyRuns.antt =====
-- Keys, the controls of the header, and the requests for a target.
use drishtiscope_oss.Common.{ℕ, ◌≡◌, refl, some, true, not, List, [], ◌∷◌, ◌++◌, All}
use drishtiscope_oss.Common.Text.{codes, trim}
use drishtiscope_oss.Chat
use drishtiscope_oss.Chat.Drawer.{send_disabled, on_send, on_prompt}
use drishtiscope_oss.Chat.Drawer.Sending.{send-starts, prompts-start}
use drishtiscope_oss.Chat.Prompts.{Prompt}
use drishtiscope_oss.Chat.Turns.{Event, run, start, is_pending}
use drishtiscope_oss.Chat.View.{offered_prompts}
use drishtiscope_oss.Keyboard.{Desk, chat_box, type_text}
use drishtiscope_oss.Keyboard.Slash.{Diverted, slash_diverts}
use drishtiscope_oss.Omnibox
use drishtiscope_oss.Omnibox.{select_process, target_of_text}
use drishtiscope_oss.Omnibox.Keys.{apply}
use drishtiscope_oss.Omnibox.Suggest.{node_row}
use drishtiscope_oss.Omnibox.Posts.{
  Search, unused, over, ask, finish, Moves, here, next, types, names, selects, ends,
}
use drishtiscope_oss.Omnibox.Posts.Accounts.{IsAccounted, Moves-IsAccounted}
use drishtiscope_oss.Protocol.{ProcessRow}
use drishtiscope_oss.Store.{create}
use drishtiscope_oss.Examples.Samples.{empty_browser}

abbrev at_chat : Desk
unfolding create
at_chat = record {
  focus = chat_box;
  search = Omnibox.fresh;
  chat = Chat.fresh;
  store = (create empty_browser).0;
  targets = [];
  requests = [];
}

abbrev question : List ℕ
question = codes "cat " ++ b'/' ∷ codes "etc/hosts"

slash_diverts_example :
    Diverted at_chat (codes "cat ") (codes "etc/hosts") (type_text [] 5 question at_chat)
unfolding at_chat
slash_diverts_example =
    slash_diverts [] 5 (codes "cat ") (codes "etc/hosts") at_chat (refl, (refl, (refl, (refl, tt))))
      refl refl refl

abbrev asked : Omnibox.Target
asked = record { comm = codes "agy"; pid = 0 }

abbrev clicked : ProcessRow
clicked = record node_row { pid = 9 }

abbrev typed : Search
typed = over (Omnibox.type_query (codes "agy")) unused

-- The text is asked for by the button, then a suggestion is clicked.
abbrev asked_once : Search
unfolding ask
asked_once = ask (apply (some asked) typed.box) typed

abbrev asked_twice : Search
unfolding ask select_process
asked_twice = ask (apply (some (select_process clicked)) asked_once.box) asked_once

-- The first request fails, then the second one succeeds.
abbrev ended : Search
unfolding finish select_process
ended =
    finish (select_process clicked) Omnibox.Outcome.ok []
      (finish asked (Omnibox.Outcome.status 500) (select_process clicked ∷ []) asked_twice)

ended_run : Moves unused ended
unfolding ask finish select_process trim target_of_text
ended_run =
    next
      (next
        (next (next (next here (types unused (codes "agy") refl)) (names typed refl))
          (selects asked_once (clicked ∷ []) 0 clicked refl refl))
        (ends asked_twice (select_process clicked ∷ []) [] asked (Omnibox.Outcome.status 500) refl))
      (ends (finish asked (Omnibox.Outcome.status 500) (select_process clicked ∷ []) asked_twice) []
        [] (select_process clicked) Omnibox.Outcome.ok refl)

Moves-IsAccounted_example : IsAccounted ended
Moves-IsAccounted_example = Moves-IsAccounted ended_run

send-starts_example :
    is_pending (on_send 5 Chat.fresh at_chat.store).1 ≡ not (send_disabled Chat.fresh)
send-starts_example = send-starts 5 Chat.fresh at_chat.store

prompts-start_example :
    let s = run (Event.send 5 (codes "hello") ∷ []) (start (create empty_browser).0) in
    All
      (λ (p : Prompt). is_pending (on_prompt 9 p s.chat s.store).1 ≡ true)
      (offered_prompts s.chat)
prompts-start_example = prompts-start (Event.send 5 (codes "hello") ∷ []) (create empty_browser).0 9
