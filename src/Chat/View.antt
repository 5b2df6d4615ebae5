-- ===== src/Chat/View.antt =====
-- What frontend/src/components/ChatDrawer.tsx draws of a conversation: the badge, the prompts that are
-- offered, a message, and the copy button of a code block.
use drishtiscope_oss.Common.{
  ℕ, String, Option, none, some, Bool, false, not, ◌&&◌, ◌==◌, List, [], ◌∷◌, take, ltb,
  if◌then◌else◌,
}
use drishtiscope_oss.Common.Fixed.{digit_codes}
use drishtiscope_oss.Common.Text.{codes}
use drishtiscope_oss.Chat.{Chat, Message, user, assistant}
use drishtiscope_oss.Chat.Lines.{Element, render_text}
use drishtiscope_oss.Chat.Prompts.{Prompt, quick_prompts}

-- The badge of the button that opens the chat.
unfoldable pub badge : Bool → ℕ → Option (List ℕ)
unfolding digit_codes
badge is_chat_open unread_count =
    if not is_chat_open && ltb 0 unread_count
    then some (if ltb 9 unread_count then codes "9+" else digit_codes unread_count)
    else none

-- The prompts that are offered: all before the first message, four between a message and the next,
-- and none while a request is under way.
unfoldable pub offered_prompts : Chat → List Prompt
offered_prompts c = elim c.messages [
  | [] ↦ quick_prompts
  | m ∷ ms ↦ if c.loading then [] else take 4 quick_prompts
]

-- The text of a message: one paragraph of a question, the elements of an answer.
pub data Bubble : Type 0 where
  question : List ℕ → Bubble
  reply : List Element → Bubble

unfoldable pub bubble : Message → Bubble
unfolding render_text
bubble msg = elim msg.role [
  | user ↦ question msg.content
  | assistant ↦ reply (render_text msg.content)
]

-- The line under a message: model, time and the mark of the rule engine; none without a model.
pub record Footer : Type 0 where
  pub model : String
  pub took : Option (List ℕ)
  pub rule_engine : Bool

abbrev pub is_rule : Option String → Bool
is_rule none = false
is_rule (some source) = source == "rule"

abbrev pub took_text : Option ℕ → Option (List ℕ)
took_text none = none
took_text (some n) = some (digit_codes n)

unfoldable pub footer : Message → Option Footer
unfolding digit_codes
footer msg = footer_of msg.model
  where
    footer_of : Option String → Option Footer
    footer_of none = none
    footer_of (some String.[]) = none
    footer_of (some model) =
        some
          (record { model = model; took = took_text msg.took_ms; rule_engine = is_rule msg.source })

-- CodeBlock: the language that is named, and the copy button.
abbrev pub shown_lang : List ℕ → List ℕ
shown_lang [] = codes "shell"
shown_lang lang = lang
