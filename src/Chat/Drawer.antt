-- ===== src/Chat/Drawer.antt =====
-- The drawer of frontend/src/components/ChatDrawer.tsx: its buttons, its header, its text area, and the
-- copy button of a code block.
pub mod Sending
use Prim.Native.Nat.{min}
use Prim.Native.String.{◌++◌ as ◌+++◌}
use drishtiscope_oss.Common.{
  ℕ, suc, ◌-◌, String, Option, none, some, Bool, true, false, not, ◌||◌, List, [], ◌∷◌, take,
  if◌then◌else◌,
}
use drishtiscope_oss.Common.Fallback.{text_or}
use drishtiscope_oss.Common.Text.{codes, trim}
use drishtiscope_oss.Chat.{Chat, Message, Role, user, assistant, Request, send_message, is_blank}
use drishtiscope_oss.Chat.Prompts.{Prompt, quick_prompts}
use drishtiscope_oss.Chat.View.{Bubble, bubble, shown_lang}
use drishtiscope_oss.Protocol.{Snapshot, Target}
use drishtiscope_oss.Store.{toggle_chat, set_chat_open}
use drishtiscope_oss.Store.Types.{ScopeStore}
use drishtiscope_oss.Tabs.{target_of}

-- The button that floats over the page: a cross while the chat is open, a robot while it is closed.
pub data FloatingIcon : Type 0 where
  cross robot : FloatingIcon

abbrev pub floating_icon : ScopeStore → FloatingIcon
floating_icon st = if st.is_chat_open then cross else robot

abbrev pub on_floating : ScopeStore → ScopeStore
on_floating st = toggle_chat st

-- The button "Minimize", and the backdrop behind the drawer on a small screen.
abbrev pub on_minimize : ScopeStore → ScopeStore
on_minimize st = set_chat_open false st

-- `comm`, and the line of the header.
abbrev pub observed : Option Snapshot → String
observed s = text_or (λ (t : Target). t.comm) (target_of s) "agy"

abbrev pub header_line : Option Snapshot → String
header_line s = "Observing `" +++ observed s +++ "` · AI telemetry"

-- The button of the live context.
abbrev pub toggle_live : Chat → Chat
toggle_live c = record c { include_snapshot = not c.include_snapshot }

abbrev pub live_title : Chat → String
live_title c =
    if c.include_snapshot
    then "Live context ON — toggle to disable"
    else "Live context OFF — click to enable"

-- `onChange` of the text area, which is disabled while an answer is awaited.
abbrev pub type_message : List ℕ → Chat → Chat
type_message text c = record c { input_value = text }

abbrev pub area_disabled : Chat → Bool
area_disabled c = c.loading

-- The button "Send (Enter)"
unfoldable pub send_disabled : Chat → Bool
unfolding trim
send_disabled c = c.loading || is_blank (trim c.input_value)

unfoldable pub on_send : ℕ → Chat → ScopeStore → (Chat × ScopeStore) × Option Request
on_send now c st = send_message now c.input_value c st

-- `handleQuickPrompt`
unfoldable pub on_prompt : ℕ → Prompt → Chat → ScopeStore → (Chat × ScopeStore) × Option Request
on_prompt now p c st = send_message now (codes p.query) c st

-- The welcome stands in place of the messages until there is one; while an answer is awaited, a line
-- says so.
abbrev pub welcome_of : List Message → Option (String × String)
welcome_of [] = some (
  "DrishtiScope Agent Copilot",
  "Ask me anything about your observed process — LLM activities, CPU, memory, network, tools, or syscalls.",
)
welcome_of (m ∷ ms) = none

abbrev pub welcome : Chat → Option (String × String)
welcome c = welcome_of c.messages

abbrev pub waiting_line : Chat → Option String
waiting_line c = if c.loading then some "Analyzing telemetry…" else none

pub record Entry : Type 0 where
  pub avatar : Option String
  pub from_user : Bool
  pub text : Bubble

-- A message: the user's has the avatar "You" and stands on the other side, the agent's has a robot.
unfoldable pub entry : Message → Entry
unfolding bubble
entry msg = elim msg.role [
  | user ↦ record { avatar = some "You"; from_user = true; text = bubble msg }
  | assistant ↦ record { avatar = none; from_user = false; text = bubble msg }
]

-- CodeBlock: the label of its copy button, whose mark two seconds take away, and its language.
pub record CodeBlock : Type 0 where
  pub lang : List ℕ
  pub code : List ℕ
  pub copied : Bool
  pub timers : ℕ

abbrev pub copy : CodeBlock → CodeBlock
copy b = record b { copied = true; timers = suc b.timers }

abbrev pub copy_timer : CodeBlock → CodeBlock
copy_timer b = record b { copied = false; timers = b.timers - 1 }

abbrev pub copy_label : CodeBlock → String
copy_label b = if b.copied then "Copied!" else "Copy"

-- The height of the text area, in pixels, for that of its text.
abbrev pub area_height : ℕ → ℕ
area_height scroll_height = min scroll_height 120

-- What the effects do to the page when the chat is shown or gets a message: whether the list is scrolled to
-- its end, and after how many milliseconds the text area gets the focus.
abbrev pub scrolls_to_end : ScopeStore → Bool
scrolls_to_end st = st.is_chat_open

abbrev pub focus_delay : ScopeStore → Option ℕ
focus_delay st = if st.is_chat_open then some 100 else none
