-- ===== src/Keyboard.antt =====
-- The keys of the page: the listeners of frontend/src/pages/Dashboard.tsx (the slash),
-- frontend/src/components/MetricHelpModal.tsx (Escape), and those of the search box and the chat, in the
-- order in which the browser calls them: the focused element's, then the window's, then, unless one of them
-- prevented it, the browser types the character. Text is typed at its end. What keeps the focus
-- on a control that is disabled is left to the browser, which has it on no control.
pub mod Slash
use drishtiscope_oss.Common.{
  ℕ, zero, suc, String, Option, none, some, Bool, true, false, not, ◌&&◌, ◌||◌, List, [], ◌∷◌, ◌++◌,
  nat_eq, ◌==◌, if◌then◌else◌,
}
use drishtiscope_oss.Protocol.{ProcessRow}
use drishtiscope_oss.Store.Types.{ScopeStore}
use drishtiscope_oss.Omnibox
use drishtiscope_oss.Omnibox.{Omnibox, type_query}
use drishtiscope_oss.Omnibox.Keys.{handle_search_key_down}
use drishtiscope_oss.Chat
use drishtiscope_oss.Chat.{Chat}
use drishtiscope_oss.Help

-- The element that has the focus: the search box, the text area of the chat, one of the selectors, or
-- none of them.
pub data Focus : Type 0 where
  search_box chat_box selector nowhere : Focus

-- `document.activeElement?.tagName`
abbrev pub tag_name : Focus → String
tag_name search_box = "INPUT"
tag_name chat_box = "TEXTAREA"
tag_name selector = "SELECT"
tag_name nowhere = "BODY"

pub data Key : Type 0 where
  char : ℕ → Key
  arrow_down arrow_up enter escape : Key

-- `e.key`, of the keys that a listener asks for.
abbrev pub key_name : Key → String
key_name (char c) = if nat_eq c b'/' then "/" else "other"
key_name arrow_down = "ArrowDown"
key_name arrow_up = "ArrowUp"
key_name enter = "Enter"
key_name escape = "Escape"

abbrev pub search_key : Key → Omnibox.Keys.Key
search_key (char c) = Omnibox.Keys.Key.other
search_key arrow_down = Omnibox.Keys.Key.arrow_down
search_key arrow_up = Omnibox.Keys.Key.arrow_up
search_key enter = Omnibox.Keys.Key.enter
search_key escape = Omnibox.Keys.Key.escape

-- The page as far as keys reach it, with the requests that they start.
pub record Desk : Type 0 where
  pub focus : Focus
  pub search : Omnibox
  pub chat : Chat
  pub store : ScopeStore
  pub targets : List Omnibox.Target
  pub requests : List Chat.Request

abbrev pub with_one {ℓ} : {A : Type ℓ} → Option A → List A → List A
with_one none xs = xs
with_one (some x) xs = xs ++ x ∷ []

-- The search box is disabled while a target is applied, the text area while an answer is awaited.
unfoldable pub focus_now : Desk → Focus
focus_now d = elim d.focus [
  | search_box ↦ if d.search.busy then nowhere else search_box
  | chat_box ↦ if d.chat.loading then nowhere else chat_box
  | selector ↦ selector
  | nowhere ↦ nowhere
]

-- `onKeyDown` of the search box.
unfoldable pub search_listener : List ProcessRow → Key → Desk → Desk
unfolding handle_search_key_down
search_listener rows k d =
    let (b, target) = handle_search_key_down (search_key k) rows d.search in
    record d { search = b; targets = with_one target d.targets }

-- `onKeyDown` of the text area.
unfoldable pub chat_listener : ℕ → Bool → Key → Desk → Desk
unfolding Chat.send_message
chat_listener now shift k d =
    let ((c, st), request) = Chat.handle_key_down (key_name k) shift now d.chat d.store in
    record d { chat = c; store = st; requests = with_one request d.requests }

unfoldable pub element_listener : Focus → List ProcessRow → ℕ → Bool → Key → Desk → Desk
unfolding search_listener chat_listener
element_listener search_box rows now shift k d = search_listener rows k d
element_listener chat_box rows now shift k d = chat_listener now shift k d
element_listener selector rows now shift k d = d
element_listener nowhere rows now shift k d = d

-- `input.focus()`, with the `onFocus` of the search box; nothing while it is disabled.
unfoldable pub focus_search : Desk → Desk
focus_search d =
    if d.search.busy then d else record d { focus = search_box; search = Omnibox.focus d.search }

abbrev pub is_slash_elsewhere : Focus → Key → Bool
is_slash_elsewhere f k = (key_name k == "/") && not (tag_name f == "INPUT")

-- `handleKeyDown` of the page.
unfoldable pub slash_listener : Focus → Key → Desk → Desk
unfolding focus_search
slash_listener f k d = if is_slash_elsewhere f k then focus_search d else d

-- `handleKeyDown` of the guide, which listens while one is asked for.
unfoldable pub help_listener : Key → Desk → Desk
unfolding Help.handle_key_down
help_listener k d = record d { store = Help.handle_key_down (key_name k) d.store }

-- Whether the focused element's listener calls `preventDefault`.
abbrev pub element_prevents : Focus → Bool → Key → Desk → Bool
element_prevents search_box shift enter d = true
element_prevents search_box shift arrow_down d = true
element_prevents search_box shift arrow_up d = d.search.is_search_open
element_prevents chat_box shift enter d = not shift
element_prevents _ _ _ _ = false

-- Whether a listener calls `preventDefault`.
unfoldable pub is_prevented : Focus → Bool → Key → Desk → Bool
is_prevented f shift k d = is_slash_elsewhere f k || element_prevents f shift k d

-- What the browser types at the focused element: a character, or the line of Shift and Enter.
abbrev pub typed : Focus → Key → Desk → Desk
typed search_box (char c) d = record d {
  search = type_query (d.search.search_query ++ c ∷ []) d.search;
}
typed chat_box (char c) d = record d {
  chat = record (d.chat) { input_value = d.chat.input_value ++ c ∷ [] };
}
typed chat_box enter d = record d {
  chat = record (d.chat) { input_value = d.chat.input_value ++ 10 ∷ [] };
}
typed _ _ d = d

unfoldable pub press_at : Focus → List ProcessRow → ℕ → Bool → Key → Desk → Desk
press_at f rows now shift k d =
    let heard = slash_listener f k (help_listener k (element_listener f rows now shift k d)) in
    if is_prevented f shift k d then heard else typed f k heard

unfoldable pub press : List ProcessRow → ℕ → Bool → Key → Desk → Desk
unfolding press_at
press rows now shift k d = press_at (focus_now d) rows now shift k d

-- A text, typed character by character.
unfoldable pub type_text : List ProcessRow → ℕ → List ℕ → Desk → Desk
type_text rows now [] d = d
type_text rows now (c ∷ cs) d = type_text rows now cs (press rows now false (char c) d)
