-- ===== src/Chat.antt =====
-- frontend/src/components/ChatDrawer.tsx: the conversation with the agent. `send_message` is the
-- part of the handler up to its `await`, and `on_outcome` what follows when the request ends.
-- A text is the list of its code points. `now` and `later` are clock readings (`Date.now()`).
pub mod Graphs
pub mod Turns
pub mod History
pub mod Unread
pub mod Inline
pub mod Lines
pub mod View
pub mod Documents
pub mod Drawer
pub mod Prompts
pub mod Markdown
pub mod Rendering
use Prim.Native.String.{◌++◌ as ◌+++◌}
use drishtiscope_oss.Common.{
  ℕ, suc, ◌+◌, String, Bool, true, false, not, ◌||◌, ◌&&◌, ◌==◌, Option, none, some, List, [], ◌∷◌,
  ◌++◌, map, last, slice_last, if◌then◌else◌,
}
use drishtiscope_oss.Common.Text.{codes, to_lower, trim}
use drishtiscope_oss.Common.Decimal.{decimal}
use drishtiscope_oss.Store.{add_scratch_graph}
use drishtiscope_oss.Store.Types.{ScopeStore, ScratchGraph}
use Graphs.{requested_graph}

pub data Role : Type 0 where
  user assistant : Role

pub record Message : Type 0 where
  pub id : String
  pub role : Role
  pub content : List ℕ
  pub model : Option String
  pub source : Option String
  pub took_ms : Option ℕ
  pub ts : ℕ

pub record Chat : Type 0 where
  pub messages : List Message
  pub input_value : List ℕ
  pub loading : Bool
  pub include_snapshot : Bool
  pub unread_count : ℕ

abbrev pub fresh : Chat
fresh = record {
  messages = [];
  input_value = [];
  loading = false;
  include_snapshot = true;
  unread_count = 0;
}

-- The body of the request, with the title that the reply will name.
pub record Request : Type 0 where
  pub history : List (Role × List ℕ)
  pub include_snapshot : Bool
  pub graph_title : Option String

-- How the request ends: an answer, or a failure (no answer, or a status that is not `ok`).
pub data Outcome : Type 0 where
  reply : List ℕ → Option String → Option String → Option ℕ → Outcome
  failure : Outcome

abbrev pub is_blank : List ℕ → Bool
is_blank [] = true
is_blank (c ∷ s) = false

abbrev pub spoken : Message → Role × List ℕ
spoken m = (m.role, m.content)

abbrev pub user_msg : ℕ → List ℕ → Message
user_msg now content = record {
  id = decimal now;
  role = user;
  content = trim content;
  model = none;
  source = none;
  took_ms = none;
  ts = now;
}

abbrev pub add_graph : Option (ScratchGraph × String) → ScopeStore → ScopeStore
add_graph none st = st
add_graph (some (g, title)) st = add_scratch_graph g st

abbrev pub title_of : Option (ScratchGraph × String) → Option String
title_of none = none
title_of (some (g, title)) = some title

abbrev pub request : Option String → List ℕ → Chat → Request
request title content c = record {
  history = map spoken (slice_last 10 c.messages) ++ (user, trim content) ∷ [];
  include_snapshot = c.include_snapshot;
  graph_title = title;
}

abbrev pub sending : ℕ → List ℕ → Chat → Chat
sending now content c = record c {
  messages = c.messages ++ user_msg now content ∷ [];
  input_value = [];
  loading = true;
}

-- Nothing is sent for a blank text or while an answer is awaited.
unfoldable pub send_message : ℕ → List ℕ → Chat → ScopeStore → (Chat × ScopeStore) × Option Request
unfolding requested_graph
send_message now content c st =
    let graph = requested_graph now (to_lower content) in
    if is_blank (trim content) || c.loading
    then ((c, st), none)
    else ((sending now content c, add_graph graph st), some (request (title_of graph) content c))

-- What a reply adds when a graph was mounted.
abbrev pub graph_note : Option String → List ℕ
graph_note none = []
graph_note (some title) = codes (
    "\n\n> 💡 **In Linux, there is always something to learn!** I have dynamically mounted the **\""
    +++ title
    +++ "\"** visualization directly into the **Dynamic Graph Scratchpad** at the bottom of the dashboard for you to interact with!")

abbrev pub connection_error : List ℕ
connection_error =
    codes
      "⚠\u{fe0f} **Connection Error** — Could not reach the DrishtiScope backend.\n\nMake sure the backend is running on `:8080` and try again.\n\n```bash\n# Check backend status\ncurl http://localhost:8080/api/health\n```"

abbrev pub answer : ℕ → Option String → Outcome → Message
answer later title (reply text model source took) = record {
  id = decimal (later + 1);
  role = assistant;
  content = text ++ graph_note title;
  model = model;
  source = source;
  took_ms = took;
  ts = later;
}
answer later title failure = record {
  id = decimal (later + 1);
  role = assistant;
  content = connection_error;
  model = none;
  source = none;
  took_ms = none;
  ts = later;
}

unfoldable pub on_outcome : ℕ → Request → Outcome → Chat → Chat
on_outcome later r o c = record c {
  messages = c.messages ++ answer later r.graph_title o ∷ [];
  loading = false;
}

-- The keys of the text area: Enter without Shift sends what it holds.
abbrev pub handle_key_down :
    String → Bool → ℕ → Chat → ScopeStore → (Chat × ScopeStore) × Option Request
unfolding send_message
handle_key_down key shift now c st =
    if (key == "Enter") && not shift then send_message now c.input_value c st else ((c, st), none)

-- What the effect counts for the last message while the drawer is closed.
abbrev pub counted : Role → ℕ → ℕ
counted assistant n = suc n
counted user n = n

abbrev pub count_last : Option Message → ℕ → ℕ
count_last none n = n
count_last (some m) n = counted m.role n

-- The effect that runs when the messages or `isChatOpen` have changed.
unfoldable pub unread_effect : Bool → Chat → Chat
unread_effect true c = record c { unread_count = 0 }
unread_effect false c = record c { unread_count = count_last (last c.messages) c.unread_count }
