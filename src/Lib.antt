-- ===== src/Lib.antt =====
-- DrishtiScope's dashboard (frontend/src), a React program in TypeScript that shows live telemetry of
-- the processes that a backend observes.
--
-- How the parts work together. A WebSocket client receives the backend's messages and hands them to
-- the message handler of the page, which throttles the snapshots and writes snapshots, events, mode
-- and hello into the store. The store also keeps the settings (theme, refresh rate, anti-flicker), the
-- tab, the help that is open, and the scratch graphs; settings go to localStorage and to the class
-- list of the document. The components read the store and call its operations: the process table and
-- the search box choose the target, the chat adds scratch graphs, help buttons open the guides of the
-- metric encyclopedia. The tabs compute what they draw from the snapshot, and some of it from the live
-- events of the store; scratch graphs compute their rows from the snapshot.
--
-- Which file models what:
--   Protocol       frontend/src/types/protocol.ts: the messages; the payload depends on the kind.
--   Browser        what the program keeps in the browser: class list and localStorage.
--   Store          frontend/src/store/useScopeStore.ts. Store.Types and Store.Graphs hold its types and
--                  its default graphs, Store one function for each operation, under its name in
--                  snake case, and Store.Actions their sequences. Store.Stream, Store.Settings and
--                  Store.Scratch prove what the events, the settings and the graphs keep to.
--   Client         frontend/src/ws/client.ts: connect, the socket's four callbacks, disconnect and
--                  scheduleReconnect over the fields that they share. Client.Env adds what the
--                  browser may do, as steps between which the callbacks run in any order.
--   App            frontend/src/App.tsx: the message handler with its throttle; App.Number is parseInt.
--   Session        the page from its mount on: client, handler and store, and what the user does.
--   Keyboard       the keys: frontend/src/pages/Dashboard.tsx, the search box, the chat and the guide.
--   Requests       frontend/src/utils/api.ts, with wsURL of frontend/src/App.tsx: headers and addresses.
--   Docs           frontend/src/data/metricDocs.ts: every entry, and the lookup by id.
--   Help           frontend/src/components/MetricHelpModal.tsx and TabBanner.tsx;
--                  Help.Guide is what is drawn of a guide.
--   Chat           frontend/src/components/ChatDrawer.tsx: sendMessage (send_message up to the await and
--                  on_outcome after it), the unread effect; Chat.Graphs the graphs that a text asks
--                  for, Chat.Markdown renderMarkdown, Chat.Lines the same on a
--                  whole text, Chat.Documents what a document looks like,
--                  Chat.Inline inlineMarkdown, Chat.Prompts the quick prompts, and
--                  Chat.View what is drawn of a conversation;
--                  Chat.Drawer has the buttons and the text area.
--   Scratchpad     frontend/src/components/GraphScratchpad.tsx: presets and facts; Scratchpad.Data is
--                  computeData, with the chart types that the user chose, Scratchpad.Charts the
--                  fields that a chart reads, Scratchpad.Drawn its series, and Scratchpad.Board the
--                  cards and buttons.
--   Processes      frontend/src/components/ProcessTable.tsx, with agentLabel of
--                  frontend/src/utils/format.ts; Processes.Cells has the cells of a row.
--   Format         the other functions of frontend/src/utils/format.ts.
--   Omnibox        the search box of frontend/src/components/Header.tsx: Omnibox.Suggest the list,
--                  Omnibox.Keys the keys, Omnibox itself applyTarget and selectProcess,
--                  Omnibox.Posts the requests that are sent, Omnibox.Dropdown what is drawn.
--   Header         the rest of frontend/src/components/Header.tsx: tabs, themes, loadSnapshot;
--                  Header.Controls has its buttons and selectors.
--   Charts         the rows of frontend/src/components/OverlayChart.tsx and the counts of
--                  frontend/src/components/tabs/AdvancedTab.tsx.
--   Tabs           frontend/src/components/tabs, one module for each: Tabs.Story, Tabs.Basic,
--                  Tabs.Medium, Tabs.Advanced and Tabs.CompletePicture, whose role lens is Tabs.Roles.
--                  Tabs.Story.Cards is what the story prints, Tabs.Story.Copies its copy buttons,
--                  and Tabs.Basic.Cards the cards of the golden signals; Tabs.Plots has the series of
--                  the charts, and the modules Rows, View and Console what is drawn beside them.
--                  Tabs.Windows, Tabs.Story.Arrivals, Tabs.Counts, Tabs.Targets and Tabs.Agreement
--                  prove which events they draw, how the filters share these out, and that the
--                  parts of the page agree.
--   Widgets        the small components of frontend/src/components: StatusBar, ModeChip, KPITile,
--                  SyscallBar, FileTable, FlowTable, Sparkline, Timeline, TimelineEvent, Badge.
--                  Widgets.Tables has the headings of the tables and Widgets.Panels those of Panel;
--                  Widgets.Cells has the cells of their rows, Widgets.Tiles tiles, heads of
--                  panels and Timeline.
--   Dashboard      frontend/src/pages/Dashboard.tsx: the target process, its label and the request;
--                  Dashboard.View is what the page draws.
--   Common         shared names: lists and text over native numbers, decimal digits, rounded
--                  figures, the fallbacks ?? and ||, and the stable sort that models
--                  Array.prototype.sort, with its laws.
--   Examples       runs at concrete inputs.
--
-- State is a record, an operation a function from the old state to the new one; a handler that awaits
-- is cut at the await into two functions, the second of which takes the answer as an argument. Clock
-- readings (Date.now) are arguments. Asynchrony is a list of events over which the theorems range: the
-- browser's for the client, messages with clock readings for the handler, sends and answers for the
-- chat, keys and answers for the search box.
--
-- Numbers. Ids, counters, times and sizes in bytes are natural numbers; a measured quantity (percentage,
-- rate, latency) is a natural number of thousandths, so that comparison and addition are exact where
-- the program's are in floating point. A figure that the program rounds with Math.round or toFixed is
-- the nearest one, the upper of two (Common.Fixed.round_div), in the places that are kept; a figure that
-- it does not round and that is no multiple of a thousandth is a numerator and a denominator. The floor of
-- a quotient of logarithms in fmtBytes and fmtBps is exact. The highlight of the search box, a time
-- difference and what parseInt answers are signed. Text is compared whole as String and searched as a list of
-- code points; toLowerCase and toUpperCase are modelled on the letters A to Z. The local clock and
-- toLocaleString are arguments.
--
-- Loops are structural recursion. The only fuel is that of the decimal digits of a number n: n steps,
-- which are enough since every step divides by ten (Common.Decimal.value-digits reads n back). The unit
-- of a size is searched among as many units as the program has. text.split in inlineMarkdown goes
-- through the text once and counts the characters of a match down.
--
-- Not modelled: layout, most colours, and icons; frontend/src/components/Logo.tsx and Skeleton.tsx,
-- which are markup alone; margins, grids and tooltips of the charts; the second mount of StrictMode
-- in a development build; the backend (backend), which is a separate program whose messages and
-- answers are arguments here.
pub mod Common
pub mod Protocol
pub mod Browser
pub mod Store
pub mod Client
pub mod App
pub mod Docs
pub mod Help
pub mod Chat
pub mod Scratchpad
pub mod Processes
pub mod Omnibox
pub mod Charts
pub mod Dashboard
pub mod Tabs
pub mod Widgets
pub mod Requests
pub mod Header
pub mod Format
pub mod Session
pub mod Keyboard
mod Examples
