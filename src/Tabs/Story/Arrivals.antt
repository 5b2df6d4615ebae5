-- ===== src/Tabs/Story/Arrivals.antt =====
-- A live event on its way from the socket to the rows of the story.
use drishtiscope_oss.App.{App, Readings, handle, on_message}
use drishtiscope_oss.Common.{
  ℕ, zero, suc, ◌≤◌, ◌<◌, ◌≡◌, refl, ap, ◌∙◌, String, Option, none, some, Bool, true, false, List,
  [], ◌∷◌, ◌++◌, filter, filter-append, take, length, length-append, arith, if◌then◌else◌,
}
use drishtiscope_oss.Protocol.{Snapshot, ProcessRow, EventRow, Mode, event}
use drishtiscope_oss.Store.{add_event}
use drishtiscope_oss.Store.Types.{ScopeStore}
use drishtiscope_oss.Tabs.Story.{active_pid, active_comm, is_about, process_events, story_rows}
use drishtiscope_oss.Tabs.Windows.{story_rows-IsStale}

take-append_one {ℓ} :
    {A : Type ℓ} (n : ℕ) (xs : List A) (x : A)
    → length xs < n
    → take n (xs ++ x ∷ []) ≡ take n xs ++ x ∷ []
take-append_one zero xs x h = absurd (omega arith)
take-append_one (suc n) [] x h = go n
  where
    go : (k : ℕ) → x ∷ take k [] ≡ x ∷ []
    go zero = refl
    go (suc k) = refl
take-append_one (suc n) (y ∷ xs) x h = ap (λ l. y ∷ l) (take-append_one n xs x (omega arith))

add_event_below :
    (e : EventRow) (st : ScopeStore)
    → st.is_paused ≡ false
    → length st.events < 300
    → (add_event e st).events ≡ st.events ++ e ∷ []
unfolding add_event
add_event_below e st p h = ground (arith, length-append st.events (e ∷ []))

message_events :
    (v : ℕ) (now : Readings) (ts : String) (mode : Option Mode) (e : EventRow) (app : App)
    → (on_message now
        (record { v = v; kind = event; ts = ts; mode = mode; payload = e })
        app).page.0.events
      ≡ (add_event e app.page.0).events
unfolding on_message handle add_event
message_events v now ts none e app = refl
message_events v now ts (some x) e app = ground arith

one_kept : (test : EventRow → Bool) (e : EventRow) → test e ≡ true → filter test (e ∷ []) ≡ e ∷ []
one_kept test e h = ap (λ b. if b then e ∷ [] else []) h

row_added :
    (s : Option Snapshot) (p : Option ProcessRow) (e : EventRow) (events : List EventRow)
    → is_about (active_pid s p) (active_comm s p) e ≡ true
    → length (process_events s p events) < 15
    → story_rows s p (events ++ e ∷ []) ≡ story_rows s p events ++ e ∷ []
unfolding story_rows process_events
row_added s p e events a f =
    let test = is_about (active_pid s p) (active_comm s p) in
    ap (take 15)
      (filter-append test events (e ∷ []) ∙ ap (λ l. filter test events ++ l) (one_kept test e a))
    ∙ take-append_one 15 (filter test events) e f

-- While the store is not paused and has fewer than 300 events, a message with an event about the
-- target adds it as the last row of the story if fewer than 15 events are about the target, and changes
-- no row if there are 15 already, at every refresh rate.
pub event_arrives :
    (v : ℕ) (now : Readings) (ts : String) (mode : Option Mode) (e : EventRow) (app : App)
    (s : Option Snapshot) (p : Option ProcessRow)
    → app.page.0.is_paused ≡ false
    → length app.page.0.events < 300
    → is_about (active_pid s p) (active_comm s p) e ≡ true
    → let before = app.page.0.events in
      let after =
        (on_message now
          (record { v = v; kind = event; ts = ts; mode = mode; payload = e })
          app).page.0.events in
      (length (process_events s p before) < 15
        → story_rows s p after ≡ story_rows s p before ++ e ∷ [])
      × (15 ≤ length (process_events s p before) → story_rows s p after ≡ story_rows s p before)
event_arrives v now ts mode e app s p u h a =
    let k = message_events v now ts mode e app ∙ add_event_below e app.page.0 u h in
    (
      λ f. ap (story_rows s p) k ∙ row_added s p e app.page.0.events a f,
      λ f. ap (story_rows s p) k ∙ story_rows-IsStale s p app.page.0.events (e ∷ []) f,
    )
