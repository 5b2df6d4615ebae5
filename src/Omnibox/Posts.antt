-- ===== src/Omnibox/Posts.antt =====
-- The requests that applyTarget of frontend/src/components/Header.tsx sends, with those of the handler that
-- frontend/src/pages/Dashboard.tsx gives it. While one runs, the input is disabled, but the suggestions can
-- still be clicked, so that several requests may run at once and end in any order.
pub mod Accounts
use drishtiscope_oss.Common.{
  ℕ, ◌≡◌, Option, none, some, false, true, List, [], ◌∷◌, ◌++◌, get_elem?, ltb, if◌then◌else◌,
}
use drishtiscope_oss.Common.Text.{trim}
use drishtiscope_oss.Omnibox.{
  Omnibox, Target, body, begin_target, end_target, Outcome, ok, status, exception, fresh,
  type_query, click_outside, focus, clear, hover, drawn, select_process,
}
use drishtiscope_oss.Omnibox.Keys.{Key, handle_search_key_down, apply, text_target}
use drishtiscope_oss.Protocol.{ProcessRow}

-- `handleTargetChange`: a failure of its request is only logged.
abbrev pub handle_target_change : Target → List Target
handle_target_change t = record { comm = t.comm; pid = if ltb 0 t.pid then t.pid else 0 } ∷ []

abbrev pub on_target_select : Option Target → List Target
on_target_select none = []
on_target_select (some t) = handle_target_change t

-- The search box with its requests, the latest first: the calls of applyTarget that still wait for their
-- answer, the bodies that were posted to /api/target, all calls, those that succeeded and those that
-- failed.
pub record Search : Type 0 where
  pub box : Omnibox
  pub pending : List Target
  pub posts : List Target
  pub asked : List Target
  pub applied : List Target
  pub failed : List Target

abbrev pub unused : Search
unused = record { box = fresh; pending = []; posts = []; asked = []; applied = []; failed = [] }

abbrev pub over : (Omnibox → Omnibox) → Search → Search
over f s = record s { box = f s.box }

-- `applyTarget` up to its `await`, with what the handler left of the box.
unfoldable pub ask : Omnibox × Option Target → Search → Search
ask (b, none) s = record s { box = b }
ask (b, some t) s = record s {
  box = b;
  pending = t ∷ s.pending;
  posts = body t ∷ s.posts;
  asked = t ∷ s.asked;
}

abbrev pub note : Target → Outcome → Search → Search
note t ok s = record s { applied = t ∷ s.applied }
note t _ s = record s { failed = t ∷ s.failed }

-- The rest of `applyTarget`; `rest` is what still waits.
unfoldable pub finish : Target → Outcome → List Target → Search → Search
finish t o rest s =
    let (b, call) = end_target t o s.box in
    note t o (record s { box = b; pending = rest; posts = on_target_select call ++ s.posts })

-- What may happen to the search box. The suggestions are those of the snapshot at that time. The input and
-- the button that clears it are there while the box is not busy; the suggestions are drawn while they are
-- open.
pub data Move : Search → Search → Type 0 where
  presses :
      (s : Search) (rows : List ProcessRow) (k : Key)
      → s.box.busy ≡ false
      → Move s (ask (handle_search_key_down k rows s.box) s)
  types : (s : Search) (q : List ℕ) → s.box.busy ≡ false → Move s (over (type_query q) s)
  focuses : (s : Search) → s.box.busy ≡ false → Move s (over focus s)
  clears : (s : Search) → s.box.busy ≡ false → Move s (over clear s)
  leaves : (s : Search) → Move s (over click_outside s)
  points : (s : Search) (rows : List ProcessRow) (k : ℕ) → Move s (over (hover k rows) s)
  selects :
      (s : Search) (rows : List ProcessRow) (k : ℕ) (p : ProcessRow)
      → s.box.is_search_open ≡ true
      → get_elem? (drawn rows) k ≡ some p
      → Move s (ask (apply (some (select_process p)) s.box) s)
  names :
      (s : Search)
      → s.box.is_search_open ≡ true
      → Move s (ask (apply (text_target (trim s.box.search_query)) s.box) s)
  ends :
      (s : Search) (before after : List Target) (t : Target) (o : Outcome)
      → s.pending ≡ before ++ t ∷ after
      → Move s (finish t o (before ++ after) s)

pub data Moves (s : Search) : Search → Type 0 where
  here : Moves s s
  next : {t u : Search} → Moves s t → Move t u → Moves s u
