-- ===== src/Omnibox/Highlight.antt =====
-- Walking through the suggestions by the arrow keys.
use drishtiscope_oss.Common.{
  ℕ, zero, suc, ◌<◌, ◌≡◌, refl, sym, subst, Bool, true, false, not, Option, some, none, List, [],
  ◌∷◌, length, length-take, arith, if◌then◌else◌,
}
use drishtiscope_oss.Common.Int.{ℤ, pos, negsuc}
use drishtiscope_oss.Omnibox.{
  Omnibox, focus, clear, hover, Target, fresh, type_query, click_outside, end_target, Outcome,
}
use drishtiscope_oss.Omnibox.Keys.{
  Key, next_index, previous_index, last_index, handle_search_key_down, closed_key, open_key, apply,
  chosen,
}
use drishtiscope_oss.Protocol.{ProcessRow}

pub next_inside : (n k : ℕ) → suc k < n → next_index n (pos k) ≡ pos (suc k)
unfolding next_index
next_inside n k h = ground arith

-- What the box goes through while its suggestions are `rows`: keys, typing, the mouse, and the
-- end of a request.
pub data Event : Type 0 where
  key : Key → Event
  typed : List ℕ → Event
  hovered : ℕ → Event
  focused cleared : Event
  outside : Event
  ended : Target → Outcome → Event

unfoldable pub step : List ProcessRow → Event → Omnibox → Omnibox
unfolding handle_search_key_down hover
step rows (key k) b = (handle_search_key_down k rows b).0
step rows (typed q) b = type_query q b
step rows (hovered k) b = hover k rows b
step rows focused b = focus b
step rows cleared b = clear b
step rows outside b = click_outside b
step rows (ended t o) b = (end_target t o b).0

unfoldable pub run : List ProcessRow → List Event → Omnibox → Omnibox
unfolding step
run rows [] b = b
run rows (e ∷ es) b = run rows es (step rows e b)

-- No row is highlighted, or one that is there.
abbrev pub InRange : ℕ → ℤ → Type 0
InRange n (pos k) = k < n
InRange n (negsuc zero) = Unit
InRange n (negsuc (suc k)) = ⊥

last-InRange : (n : ℕ) → InRange n (last_index n)
last-InRange zero = tt
last-InRange (suc n) = omega arith

next-InRange : (n : ℕ) (i : ℤ) → 0 < n → InRange n i → InRange n (next_index n i)
unfolding next_index
next-InRange n (pos k) l h = ground arith
next-InRange n (negsuc zero) l h = l
next-InRange n (negsuc (suc k)) l h = absurd h

previous-InRange : (n : ℕ) (i : ℤ) → InRange n i → InRange n (previous_index n i)
unfolding previous_index
previous-InRange n (pos zero) h = last-InRange n
previous-InRange n (pos (suc k)) h = omega arith
previous-InRange n (negsuc k) h = last-InRange n

apply-index :
    (t : Option Target) (b : Omnibox) → (apply t b).0.highlighted_index ≡ b.highlighted_index
apply-index none b = refl
apply-index (some t) b = refl

abbrev Fits : List ProcessRow → Omnibox × Option Target → Type 0
Fits rows r = InRange (length rows) r.0.highlighted_index

if-Fits :
    (rows : List ProcessRow) (c : Bool) (x y : Omnibox × Option Target)
    → Fits rows x
    → Fits rows y
    → Fits rows (if c then x else y)
if-Fits rows true x y p q = p
if-Fits rows false x y p q = q

module _ (rows : List ProcessRow) (l : 0 < length rows) (b : Omnibox)
    (h : InRange (length rows) b.highlighted_index) where
  closed_key-Fits : (k : Key) → Fits rows (closed_key k b)
  closed_key-Fits Key.arrow_down = h
  closed_key-Fits Key.arrow_up = h
  closed_key-Fits Key.enter = h
  closed_key-Fits Key.escape = h
  closed_key-Fits Key.other = h

  open_key-Fits : (k : Key) → Fits rows (open_key k rows b)
  unfolding open_key
  open_key-Fits Key.arrow_down = next-InRange (length rows) b.highlighted_index l h
  open_key-Fits Key.arrow_up = previous-InRange (length rows) b.highlighted_index h
  open_key-Fits Key.enter = subst (InRange (length rows)) (sym (apply-index (chosen rows b) b)) h
  open_key-Fits Key.escape = tt
  open_key-Fits Key.other = h

  key-Fits : (k : Key) → Fits rows (handle_search_key_down k rows b)
  unfolding handle_search_key_down
  key-Fits k = if-Fits rows (not b.is_search_open) _ _ (closed_key-Fits k) (open_key-Fits k)

  end_target-Fits : (t : Target) (o : Outcome) → Fits rows (end_target t o b)
  end_target-Fits t Outcome.ok = tt
  end_target-Fits t (Outcome.status s) = h
  end_target-Fits t (Outcome.exception s) = h

  hover-InRange : (k : ℕ) → InRange (length rows) (hover k rows b).highlighted_index
  unfolding hover
  hover-InRange k = ground (arith, length-take 25 rows)

  step-InRange : (e : Event) → InRange (length rows) (step rows e b).highlighted_index
  unfolding step
  step-InRange (key k) = key-Fits k
  step-InRange (typed q) = tt
  step-InRange (hovered k) = hover-InRange k
  step-InRange focused = tt
  step-InRange cleared = tt
  step-InRange outside = tt
  step-InRange (ended t o) = end_target-Fits t o

run-InRange :
    (rows : List ProcessRow) (es : List Event) (b : Omnibox)
    → 0 < length rows
    → InRange (length rows) b.highlighted_index
    → InRange (length rows) (run rows es b).highlighted_index
unfolding run
run-InRange rows [] b l h = h
run-InRange rows (e ∷ es) b l h = run-InRange rows es (step rows e b) l (step-InRange rows l b h e)

-- While the suggestions stay the same, and there is one at least, no sequence of keys, typing,
-- clicks, focus, mouse moves and answers leads to a highlighted index that is neither -1 nor a row's.
pub highlight-InRange :
    (rows : List ProcessRow) (es : List Event)
    → 0 < length rows
    → InRange (length rows) (run rows es fresh).highlighted_index
highlight-InRange rows es l = run-InRange rows es fresh l tt
