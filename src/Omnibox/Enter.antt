-- ===== src/Omnibox/Enter.antt =====
-- What the search box suggests and what Enter asks for.
use Prim.Native.Nat.{compare, Ordering}
use mathlib.Core.List.{Perm}
use drishtiscope_oss.Common.{
  ℕ, zero, suc, ◌+◌, ◌-◌, ◌<◌, ◌≤◌, ◌/◌, ◌%◌, eq_iff, ◌≡◌, ◌≢◌, ◌⊎◌, inl, inr, refl, sym, ap, ◌∙◌,
  Bool, true, false, not, All, none, String, Option, some, List, [], ◌∷◌, map, all, filter, length,
  get_elem?, arith, if◌then◌else◌,
}
use drishtiscope_oss.Common.Decimal.{digits, digits_onto, value_from, value-digits}
use drishtiscope_oss.Common.Int.{pos, negsuc}
use drishtiscope_oss.Common.Sort.Laws.{IsSorted, sort-IsSorted, sort-perm}
use drishtiscope_oss.Common.Sort.Order.{IsOrder, then, descending-IsOrder, then-IsOrder}
use drishtiscope_oss.Common.Text.{to_lower, trim, is_digit}
use drishtiscope_oss.Omnibox.{Omnibox, Target, fresh, select_process, target_of_text, is_number}
use drishtiscope_oss.Omnibox.Highlight.{Event, key, step, run, next_inside}
use drishtiscope_oss.Omnibox.Keys.{
  Key, next_index, handle_search_key_down, open_key, closed_key, apply, move_to, highlighted,
  choose_row, chosen,
}
use drishtiscope_oss.Omnibox.Suggest.{
  matches, is_target, compare_suggestions, filtered_processes, display_processes, target_clean,
  pid_str,
}
use drishtiscope_oss.Processes.{agent_label, first_if, handle_row_click}
use drishtiscope_oss.Processes.Order.{first_if-IsOrder}
use drishtiscope_oss.Protocol.{ProcessRow}

compare_suggestions-IsOrder : (clean : List ℕ) → IsOrder (compare_suggestions clean)
unfolding compare_suggestions
compare_suggestions-IsOrder clean =
    then-IsOrder (first_if-IsOrder (is_target clean))
      (then-IsOrder (descending-IsOrder (λ p. p.cpu_pct)) (descending-IsOrder (λ p. p.rss_bytes)))

-- A suggestion may stand before another one: it is of the target and the other is not, or both are or are
-- not and it has more processor share, or the same and no less memory.
abbrev pub MayPrecede : Option String → ProcessRow → ProcessRow → Type 0
MayPrecede label p q =
    ((is_target (target_clean label) p ≡ true) × (is_target (target_clean label) q ≡ false))
    ⊎ ((is_target (target_clean label) p ≡ is_target (target_clean label) q)
        × ((q.cpu_pct < p.cpu_pct) ⊎ ((q.cpu_pct ≡ p.cpu_pct) × (q.rss_bytes ≤ p.rss_bytes))))

-- Each item may precede all that stand behind it.
abbrev pub IsRanked : (ProcessRow → ProcessRow → Type 0) → List ProcessRow → Type 0
IsRanked R [] = Unit
IsRanked R (p ∷ ps) = All (R p) ps × IsRanked R ps

compare_suggestions-MayPrecede :
    (label : Option String) (p q : ProcessRow)
    → compare_suggestions (target_clean label) p q ≢ Ordering.gt
    → MayPrecede label p q
unfolding compare_suggestions
compare_suggestions-MayPrecede label p q =
    go (is_target (target_clean label) p) (is_target (target_clean label) q)
  where
    by_load :
        (then) (compare q.cpu_pct p.cpu_pct) (compare q.rss_bytes p.rss_bytes) ≢ Ordering.gt
        → (q.cpu_pct < p.cpu_pct) ⊎ ((q.cpu_pct ≡ p.cpu_pct) × (q.rss_bytes ≤ p.rss_bytes))
    by_load h = ground (arith, h)

    go :
        (a b : Bool)
        → (then)
            (first_if a b)
            ((then) (compare q.cpu_pct p.cpu_pct) (compare q.rss_bytes p.rss_bytes))
          ≢ Ordering.gt
        → ((a ≡ true) × (b ≡ false))
          ⊎ ((a ≡ b)
              × ((q.cpu_pct < p.cpu_pct) ⊎ ((q.cpu_pct ≡ p.cpu_pct) × (q.rss_bytes ≤ p.rss_bytes))))
    go true false h = inl (refl, refl)
    go true true h = inr (refl, by_load h)
    go false false h = inr (refl, by_load h)
    go false true h = absurd (h refl)

IsSorted-IsRanked :
    (label : Option String) (ps : List ProcessRow)
    → IsSorted (compare_suggestions (target_clean label)) ps
    → IsRanked (MayPrecede label) ps
IsSorted-IsRanked label [] h = tt
IsSorted-IsRanked label (p ∷ ps) (h, hs) = (go ps h, IsSorted-IsRanked label ps hs)
  where
    go :
        (qs : List ProcessRow)
        → All (λ q. compare_suggestions (target_clean label) p q ≢ Ordering.gt) qs
        → All (MayPrecede label p) qs
    go [] k = tt
    go (q ∷ qs) (k, ks) = (compare_suggestions-MayPrecede label p q k, go qs ks)

-- The suggestions are the displayed processes that match the trimmed and lowercased text, each as often as
-- it is displayed: those of the target first, and among those that are or are not the ones with more
-- processor share first, and at the same share those with more memory.
pub suggestions-IsRanked :
    (query : List ℕ) (label : Option String) (ps : List ProcessRow)
    → Perm
        (filtered_processes query label ps)
        (filter (matches (to_lower (trim query))) (display_processes ps))
      × IsRanked (MayPrecede label) (filtered_processes query label ps)
unfolding filtered_processes
suggestions-IsRanked query label ps = (
  sort-perm (compare_suggestions (target_clean label)) _,
  IsSorted-IsRanked label _ (
      sort-IsSorted (compare_suggestions-IsOrder (target_clean label))
        (filter (matches (to_lower (trim query))) (display_processes ps))),
)

abbrev pub opened : Omnibox
opened = record fresh { is_search_open = true }

-- `times` presses of the down key.
abbrev pub downs : ℕ → List Event
downs zero = []
downs (suc times) = key Key.arrow_down ∷ downs times

step_down :
    (rows : List ProcessRow) (b : Omnibox)
    → b.is_search_open ≡ true
    → step rows (key Key.arrow_down) b ≡ move_to (next_index (length rows) b.highlighted_index) b
unfolding step handle_search_key_down open_key
step_down rows b o =
    ap (λ c. (if not c then closed_key Key.arrow_down b else open_key Key.arrow_down rows b).0) o

run-downs :
    (rows : List ProcessRow) (times k : ℕ) (b : Omnibox)
    → b.is_search_open ≡ true
    → b.highlighted_index ≡ pos k
    → k + times < length rows
    → (run rows (downs times) b).highlighted_index ≡ pos (k + times)
unfolding run
run-downs rows zero k b o h l = h ∙ ap pos (omega arith)
run-downs rows (suc times) k b o h l =
    run-downs rows times (suc k) (step rows (key Key.arrow_down) b)
      (ap (λ c. c.is_search_open) (step_down rows b o) ∙ o)
      (ap (λ c. c.highlighted_index) (step_down rows b o)
        ∙ ap (next_index (length rows)) h
        ∙ next_inside (length rows) k (omega arith))
      (omega arith)
    ∙ ap pos (omega arith)

get_elem?-found :
    (rows : List ProcessRow) (k : ℕ) (p : ProcessRow) → get_elem? rows k ≡ some p → k < length rows
get_elem?-found [] k p h = cc
get_elem?-found (q ∷ rows) zero p h = omega arith
get_elem?-found (q ∷ rows) (suc k) p h = omega (arith, get_elem?-found rows k p h)

chosen_lem :
    (rows : List ProcessRow) (b : Omnibox) (k : ℕ) (p : ProcessRow)
    → b.highlighted_index ≡ pos k
    → get_elem? rows k ≡ some p
    → chosen rows b ≡ some (select_process p)
unfolding chosen
chosen_lem rows b k p h g = ap (λ o. choose_row o rows b) (ap (highlighted rows) h ∙ g)

enter_lem :
    (rows : List ProcessRow) (b : Omnibox)
    → b.is_search_open ≡ true
    → handle_search_key_down Key.enter rows b ≡ apply (chosen rows b) b
unfolding handle_search_key_down open_key
enter_lem rows b o = ap (λ c. if not c then closed_key Key.enter b else open_key Key.enter rows b) o

run-downs_open :
    (rows : List ProcessRow) (times : ℕ) (b : Omnibox)
    → b.is_search_open ≡ true
    → (run rows (downs times) b).is_search_open ≡ true
unfolding run
run-downs_open rows zero b o = o
run-downs_open rows (suc times) b o =
    run-downs_open rows times (step rows (key Key.arrow_down) b)
      (ap (λ c. c.is_search_open) (step_down rows b o) ∙ o)

-- When the box has been opened, k + 1 presses of the down key and then Enter ask for the k-th suggestion
-- (counted from 0), for every k below the number of suggestions, and so also past the 25 that are drawn;
-- the box is busy from then on.
pub downs_choose :
    (rows : List ProcessRow) (k : ℕ) (p : ProcessRow)
    → get_elem? rows k ≡ some p
    → let (after, target) =
        handle_search_key_down Key.enter rows (run rows (downs (suc k)) opened) in
      (target ≡ some (select_process p)) × (after.busy ≡ true)
unfolding run
downs_choose rows k p h =
    let b = run rows (downs (suc k)) opened in
    rw (enter_lem rows b (run-downs_open rows (suc k) opened refl), found) (refl, refl)
  where
    first : Omnibox
    first = step rows (key Key.arrow_down) opened

    first_down : next_index (length rows) (negsuc 0) ≡ pos 0
    first_down = unfold next_index in refl

    found : chosen rows (run rows (downs (suc k)) opened) ≡ some (select_process p)
    found =
        chosen_lem rows (run rows (downs k) first) k p
          (run-downs rows k 0 first (ap (λ c. c.is_search_open) (step_down rows opened refl))
              (ap (λ c. c.highlighted_index) (step_down rows opened refl) ∙ first_down)
              (omega (arith, get_elem?-found rows k p h))
            ∙ ap pos (omega arith))
          h

read_digit : (d : ℕ) → (d + b'0') - b'0' ≡ d
read_digit d = omega arith

-- Reading the decimal digits of a process id back gives the id.
read_digits : (ds : List ℕ) → map (λ c. c - b'0') (map (λ d. d + b'0') ds) ≡ ds
read_digits [] = refl
read_digits (d ∷ ds) = cc (read_digits ds, read_digit d)

is_number-digits_onto :
    (fuel n : ℕ) (rest : List ℕ)
    → n ≤ fuel
    → all is_digit (map (λ d. d + b'0') rest) ≡ true
    → is_number (map (λ d. d + b'0') (digits_onto fuel n rest)) ≡ true
unfolding digits_onto
is_number-digits_onto zero n rest l h = ground arith
is_number-digits_onto (suc fuel) n rest l h =
    ground (arith, is_number-digits_onto fuel (n / 10) (n % 10 ∷ rest))

-- The search box asks for the process's own id where a click on its row in the table asks for 0: for
-- every process with an id other than 0 whose label is not its name.
pub label_targets_differ :
    (p : ProcessRow) (t : String × ℕ)
    → agent_label p.comm p.cmdline ≢ p.comm
    → p.pid ≢ 0
    → (handle_row_click true p).target ≡ some t
    → (select_process p).pid ≢ t.1
unfolding select_process handle_row_click
label_targets_differ p t h k e =
    let none_of : t.1 ≡ 0 =
      ap (λ (o : Option (String × ℕ)). elim o [ none ↦ 0 | some u ↦ u.1 ]) (sym e)
      ∙ ground (arith, eq_iff (agent_label p.comm p.cmdline) p.comm) in
    λ same. k (same ∙ none_of)

-- The decimal digits of a process id, typed as the target, name that id.
pub typed_pid : (pid : ℕ) → target_of_text (pid_str pid) ≡ record { comm = []; pid = pid }
unfolding target_of_text digits
typed_pid pid =
    ap (λ b. if b then as_pid else record { comm = pid_str pid; pid = 0 })
      (is_number-digits_onto pid pid [] (omega arith) refl)
    ∙ ap (λ ds. record { comm = []; pid = value_from 0 ds }) (read_digits (digits pid))
    ∙ ap (λ n. record { comm = []; pid = n }) (value-digits pid)
  where
    as_pid : Target
    as_pid = record { comm = []; pid = value_from 0 (map (λ c. c - b'0') (pid_str pid)) }
