-- ===== src/Examples/TableRuns.antt =====
-- The theorems on the process table and the search box at concrete processes.
use mathlib.Core.List.{Perm}
use mathlib.Core.List.Perm
use drishtiscope_oss.Common.{
  ◌≡◌, ◌≢◌, refl, true, not, some, List, [], ◌∷◌, ◌++◌, filter, arith, eq_iff,
}
use drishtiscope_oss.Common.Text.{codes, to_lower, trim}
use drishtiscope_oss.Omnibox.{fresh, select_process}
use drishtiscope_oss.Omnibox.Enter.{
  MayPrecede, IsRanked, suggestions-IsRanked, opened, downs, downs_choose,
}
use drishtiscope_oss.Omnibox.Highlight.{Event, key, typed, InRange, highlight-InRange}
use drishtiscope_oss.Omnibox.Highlight
use drishtiscope_oss.Omnibox.Keys.{Key, handle_search_key_down}
use drishtiscope_oss.Omnibox.Suggest.{
  agy_row, python_row, node_row, filtered_processes, display_processes, matches,
}
use drishtiscope_oss.Processes.{sorted_rows, sorts_as_target, agent_label}
use drishtiscope_oss.Processes.Order.{steady_rows, targets_first}
use drishtiscope_oss.Protocol.{ProcessRow}

abbrev three : List ProcessRow
three = agy_row ∷ python_row ∷ node_row ∷ []

abbrev turned : List ProcessRow
turned = python_row ∷ agy_row ∷ node_row ∷ []

steady_rows_example : sorted_rows true (some "node") three ≡ sorted_rows true (some "node") turned
steady_rows_example =
    steady_rows (some "node") three turned (Perm.swap python_row agy_row (node_row ∷ []))
      ((λ e. omega arith, (λ e. omega arith, tt)), ((λ e. omega arith, tt), (tt, tt)))

targets_first_example :
    sorted_rows true (some "node") three
    ≡ filter (sorts_as_target (some "node")) (sorted_rows true (some "node") three)
      ++ filter (λ p. not (sorts_as_target (some "node") p)) (sorted_rows true (some "node") three)
targets_first_example = targets_first (some "node") three

abbrev some_keys : List Event
some_keys = typed (codes "n") ∷ key Key.arrow_down ∷ key Key.arrow_up ∷ key Key.enter ∷ []

highlight-InRange_example : InRange 3 (Highlight.run three some_keys fresh).highlighted_index
highlight-InRange_example = highlight-InRange three some_keys (omega arith)

suggestions-IsRanked_example :
    Perm
      (filtered_processes (codes " Node ") (some "agy [7]") turned)
      (filter (matches (to_lower (trim (codes " Node ")))) (display_processes turned))
    × IsRanked
        (MayPrecede (some "agy [7]"))
        (filtered_processes (codes " Node ") (some "agy [7]") turned)
suggestions-IsRanked_example = suggestions-IsRanked (codes " Node ") (some "agy [7]") turned

downs_choose_example :
    let (after, target) =
      handle_search_key_down Key.enter three (Highlight.run three (downs 2) opened) in
    (target ≡ some (select_process python_row)) × (after.busy ≡ true)
downs_choose_example = downs_choose three 1 python_row refl

label_lem : agent_label "MainThread" "/opt/copilot-linux/bin" ≢ "MainThread"
unfolding agent_label
label_lem e = ground (arith, eq_iff "copilot" "MainThread")
