-- ===== src/Omnibox/Keys.antt =====
-- `handleSearchKeyDown` of frontend/src/components/Header.tsx.
use drishtiscope_oss.Common.{
  ℕ, zero, suc, Option, none, some, true, false, not, List, [], ◌∷◌, length, get_elem?, ltb,
  if◌then◌else◌,
}
use drishtiscope_oss.Common.Int.{ℤ, pos, negsuc}
use drishtiscope_oss.Common.Text.{trim}
use drishtiscope_oss.Omnibox.{
  Omnibox, Target, minus_one, begin_target, select_process, target_of_text,
}
use drishtiscope_oss.Protocol.{ProcessRow}

-- The keys that the handler tells apart.
pub data Key : Type 0 where
  arrow_down arrow_up enter escape other : Key

-- `prev < n - 1 ? prev + 1 : 0`
unfoldable pub next_index : ℕ → ℤ → ℤ
next_index n (pos k) = if ltb (suc k) n then pos (suc k) else pos 0
next_index n (negsuc zero) = pos 0
next_index n (negsuc (suc k)) = negsuc k

-- `n - 1`
abbrev pub last_index : ℕ → ℤ
last_index zero = minus_one
last_index (suc n) = pos n

-- `prev > 0 ? prev - 1 : n - 1`
unfoldable pub previous_index : ℕ → ℤ → ℤ
previous_index n (pos zero) = last_index n
previous_index n (pos (suc k)) = pos k
previous_index n (negsuc k) = last_index n

-- `highlightedIndex >= 0 && highlightedIndex < rows.length`, and the row there.
abbrev pub highlighted : List ProcessRow → ℤ → Option ProcessRow
highlighted rows (pos k) = get_elem? rows k
highlighted rows (negsuc k) = none

abbrev pub only_row : List ProcessRow → Option ProcessRow
only_row (p ∷ []) = some p
only_row _ = none

abbrev pub text_target : List ℕ → Option Target
unfolding target_of_text
text_target [] = none
text_target (c ∷ s) = some (target_of_text (c ∷ s))

abbrev pub or_text : Option ProcessRow → List ℕ → Option Target
unfolding select_process target_of_text
or_text (some p) raw = some (select_process p)
or_text none raw = text_target raw

abbrev pub choose_row : Option ProcessRow → List ProcessRow → Omnibox → Option Target
unfolding select_process target_of_text trim
choose_row (some p) rows b = some (select_process p)
choose_row none rows b = or_text (only_row rows) (trim b.search_query)

-- What Enter chooses: the highlighted row, the only row, or what the text names.
unfoldable pub chosen : List ProcessRow → Omnibox → Option Target
unfolding choose_row
chosen rows b = choose_row (highlighted rows b.highlighted_index) rows b

abbrev pub apply : Option Target → Omnibox → Omnibox × Option Target
apply none b = (b, none)
apply (some t) b = (begin_target b, some t)

abbrev pub move_to : ℤ → Omnibox → Omnibox
move_to i b = record b { highlighted_index = i }

-- With the suggestions closed.
abbrev pub closed_key : Key → Omnibox → Omnibox × Option Target
closed_key arrow_down b = (record b { is_search_open = true }, none)
closed_key enter b = (record b { is_search_open = true }, none)
closed_key _ b = (b, none)

-- With the suggestions open.
unfoldable pub open_key : Key → List ProcessRow → Omnibox → Omnibox × Option Target
unfolding next_index previous_index chosen
open_key arrow_down rows b = (move_to (next_index (length rows) b.highlighted_index) b, none)
open_key arrow_up rows b = (move_to (previous_index (length rows) b.highlighted_index) b, none)
open_key enter rows b = apply (chosen rows b) b
open_key escape rows b = (record b { is_search_open = false; highlighted_index = minus_one }, none)
open_key other rows b = (b, none)

-- The key's effect, with the target that is asked for where there is one. While a request runs the
-- input is disabled and no key arrives.
unfoldable pub handle_search_key_down : Key → List ProcessRow → Omnibox → Omnibox × Option Target
unfolding open_key
handle_search_key_down key rows b =
    if not b.is_search_open then closed_key key b else open_key key rows b
