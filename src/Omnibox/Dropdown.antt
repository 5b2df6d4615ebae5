-- ===== src/Omnibox/Dropdown.antt =====
-- What the search box of frontend/src/components/Header.tsx draws: its placeholder, what stands at its
-- end, and the suggestions below it.
use Prim.Native.String.{◌++◌ as ◌+++◌}
use drishtiscope_oss.Common.{
  ℕ, String, Option, none, some, Bool, false, ◌==◌, List, [], ◌∷◌, ◌++◌, length, map_from, ltb,
  nat_eq, if◌then◌else◌,
}
use drishtiscope_oss.Common.Decimal.{decimal}
use drishtiscope_oss.Common.Fallback.{or_text}
use drishtiscope_oss.Common.Fixed.{digit_codes, fixed_one, round_div}
use drishtiscope_oss.Common.Int.{ℤ, pos, negsuc}
use drishtiscope_oss.Common.Text.{codes, trim}
use drishtiscope_oss.Format.{fmt_bytes}
use drishtiscope_oss.Omnibox.{Omnibox, Target, drawn}
use drishtiscope_oss.Omnibox.Keys.{text_target}
use drishtiscope_oss.Omnibox.Suggest.{target_clean, is_target}
use drishtiscope_oss.Processes.{agent_label}
use drishtiscope_oss.Protocol.{ProcessRow}

abbrev pub placeholder : Option String → String
placeholder none = "Search executing processes... (/)"
placeholder (some label) = "Search: " +++ label +++ " (/)"

-- The end of the search box: a spinner, the button that clears the text, or nothing.
pub data End : Type 0 where
  spinner clear_button blank : End

abbrev pub clear_or_blank : List ℕ → End
clear_or_blank [] = blank
clear_or_blank (c ∷ cs) = clear_button

unfoldable pub end_of : Omnibox → End
end_of b = if b.busy then spinner else clear_or_blank b.search_query

pub data Look : Type 0 where
  highlighted target plain : Look

pub record Suggestion : Type 0 where
  pub label : String
  pub pid : String
  pub is_active : Bool
  pub state : String
  pub state_color : String
  pub command : String
  pub cpu : List ℕ
  pub rss : List ℕ
  pub look : Look

abbrev pub color_of_state : String → String
color_of_state state = if state == "R" then "green" else if state == "D" then "amber" else "muted"

-- `idx === highlightedIndex`
abbrev pub is_highlighted : ℕ → ℤ → Bool
is_highlighted i (pos k) = nat_eq i k
is_highlighted i (negsuc k) = false

-- A suggestion; `i` is its index, and `clean` is `currentTargetClean`.
unfoldable pub suggestion : List ℕ → ℤ → ProcessRow → ℕ → Suggestion
unfolding agent_label is_target fixed_one round_div fmt_bytes
suggestion clean highlighted_index p i =
    let active = is_target clean p in
    record {
      label = agent_label p.comm p.cmdline;
      pid = "PID " +++ decimal p.pid;
      is_active = active;
      state = p.state;
      state_color = color_of_state p.state;
      command = or_text p.cmdline (or_text p.exe p.comm);
      cpu = fixed_one (round_div p.cpu_pct 100) ++ codes "% CPU";
      rss = fmt_bytes p.rss_bytes;
      look =
          if is_highlighted i highlighted_index
          then highlighted
          else if active
          then target
          else plain;
    }

-- The list: the suggestions that are drawn, or, if there are none, a text that names what was searched, with
-- a button for the target that it names.
pub data Body : Type 0 where
  listed : List Suggestion → Body
  no_match : List ℕ → Option (List ℕ × Target) → Body

abbrev pub direct_button : List ℕ → Option Target → Option (List ℕ × Target)
direct_button raw none = none
direct_button raw (some t) = some (codes "Target \"" ++ (raw ++ codes "\" directly →"), t)

pub record Dropdown : Type 0 where
  pub count : ℕ
  pub body : Body
  pub footer : Option (List ℕ)

abbrev pub body_of : List ℕ → Omnibox → List ProcessRow → Body
unfolding suggestion trim
body_of clean b [] =
    let raw = trim b.search_query in
    no_match (codes "No executing processes match \"" ++ (b.search_query ++ codes "\""))
      (direct_button raw (text_target raw))
body_of clean b (p ∷ ps) =
    listed (map_from (suggestion clean b.highlighted_index) 0 (drawn (p ∷ ps)))

-- `rows` are the suggestions; nothing is drawn while the box is closed.
unfoldable pub dropdown : Option String → List ProcessRow → Omnibox → Option Dropdown
unfolding suggestion trim digit_codes
dropdown target_label rows b =
    if b.is_search_open
    then some (record {
      count = length rows;
      body = body_of (target_clean target_label) b rows;
      footer =
          if ltb 25 (length rows)
          then some (
              codes "Showing top 25 of "
              ++ (digit_codes (length rows)
                  ++ codes " executing processes. Type to narrow search."))
          else none;
    })
    else none
