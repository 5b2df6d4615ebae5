-- ===== src/Omnibox.antt =====
-- The search box of frontend/src/components/Header.tsx: the processes that it suggests, what the
-- keys do, and the requests for a new target. Texts that are typed or searched are lists of code
-- points. The keys are handled one after the other, each with the state that the last one left.
pub mod Suggest
pub mod Keys
pub mod Highlight
pub mod Enter
pub mod Dropdown
pub mod Posts
use Prim.Native.String.{◌++◌ as ◌+++◌}
use drishtiscope_oss.Common.{
  take, length, ℕ, zero, suc, ◌+◌, ◌-◌, String, Option, none, some, Bool, true, false, not, ◌&&◌,
  ◌||◌, List, [], ◌∷◌, ◌++◌, length, get_elem?, all, ltb, nat_eq, map, if◌then◌else◌,
}
use drishtiscope_oss.Common.Int.{ℤ, pos, negsuc}
use drishtiscope_oss.Common.Decimal.{decimal, value_from}
use drishtiscope_oss.Common.Text.{codes, trim, is_digit}
use drishtiscope_oss.Processes.{agent_label}
use drishtiscope_oss.Protocol.{ProcessRow}

pub record Omnibox : Type 0 where
  pub search_query : List ℕ
  pub is_search_open : Bool
  pub highlighted_index : ℤ
  pub busy : Bool
  pub err : Option String

abbrev pub minus_one : ℤ
minus_one = negsuc 0

abbrev pub fresh : Omnibox
fresh = record {
  search_query = [];
  is_search_open = false;
  highlighted_index = minus_one;
  busy = false;
  err = none;
}

-- A call of `applyTarget`, whose `pid` is always given.
pub record Target : Type 0 where
  pub comm : List ℕ
  pub pid : ℕ

abbrev pub click_outside : Omnibox → Omnibox
click_outside b = record b { is_search_open = false; highlighted_index = minus_one }

-- `onChange` of the input
abbrev pub type_query : List ℕ → Omnibox → Omnibox
type_query q b = record b { search_query = q; is_search_open = true; highlighted_index = minus_one }

-- `onFocus` of the input
abbrev pub focus : Omnibox → Omnibox
focus b = record b { is_search_open = true; highlighted_index = minus_one }

-- The button that clears the text.
abbrev pub clear : Omnibox → Omnibox
clear b = record b { search_query = []; highlighted_index = minus_one }

-- The suggestions that are drawn.
abbrev pub drawn : List ProcessRow → List ProcessRow
drawn rows = take 25 rows

-- `onMouseEnter` of a suggestion; only one that is drawn can be entered.
unfoldable pub hover : ℕ → List ProcessRow → Omnibox → Omnibox
hover idx rows b =
    if ltb idx (length (drawn rows)) then record b { highlighted_index = pos idx } else b

-- The body of the request: `pid !== undefined && pid > 0 ? { comm, pid } : { comm, pid: 0 }`
abbrev pub body : Target → Target
body t = record { comm = t.comm; pid = if ltb 0 t.pid then t.pid else 0 }

-- `applyTarget` up to its `await`
abbrev pub begin_target : Omnibox → Omnibox
begin_target b = record b { busy = true; err = none }

-- How the request ends: with `ok`, with another status, or with an exception; one that is an `Error`
-- has a message.
pub data Outcome : Type 0 where
  ok : Outcome
  status : ℕ → Outcome
  exception : Option String → Outcome

abbrev pub failure_text : Option String → String
failure_text (some message) = message
failure_text none = "network error"

-- The rest of `applyTarget`, with the call of `onTargetSelect` where it is made.
abbrev pub end_target : Target → Outcome → Omnibox → Omnibox × Option Target
end_target t ok b = (
  record {
    search_query = [];
    is_search_open = false;
    highlighted_index = minus_one;
    busy = false;
    err = b.err;
  },
  some t,
)
end_target t (status code) b =
    (record b { busy = false; err = some ("target failed (" +++ decimal code +++ ")") }, none)
end_target t (exception e) b = (record b { busy = false; err = some (failure_text e) }, none)

-- `selectProcess`
unfoldable pub select_process : ProcessRow → Target
unfolding agent_label
select_process p = record { comm = codes (agent_label p.comm p.cmdline); pid = p.pid }

-- `/^\d+$/.test(raw)`
abbrev pub is_number : List ℕ → Bool
is_number [] = false
is_number (c ∷ s) = all is_digit (c ∷ s)

-- The target that a text names: a process id or a name.
unfoldable pub target_of_text : List ℕ → Target
unfolding value_from
target_of_text raw =
    if is_number raw
    then record { comm = []; pid = value_from 0 (map (λ c. c - b'0') raw) }
    else record { comm = raw; pid = 0 }
