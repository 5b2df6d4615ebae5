-- ===== src/Processes.antt =====
-- frontend/src/components/ProcessTable.tsx, the table of processes, with `agentLabel` of
-- frontend/src/utils/format.ts. The rows are sorted by `Array.prototype.sort`; the processor share is
-- a natural number here, so the comparator is consistent.
pub mod Cells
pub mod Order
pub mod Targets
use Prim.Native.Nat.{compare, Ordering}
use drishtiscope_oss.Common.{
  ℕ, String, Option, none, some, Bool, true, false, not, ◌&&◌, ◌||◌, List, [], ◌∷◌, ◌==◌, nat_eq,
  if◌then◌else◌,
}
use drishtiscope_oss.Common.Text.{codes, to_lower, same_codes, includes}
use drishtiscope_oss.Common.Sort.{sort}
use drishtiscope_oss.Common.Sort.Order.{ascending, descending, then}
use drishtiscope_oss.Protocol.{ProcessRow}

-- `COPILOT_CMDLINE.test(cmdline)`: one of the names, in letters of either case.
abbrev pub is_copilot_cmdline : String → Bool
unfolding to_lower includes
is_copilot_cmdline cmdline =
    let lower = to_lower (codes cmdline) in
    includes lower (codes "@github/copilot")
    || includes lower (codes "copilot-linux")
    || includes lower (codes "copilot-darwin")
    || includes lower (codes "copilot-win32")
    || includes lower (codes "copilot-language-server")

unfoldable pub agent_label : String → String → String
unfolding to_lower includes
agent_label comm cmdline =
    if not (cmdline == "") && is_copilot_cmdline cmdline then "copilot" else comm

-- `a.toLowerCase() === b.toLowerCase()`
unfoldable pub same_lower : String → String → Bool
unfolding to_lower same_codes
same_lower a b = same_codes (to_lower (codes a)) (to_lower (codes b))

-- Whether the comparator takes a row for the target; a missing or empty target is falsy.
unfoldable pub sorts_as_target : Option String → ProcessRow → Bool
unfolding agent_label same_lower
sorts_as_target none p = false
sorts_as_target (some target) p =
    not (target == "") && ((p.comm == target) || same_lower (agent_label p.comm p.cmdline) target)

-- The answers of the comparator for a test that puts its rows first.
abbrev pub first_if : Bool → Bool → Ordering
first_if true false = Ordering.lt
first_if false true = Ordering.gt
first_if _ _ = Ordering.eq

unfoldable pub compare_rows : Bool → Option String → ProcessRow → ProcessRow → Ordering
unfolding sorts_as_target
compare_rows anti_flicker target a b =
    if anti_flicker
    then (then) (first_if (sorts_as_target target a) (sorts_as_target target b))
        (compare a.pid b.pid)
    else compare b.cpu_pct a.cpu_pct

unfoldable pub sorted_rows : Bool → Option String → List ProcessRow → List ProcessRow
unfolding compare_rows sort
sorted_rows anti_flicker target processes = sort (compare_rows anti_flicker target) processes

-- The row's mark: this test also looks into the command line.
unfoldable pub is_target : Option String → ProcessRow → Bool
unfolding agent_label same_lower to_lower includes
is_target none p = false
is_target (some target) p =
    not (target == "")
    && ((p.comm == target)
        || same_lower p.comm target
        || same_lower (agent_label p.comm p.cmdline) target
        || (not (p.cmdline == "")
            && includes (to_lower (codes p.cmdline)) (to_lower (codes target))))

abbrev pub is_selected : Option ℕ → Option String → ProcessRow → Bool
unfolding is_target
is_selected none target p = is_target target p
is_selected (some pid) target p = nat_eq p.pid pid || is_target target p

pub data Color : Type 0 where
  green amber rose muted : Color

abbrev pub state_color : String → Color
state_color state =
    if state == "R"
    then green
    else if state == "D"
    then amber
    else if state == "Z"
    then rose
    else muted

-- What a click on a row tells the page: the selected process, and the new target where `onTarget` is given.
pub record Click : Type 0 where
  pub select : ℕ
  pub target : Option (String × ℕ)

unfoldable pub handle_row_click : Bool → ProcessRow → Click
unfolding agent_label
handle_row_click has_target p =
    let label = agent_label p.comm p.cmdline in
    record {
      select = p.pid;
      target =
          if has_target then some (label, if not (label == p.comm) then 0 else p.pid) else none;
    }
