-- ===== src/Processes/Targets.antt =====
-- The row that a click chooses and the rows that are marked as the target.
use drishtiscope_oss.Common.{
  String, Option, some, none, Bool, true, false, ◌≡◌, ◌≢◌, refl, ◌==◌, eq_iff, not, arith,
  if◌then◌else◌,
}
use drishtiscope_oss.Common.Text.{codes, to_lower, same_codes_iff}
use drishtiscope_oss.Processes.{agent_label, same_lower, sorts_as_target, is_target}
use drishtiscope_oss.Protocol.{ProcessRow}

pub same_lower_self : (s : String) → same_lower s s ≡ true
unfolding same_lower
same_lower_self s = (same_codes_iff (to_lower (codes s)) (to_lower (codes s))).1 refl

-- A row that the sorting takes for the target is marked as the target.
sorts-IsMarked :
    (target : Option String) (p : ProcessRow)
    → sorts_as_target target p ≡ true
    → is_target target p ≡ true
unfolding sorts_as_target is_target
sorts-IsMarked none p h = cc
sorts-IsMarked (some t) p h = ground arith

non_empty : (b : Bool) (comm : String) → comm ≢ "" → ((if b then "copilot" else comm) == "") ≡ false
non_empty true comm h = refl
non_empty false comm h = ground (arith, eq_iff comm "")

label_lem : (comm cmdline : String) → comm ≢ "" → (agent_label comm cmdline == "") ≡ false
unfolding agent_label
label_lem comm cmdline h = non_empty _ comm h

clicked_sorts :
    (p : ProcessRow) → p.comm ≢ "" → sorts_as_target (some (agent_label p.comm p.cmdline)) p ≡ true
unfolding sorts_as_target
clicked_sorts p h =
    ground (arith, label_lem p.comm p.cmdline h, same_lower_self (agent_label p.comm p.cmdline))

-- With the target of a row of a process with a name, that row sorts first and is marked. The id is the
-- process's own where the label is its name, and 0 where the label was derived from the command line.
pub clicked-IsMarked :
    (p : ProcessRow)
    → p.comm ≢ ""
    → let label = agent_label p.comm p.cmdline in
      let pid = if not (label == p.comm) then 0 else p.pid in
      (sorts_as_target (some label) p ≡ true)
      × (is_target (some label) p ≡ true)
      × (label ≡ p.comm → pid ≡ p.pid)
      × (label ≢ p.comm → pid ≡ 0)
clicked-IsMarked p h = (
  clicked_sorts p h,
  sorts-IsMarked (some (agent_label p.comm p.cmdline)) p (clicked_sorts p h),
  λ e. ground (arith, eq_iff (agent_label p.comm p.cmdline) p.comm),
  λ e. ground (arith, eq_iff (agent_label p.comm p.cmdline) p.comm),
)
