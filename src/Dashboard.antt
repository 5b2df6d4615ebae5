-- ===== src/Dashboard.antt =====
-- frontend/src/pages/Dashboard.tsx: the process that the page takes for the target, the target's
-- label, and the request for a new target.
pub mod Laws
pub mod View
use Prim.Native.String.{◌++◌}
use drishtiscope_oss.Common.{
  ℕ, String, Option, none, some, Bool, true, false, not, ◌&&◌, ◌||◌, ◌==◌, find, ltb, nat_eq,
  if◌then◌else◌,
}
use drishtiscope_oss.Common.Decimal.{decimal}
use drishtiscope_oss.Common.Text.{codes, to_lower, includes}
use drishtiscope_oss.Processes.{same_lower}
use drishtiscope_oss.Protocol.{
  Snapshot, ProcessRow, Target, ConnectionStatus, connecting, reconnecting,
}

abbrev pub comm_or_dash : String → String
comm_or_dash comm = if comm == "" then "—" else comm

-- `targetLabel`; an id of 0 is left out.
unfoldable pub target_label : Option Snapshot → Option String
target_label none = none
target_label (some s) =
    if nat_eq s.meta.target.pid 0
    then some (comm_or_dash s.meta.target.comm)
    else some (comm_or_dash s.meta.target.comm ++ " [" ++ decimal s.meta.target.pid ++ "]")

-- The test of `find`: by id, by name, or by a mention in the command line; an id of 0 and an empty
-- name are falsy.
unfoldable pub is_match : Target → ProcessRow → Bool
unfolding same_lower includes to_lower
is_match target p =
    (not (nat_eq target.pid 0) && nat_eq p.pid target.pid)
    || (not (target.comm == "") && same_lower p.comm target.comm)
    || (not (target.comm == "")
        && includes (to_lower (codes p.cmdline)) (to_lower (codes target.comm)))

unfoldable pub target_process : Option Snapshot → Option ProcessRow
unfolding is_match
target_process none = none
target_process (some s) = find (is_match s.meta.target) s.processes

-- The body of the request of `handleTargetChange`
unfoldable pub target_body : String → Option ℕ → String × ℕ
target_body comm none = (comm, 0)
target_body comm (some pid) = (comm, if ltb 0 pid then pid else 0)

abbrev pub is_opening : ConnectionStatus → Bool
is_opening connecting = true
is_opening reconnecting = true
is_opening _ = false

-- Whether the page shows that it is connecting instead of its contents.
abbrev pub shows_connecting : Option Snapshot → ConnectionStatus → Bool
shows_connecting none status = is_opening status
shows_connecting (some s) status = false
