-- ===== src/Examples/PageRuns.antt =====
-- The theorems on the page's target process at concrete snapshots.
use drishtiscope_oss.Common.{◌≡◌, refl, some, [], ◌∷◌}
use drishtiscope_oss.Common.Text.{to_lower, lower_code, includes, starts_with}
use drishtiscope_oss.Dashboard.{target_process}
use drishtiscope_oss.Examples.Samples.{a_snapshot}
use drishtiscope_oss.Omnibox.Suggest.{agy_row, node_row}
use drishtiscope_oss.Processes.{same_lower}
use drishtiscope_oss.Protocol.{ProcessRow, Snapshot}

-- An editor in which a file of the agent is open.
abbrev editor_row : ProcessRow
editor_row = record node_row { comm = "vim"; cmdline = "vim AGY.md"; pid = 9 }

abbrev agent_row : ProcessRow
agent_row = record agy_row { pid = 7 }

-- The target of the sample snapshot is the agent, by its id and its name.
abbrev edited : Snapshot
edited = record (a_snapshot 5) { processes = editor_row ∷ agent_row ∷ [] }

edited_test : target_process (some edited) ≡ some editor_row
unfolding target_process includes to_lower lower_code starts_with same_lower
edited_test = refl
