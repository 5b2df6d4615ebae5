-- ===== src/Tabs/Story.antt =====
-- frontend/src/components/tabs/StoryTab.tsx: who the target is, what it is taken to do, and the events
-- that are about it. Shares and rates are in thousandths.
pub mod Arrivals
pub mod Cards
pub mod Copies
pub mod View
use Prim.Native.String.{◌++◌}
use drishtiscope_oss.Common.{
  ℕ, String, Option, Bool, not, ◌&&◌, ◌||◌, ◌==◌, List, [], ◌∷◌, filter, take, ltb, nat_eq,
  if◌then◌else◌,
}
use drishtiscope_oss.Common.Decimal.{decimal}
use drishtiscope_oss.Common.Fallback.{field_else, field_or, text_or}
use drishtiscope_oss.Common.Text.{codes, to_lower, includes}
use drishtiscope_oss.Processes.{agent_label}
use drishtiscope_oss.Protocol.{Snapshot, Target, Kpis, ProcessRow, EventRow}
use drishtiscope_oss.Tabs.{kpis_of, target_of}

unfoldable pub active_pid : Option Snapshot → Option ProcessRow → ℕ
active_pid s p =
    field_or (λ (r : ProcessRow). r.pid) p (field_or (λ (t : Target). t.pid) (target_of s) 0)

unfoldable pub active_comm : Option Snapshot → Option ProcessRow → String
active_comm s p =
    text_or (λ (r : ProcessRow). r.comm) p
      (text_or (λ (t : Target). t.comm) (target_of s) "unknown")

abbrev pub cmdline_of : Option ProcessRow → String
cmdline_of p = field_else (λ (r : ProcessRow). r.cmdline) p ""

unfoldable pub label : Option Snapshot → Option ProcessRow → String
unfolding agent_label active_comm
label s p = agent_label (active_comm s p) (cmdline_of p)

pub record Role : Type 0 where
  pub agent_role : String
  pub agent_badge : String
  pub role_color : String

abbrev pub codex_role : Role
codex_role = record {
  agent_role = "OpenAI Codex Code Execution & Sandbox Host";
  agent_badge = "AI Agent Host";
  role_color = "text-emerald border-emerald/40 bg-emerald/15";
}

abbrev pub agy_role : Role
agy_role = record {
  agent_role = "Antigravity Autonomous Pair Programming Agent";
  agent_badge = "Autonomous Agent";
  role_color = "text-cyan border-cyan/40 bg-cyan/15";
}

abbrev pub copilot_role : Role
copilot_role = record {
  agent_role = "GitHub Copilot Language Engine & Completions Agent";
  agent_badge = "LLM Assistant";
  role_color = "text-purple border-purple/40 bg-purple/15";
}

abbrev pub node_role : Role
node_role = record {
  agent_role = "Node.js JavaScript Agent & Tool Worker";
  agent_badge = "Runtime Worker";
  role_color = "text-amber border-amber/40 bg-amber/15";
}

abbrev pub python_role : Role
python_role = record {
  agent_role = "Python LLM Pipeline & Inference Script";
  agent_badge = "Python Agent";
  role_color = "text-blue border-blue/40 bg-blue/15";
}

abbrev pub other_role : Role
other_role = record {
  agent_role = "Linux Background Process";
  agent_badge = "Native Process";
  role_color = "text-cyan border-cyan/40 bg-cyan/15";
}

-- Whether a name occurs in the lowercased process name or command line.
abbrev pub named : List ℕ → List ℕ → String → Bool
named comm cmd name = includes comm (codes name) || includes cmd (codes name)

unfoldable pub classify : String → String → Role
unfolding to_lower includes
classify comm cmdline =
    let lower_comm = to_lower (codes comm) in
    let lower_cmd = to_lower (codes cmdline) in
    if named lower_comm lower_cmd "codex"
    then codex_role
    else if named lower_comm lower_cmd "agy"
    then agy_role
    else if named lower_cmd lower_comm "copilot"
    then copilot_role
    else if named lower_comm lower_cmd "node"
    then node_role
    else if named lower_comm lower_cmd "python"
    then python_role
    else other_role

unfoldable pub role : Option Snapshot → Option ProcessRow → Role
unfolding classify active_comm
role s p = classify (active_comm s p) (cmdline_of p)

unfoldable pub is_about : ℕ → String → EventRow → Bool
unfolding to_lower includes
is_about pid comm e =
    nat_eq e.pid pid
    || (not (comm == "") && includes (to_lower (codes e.comm)) (to_lower (codes comm)))

unfoldable pub process_events : Option Snapshot → Option ProcessRow → List EventRow → List EventRow
unfolding is_about active_pid active_comm
process_events s p events = filter (is_about (active_pid s p) (active_comm s p)) events

-- The events that are drawn.
unfoldable pub story_rows : Option Snapshot → Option ProcessRow → List EventRow → List EventRow
unfolding process_events
story_rows s p events = take 15 (process_events s p events)

pub data VerdictIcon : Type 0 where
  clock_icon cpu_icon zap_icon activity_icon : VerdictIcon

pub record Verdict : Type 0 where
  pub verdict : String
  pub verdict_color : String
  pub verdict_icon : VerdictIcon

unfoldable pub verdict_of : ℕ → ℕ → ℕ → Verdict
verdict_of cpu open_fds syscalls =
    if ltb 15_000 cpu
    then record {
      verdict = "Active Code Generation & Execution — Computing tasks across thread pool";
      verdict_color = "text-cyan border-cyan/40 bg-cyan/15";
      verdict_icon = cpu_icon;
    }
    else if ltb 50 open_fds
    then record {
      verdict =
          "High I/O & Socket Activity — Interacting with multiple tool handles & file descriptors";
      verdict_color = "text-amber border-amber/40 bg-amber/15";
      verdict_icon = zap_icon;
    }
    else if ltb 1_000_000 syscalls
    then record {
      verdict = "Rapid Kernel Operations — Polling file descriptors and network buffers";
      verdict_color = "text-emerald border-emerald/40 bg-emerald/15";
      verdict_icon = activity_icon;
    }
    else record {
      verdict = "Idle Event Loop — Waiting for user prompt or incoming message";
      verdict_color = "text-muted border-border bg-panel2";
      verdict_icon = clock_icon;
    }

unfoldable pub verdict : Option Snapshot → Option ProcessRow → Verdict
unfolding verdict_of
verdict s p =
    verdict_of
      (field_else (λ (k : Kpis). k.cpu_pct) (kpis_of s)
        (field_else (λ (r : ProcessRow). r.cpu_pct) p 0))
      (field_else (λ (k : Kpis). k.open_fds) (kpis_of s)
        (field_else (λ (r : ProcessRow). r.open_fds) p 0))
      (field_else (λ (k : Kpis). k.syscalls_per_sec) (kpis_of s) 0)

pub record DiagCommand : Type 0 where
  pub label : String
  pub cmd : String

unfoldable pub diag_commands : ℕ → List DiagCommand
diag_commands pid =
    record { label = "Check File Descriptors"; cmd = "lsof -p " ++ decimal pid }
    ∷ record {
      label = "Inspect Memory Vitals";
      cmd = "cat /proc/" ++ decimal pid ++ "/status | grep -E \"(Vm|Rss|Threads)\"";
    }
    ∷ record { label = "Trace Syscalls (3s)"; cmd = "strace -p " ++ decimal pid ++ " -s 128 -c" }
    ∷ record {
      label = "View Command & Args";
      cmd = "cat /proc/" ++ decimal pid ++ "/cmdline | tr '\\0' ' '";
    }
    ∷ []
