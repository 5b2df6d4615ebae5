-- ===== src/Chat/Prompts.antt =====
-- The quick prompts of frontend/src/components/ChatDrawer.tsx, each of which sends its query.
use drishtiscope_oss.Common.{String, List, [], ◌∷◌, ℕ, Option, none, some, map, ◌≡◌, refl}
use drishtiscope_oss.Common.Text.{codes, to_lower, includes}
use drishtiscope_oss.Chat.Graphs.{requested_graph}

pub record Prompt : Type 0 where
  pub label : String
  pub query : String

abbrev pub quick_prompts : List Prompt
quick_prompts =
    record { label = "CPU Spike?"; query = "Why is CPU so high? Diagnose and suggest fixes." }
    ∷ record {
      label = "Memory Leak?";
      query = "Is there a memory leak? Analyze RSS growth and suggest how to diagnose.";
    }
    ∷ record {
      label = "📈 Graph Thread vs Mem";
      query =
          "Draw a graph of thread concurrency vs memory RSS density and explain what it reveals.";
    }
    ∷ record {
      label = "📉 Plot Runqueue Wait";
      query =
          "Plot the CFS scheduler runqueue latency curve to detect whether this agent is starving for CPU.";
    }
    ∷ record {
      label = "Network Issues?";
      query = "Analyze active network connections and identify any anomalies or connection leaks.";
    }
    ∷ record {
      label = "Syscall Errors?";
      query = "What syscall errors are occurring? Why and how to fix them?";
    }
    ∷ record {
      label = "Disk I/O?";
      query = "Analyze disk I/O patterns. Is read/write usage abnormal for an AI agent?";
    }
    ∷ record {
      label = "Security Check?";
      query =
          "Are there any security anomalies, privilege escalation attempts, or suspicious file accesses?";
    }
    ∷ []

abbrev pub graph_preset_of : ℕ → Prompt → Option String
graph_preset_of now p = elim (requested_graph now (to_lower (codes p.query))) [
  | none ↦ none
  | some g ↦ some g.1
]

-- Two of the prompts ask for a graph.
pub prompts-graphs :
    (now : ℕ)
    → map (graph_preset_of now) quick_prompts
      ≡ none
        ∷ none
        ∷ some "Thread Concurrency vs Memory RSS Density"
        ∷ some "CFS Scheduler Runqueue & Thread Contention"
        ∷ none
        ∷ none
        ∷ none
        ∷ none
        ∷ []
unfolding requested_graph to_lower includes
prompts-graphs now = refl
