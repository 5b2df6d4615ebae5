-- ===== src/Scratchpad/Charts.antt =====
-- How frontend/src/components/GraphScratchpad.tsx draws a graph: the kind of chart, and the fields of the
-- rows that it reads.
use drishtiscope_oss.Common.{String, Bool, List, [], ◌∷◌, ◌++◌, ◌==◌, any, map}
use drishtiscope_oss.Scratchpad.Data.{Overrides, current_type}
use drishtiscope_oss.Store.Types.{
  ChartType, bar, line, Series, ScratchGraph, DataPreset, quantile_curve, runqueue_switches,
  net_bidi, thread_mem, page_faults,
}

pub data Chart : Type 0 where
  line_chart bar_chart area_chart : Chart

-- Every other type is drawn as areas.
abbrev pub chart_of : ChartType → Chart
chart_of line = line_chart
chart_of bar = bar_chart
chart_of _ = area_chart

-- `dataKey` of the horizontal axis
abbrev pub x_key : DataPreset → String
x_key quantile_curve = "percentile"
x_key thread_mem = "workers"
x_key _ = "time"

-- The baseline of the latency curve, which only a line chart draws.
abbrev pub baseline_keys : Chart → DataPreset → List String
baseline_keys line_chart quantile_curve = "baseline" ∷ []
baseline_keys _ _ = []

-- The fields of the rows that the chart of a graph reads.
unfoldable pub read_keys : Overrides → ScratchGraph → List String
unfolding current_type
read_keys overrides graph =
    x_key graph.data_preset
    ∷ (map (λ (s : Series). s.key) graph.series
        ++ baseline_keys (chart_of (current_type overrides graph)) graph.data_preset)

-- The fields of the rows that computeData makes.
abbrev pub row_keys : DataPreset → List String
row_keys quantile_curve = "percentile" ∷ "latency" ∷ "baseline" ∷ []
row_keys runqueue_switches = "time" ∷ "runqueue" ∷ "threads" ∷ "switches" ∷ []
row_keys net_bidi = "time" ∷ "txKb" ∷ "rxKb" ∷ "totalKb" ∷ []
row_keys thread_mem = "workers" ∷ "threads" ∷ "rssMiB" ∷ "vmsMiB" ∷ []
row_keys page_faults = "time" ∷ "minorFaults" ∷ "majorFaults" ∷ []

abbrev pub is_key : DataPreset → String → Bool
is_key preset k = any (λ j. j == k) (row_keys preset)
