-- ===== src/Scratchpad/Drawn.antt =====
-- The series that frontend/src/components/GraphScratchpad.tsx draws of a graph, under the chart type that
-- the user chose or the graph has.
use drishtiscope_oss.Common.{◌≡◌, refl, ap, ◌∙◌, String, some, false, List, [], ◌∷◌, ◌++◌, map}
use drishtiscope_oss.Scratchpad.Charts.{
  Chart, line_chart, bar_chart, area_chart, chart_of, x_key, baseline_keys, read_keys, row_keys,
}
use drishtiscope_oss.Scratchpad.Data.{Overrides, current_type}
use drishtiscope_oss.Store.Types.{
  Series, ScratchGraph, DataPreset, quantile_curve, runqueue_switches, net_bidi, thread_mem,
  page_faults,
}
use drishtiscope_oss.Tabs.Plots.{Mark, lines, bars, areas, Plotted, only, Plot}

abbrev pub mark_of : Chart → Mark
mark_of line_chart = lines
mark_of bar_chart = bars
mark_of area_chart = areas

abbrev pub plotted : Mark → Series → Plotted
plotted mark s = record {
  mark = mark;
  key = s.key;
  name = some s.name;
  color = some s.color;
  side = only;
}

-- The dashed line that only a line chart of the latency curve has.
abbrev pub baseline : Chart → DataPreset → List Plotted
baseline line_chart quantile_curve =
    record {
      mark = lines;
      key = "baseline";
      name = some "Baseline SLA (µs)";
      color = some "#6b7280";
      side = only;
    }
    ∷ []
baseline _ _ = []

unfoldable pub drawn_plot : Overrides → ScratchGraph → Plot
unfolding current_type
drawn_plot overrides graph =
    let chart = chart_of (current_type overrides graph) in
    record {
      rows = row_keys graph.data_preset;
      axis = some (x_key graph.data_preset);
      series = map (plotted (mark_of chart)) graph.series ++ baseline chart graph.data_preset;
      stacked = false;
    }

abbrev pub keys_of : List Plotted → List String
keys_of ps = map (λ (p : Plotted). p.key) ps

keys-series :
    (m : Mark) (ss : List Series) (more : List Plotted)
    → keys_of (map (plotted m) ss ++ more) ≡ map (λ (s : Series). s.key) ss ++ keys_of more
keys-series m [] more = refl
keys-series m (s ∷ ss) more = ap (λ ks. s.key ∷ ks) (keys-series m ss more)

keys-baseline : (c : Chart) (p : DataPreset) → keys_of (baseline c p) ≡ baseline_keys c p
keys-baseline line_chart quantile_curve = refl
keys-baseline line_chart runqueue_switches = refl
keys-baseline line_chart net_bidi = refl
keys-baseline line_chart thread_mem = refl
keys-baseline line_chart page_faults = refl
keys-baseline bar_chart p = refl
keys-baseline area_chart p = refl

-- The fields that the axis and the series read are those of `read_keys`.
pub drawn_plot-keys :
    (o : Overrides) (g : ScratchGraph)
    → x_key g.data_preset ∷ keys_of (drawn_plot o g).series ≡ read_keys o g
unfolding drawn_plot read_keys
drawn_plot-keys o g =
    let c = chart_of (current_type o g) in
    ap (λ ks. x_key g.data_preset ∷ ks)
      (keys-series (mark_of c) g.series (baseline c g.data_preset)
        ∙ ap (λ ks. map (λ (s : Series). s.key) g.series ++ ks) (keys-baseline c g.data_preset))
