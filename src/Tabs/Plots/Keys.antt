-- ===== src/Tabs/Plots/Keys.antt =====
-- Every chart of the tabs reads fields that its rows have, and draws no field twice.
use drishtiscope_oss.Common.{
  ◌≡◌, refl, String, Bool, true, not, ◌&&◌, Option, none, some, List, [], ◌∷◌, ◌==◌, any, all, map,
}
use drishtiscope_oss.Protocol.{Snapshot}
use drishtiscope_oss.Tabs.Plots.{
  Place, vitals, calls, memory, disk, switches, sockets, profile, denials, overlay, Plot, Plotted,
  plot_at,
}

abbrev pub has : List String → String → Bool
has keys k = any (λ j. j == k) keys

abbrev distinct : List String → Bool
distinct [] = true
distinct (k ∷ ks) = not (has ks k) && distinct ks

abbrev axis_known : List String → Option String → Bool
axis_known rows none = true
axis_known rows (some k) = has rows k

-- The chart reads only fields that its rows have, no field for two series, and the axis is not drawn.
abbrev pub reads_rows : Plot → Bool
reads_rows p =
    let keys = map (λ (s : Plotted). s.key) p.series in
    axis_known p.rows p.axis && all (has p.rows) keys && distinct keys

pub plots_read_rows : (place : Place) (s : Option Snapshot) → reads_rows (plot_at place s) ≡ true
unfolding plot_at
plots_read_rows vitals s = refl
plots_read_rows calls s = refl
plots_read_rows memory s = refl
plots_read_rows disk s = refl
plots_read_rows switches s = refl
plots_read_rows sockets s = refl
plots_read_rows profile s = refl
plots_read_rows denials s = refl
plots_read_rows overlay s = refl
