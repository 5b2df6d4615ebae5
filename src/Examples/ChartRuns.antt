-- ===== src/Examples/ChartRuns.antt =====
-- The theorems on the charts at concrete series.
use mathlib.Core.List.{Perm}
use drishtiscope_oss.Common.{ℕ, ◌+◌, ◌≡◌, none, List, [], ◌∷◌}
use drishtiscope_oss.Charts.{Row, data_map, overlay_data, put_cpu, put_io, put_net}
use drishtiscope_oss.Charts.Overlay.{row_at, column, last_at, overlay_rows}
use drishtiscope_oss.Common.Sort.Laws.{IsSorted}
use drishtiscope_oss.Common.Sort.Order.{ascending}
use drishtiscope_oss.Protocol.{SeriesPoint, IoPoint, NetPoint, NetFlow}

abbrev cpus : List SeriesPoint
cpus = record { t = 20; cpu_pct = 7 } ∷ record { t = 10; cpu_pct = 5 } ∷ []

abbrev ios : List IoPoint
ios = record { t = 10; r_bps = 1; w_bps = 2 } ∷ []

overlay_rows_example :
    Perm (overlay_data cpus ios []) (data_map cpus ios [])
    × IsSorted (ascending (λ (r : Row). r.t)) (overlay_data cpus ios [])
    × ((t : ℕ)
        → row_at t (data_map cpus ios [])
          ≡ column t put_net
              (last_at (λ (d : NetPoint). d.t) (λ d. d.tx_bps + d.rx_bps) t [] none)
              (column t put_io
                (last_at (λ (d : IoPoint). d.t) (λ d. d.r_bps + d.w_bps) t ios none)
                (column t put_cpu
                  (last_at (λ (d : SeriesPoint). d.t) (λ d. d.cpu_pct) t cpus none)
                  none)))
overlay_rows_example = overlay_rows cpus ios []

abbrev a_flow : NetFlow
a_flow = record {
  src = "10.0.0.1";
  dst = "10.0.0.2";
  sport = 4000;
  dport = 443;
  proto = "tcp";
  state = "SYN_SENT";
  bytes_tx = 0;
  bytes_rx = 0;
  pid = 7;
  comm = "agy";
}
