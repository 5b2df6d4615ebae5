-- ===== src/Charts.antt =====
-- What the charts are drawn from: the rows of frontend/src/components/OverlayChart.tsx, and the
-- counts of frontend/src/components/tabs/AdvancedTab.tsx by the category of a system call and by the
-- state of a socket.
pub mod Overlay
pub mod Counts
use drishtiscope_oss.Common.{
  ℕ, suc, ◌+◌, String, Option, none, some, Bool, true, false, ◌||◌, List, [], ◌∷◌, map, nat_eq,
  if◌then◌else◌,
}
use drishtiscope_oss.Common.Sort.{sort}
use drishtiscope_oss.Common.Sort.Order.{ascending}
use drishtiscope_oss.Common.Text.{codes, to_lower, to_upper, includes}
use drishtiscope_oss.Protocol.{SeriesPoint, IoPoint, NetPoint, SyscallStat, NetFlow}

-- A row of the chart; a column that no series filled is missing.
pub record Row : Type 0 where
  pub t : ℕ
  pub cpu : Option ℕ
  pub io : Option ℕ
  pub net : Option ℕ

abbrev pub blank : ℕ → Row
blank t = record { t = t; cpu = none; io = none; net = none }

abbrev pub put_cpu : ℕ → Row → Row
put_cpu v r = record r { cpu = some v }

abbrev pub put_io : ℕ → Row → Row
put_io v r = record r { io = some v }

abbrev pub put_net : ℕ → Row → Row
put_net v r = record r { net = some v }

-- `dataMap.set(t, { ...existing, ...columns })`: a key that is there keeps its place.
unfoldable pub upsert : ℕ → (Row → Row) → List Row → List Row
upsert t put [] = put (blank t) ∷ []
upsert t put (r ∷ rows) = if nat_eq r.t t then put r ∷ rows else r ∷ upsert t put rows

-- `merge(series, mapFn)`
unfoldable pub merge {ℓ} : {A : Type ℓ} → (A → ℕ) → (A → Row → Row) → List A → List Row → List Row
unfolding upsert
merge time put [] rows = rows
merge time put (d ∷ series) rows = merge time put series (upsert (time d) (put d) rows)

abbrev pub cpu_columns : SeriesPoint → Row → Row
cpu_columns d = put_cpu d.cpu_pct

abbrev pub io_columns : IoPoint → Row → Row
io_columns d = put_io (d.r_bps + d.w_bps)

abbrev pub net_columns : NetPoint → Row → Row
net_columns d = put_net (d.tx_bps + d.rx_bps)

unfoldable pub data_map : List SeriesPoint → List IoPoint → List NetPoint → List Row
unfolding merge
data_map cpu_series io_series net_series =
    merge (λ d. d.t) net_columns net_series
      (merge (λ d. d.t) io_columns io_series (merge (λ d. d.t) cpu_columns cpu_series []))

unfoldable pub overlay_data : List SeriesPoint → List IoPoint → List NetPoint → List Row
unfolding data_map sort
overlay_data cpu_series io_series net_series =
    sort (ascending (λ r. r.t)) (data_map cpu_series io_series net_series)

abbrev pub has_one : List String → List ℕ → Bool
has_one [] text = false
has_one (word ∷ words) text = includes text (codes word) || has_one words text

pub record SyscallCounts : Type 0 where
  pub io : ℕ
  pub sync : ℕ
  pub net : ℕ
  pub proc : ℕ
  pub mem : ℕ

-- One step of the loop over `syscalls_top`.
unfoldable pub count_syscall : SyscallCounts → SyscallStat → SyscallCounts
unfolding includes to_lower
count_syscall c s =
    let name = to_lower (codes s.name) in
    if has_one ("read" ∷ "write" ∷ "open" ∷ "close" ∷ []) name
    then record c { io = c.io + s.count_s }
    else if has_one ("futex" ∷ "wait" ∷ "sleep" ∷ "poll" ∷ []) name
    then record c { sync = c.sync + s.count_s }
    else if has_one ("send" ∷ "recv" ∷ "connect" ∷ "accept" ∷ "sock" ∷ []) name
    then record c { net = c.net + s.count_s }
    else if has_one ("mmap" ∷ "brk" ∷ "madvise" ∷ []) name
    then record c { mem = c.mem + s.count_s }
    else record c { proc = c.proc + s.count_s }

-- The loop over `syscalls_top`.
unfoldable pub count_syscalls : SyscallCounts → List SyscallStat → SyscallCounts
unfolding count_syscall
count_syscalls c [] = c
count_syscalls c (s ∷ stats) = count_syscalls (count_syscall c s) stats

pub record TcpCounts : Type 0 where
  pub established : ℕ
  pub close_wait : ℕ
  pub time_wait : ℕ
  pub listen : ℕ

unfoldable pub count_flow : TcpCounts → NetFlow → TcpCounts
unfolding includes to_upper
count_flow c f =
    let st = to_upper (codes f.state) in
    if includes st (codes "ESTABLISH")
    then record c { established = suc c.established }
    else if includes st (codes "CLOSE")
    then record c { close_wait = suc c.close_wait }
    else if includes st (codes "TIME")
    then record c { time_wait = suc c.time_wait }
    else if includes st (codes "LISTEN")
    then record c { listen = suc c.listen }
    else record c { established = suc c.established }

unfoldable pub count_flows : TcpCounts → List NetFlow → TcpCounts
unfolding count_flow
count_flows c [] = c
count_flows c (f ∷ flows) = count_flows (count_flow c f) flows

abbrev pub no_flows : TcpCounts
no_flows = record { established = 0; close_wait = 0; time_wait = 0; listen = 0 }

-- The figures that are drawn when there is nothing to count.
abbrev pub or_sample : TcpCounts → TcpCounts
or_sample c =
    if nat_eq (c.established + c.close_wait + c.time_wait + c.listen) 0
    then record { established = 4; close_wait = c.close_wait; time_wait = 1; listen = 2 }
    else c

unfoldable pub tcp_state_data : List NetFlow → TcpCounts
unfolding count_flows
tcp_state_data flows = or_sample (count_flows no_flows flows)
