-- ===== src/Widgets.antt =====
-- The small components of frontend/src/components: StatusBar, ModeChip, KPITile, SyscallBar, FileTable,
-- FlowTable, Sparkline, Timeline and TimelineEvent. Rates are in thousandths.
pub mod Tables
pub mod Panels
pub mod Guides
pub mod Bars
pub mod Cells
pub mod Tiles
use Prim.Native.Nat.{max, min, compare}
use drishtiscope_oss.Common.{
  ℕ, zero, suc, ◌+◌, ◌-◌, ◌*◌, String, Option, none, some, Bool, true, not, ◌==◌, ◌||◌, List, [],
  ◌∷◌, ◌++◌, length, map, map_from, slice_last, ltb, nat_eq, if◌then◌else◌,
}
use drishtiscope_oss.Common.Fallback.{or_number, or_text}
use drishtiscope_oss.Common.Fixed.{round_div, digit_codes, fixed_one}
use drishtiscope_oss.Common.Int.{ℤ, pos, negsuc, difference}
use drishtiscope_oss.Common.Sort.{sort}
use drishtiscope_oss.Common.Sort.Order.{descending}
use drishtiscope_oss.Common.Text.{codes}
use drishtiscope_oss.Protocol.{
  SnapshotMeta, Mode, ebpf, real, mock, SyscallStat, FileStat, NetFlow, EventRow, Severity, info,
  warn, crit, Category, process, syscall, file, network, compute,
}

-- StatusBar
pub record StatusLine : Type 0 where
  pub schema : List ℕ
  pub uptime : List ℕ
  pub event_rate : List ℕ
  pub dropped : List ℕ
  pub help_color : String

-- `none` is the text that is shown while there is no snapshot. An uptime is never negative here.
unfoldable pub status_line : Option SnapshotMeta → Option ℕ → Option StatusLine
unfolding digit_codes fixed_one round_div
status_line none schema = none
status_line (some meta) schema = some (record {
  schema = b'v' ∷ digit_codes (or_number (schema_of schema) 1);
  uptime = digit_codes meta.uptime_s ++ (b's' ∷ []);
  event_rate = fixed_one (round_div meta.event_rate 100);
  dropped = digit_codes meta.dropped_events ++ codes " dropped";
  help_color = if ltb 0 meta.dropped_events then "rose" else "emerald";
})
  where
    schema_of : Option ℕ → ℕ
    schema_of none = 0
    schema_of (some n) = n

-- ModeChip
pub record Chip : Type 0 where
  pub text : String
  pub title : String
  pub help_color : String

-- `none` is the grey box that is shown while the mode is unknown.
unfoldable pub mode_chip : Option Mode → Option Chip
mode_chip none = none
mode_chip (some ebpf) = some (record {
  text = "EBPF LIVE";
  title = "Active Linux Kernel eBPF Probes Attached";
  help_color = "emerald";
})
mode_chip (some real) = some (record {
  text = "REAL LIVE";
  title = "Live Host Process & Kernel Telemetry (/proc + sysfs)";
  help_color = "cyan";
})
mode_chip (some mock) =
    some (record { text = "MOCK"; title = "Synthetic Demonstration Data"; help_color = "amber" })

-- The colour of the help button of KPITile.
unfoldable pub tile_help_color : Option String → String → String
tile_help_color help_color color = or_text (given help_color) (
    if color == "#3ce0cf"
    then "cyan"
    else if (color == "#ff5d73") || (color == "#EA4335")
    then "rose"
    else if (color == "#f5b942") || (color == "#FBBC04")
    then "amber"
    else "emerald")
  where
    given : Option String → String
    given none = ""
    given (some c) = c

-- `delta` of KPITile: its colour and its text, in whole percent.
unfoldable pub delta_color : ℤ → String
delta_color (pos zero) = "text-muted"
delta_color (pos (suc n)) = "text-green"
delta_color (negsuc n) = "text-rose"

unfoldable pub delta_text : ℤ → List ℕ
unfolding digit_codes
delta_text (pos zero) = codes "0%"
delta_text (pos (suc n)) = b'+' ∷ (digit_codes (suc n) ++ (b'%' ∷ []))
delta_text (negsuc n) = b'-' ∷ (digit_codes (suc n) ++ (b'%' ∷ []))

-- `Math.max(...xs, least)`
abbrev pub max_of : ℕ → List ℕ → ℕ
max_of least [] = least
max_of least (x ∷ xs) = max x (max_of least xs)

abbrev pub min_of : ℕ → List ℕ → ℕ
min_of x [] = x
min_of x (y ∷ ys) = min x (min_of y ys)

-- A quotient that is not rounded; a denominator of 0 makes it NaN.
pub record Fraction : Type 0 where
  pub num : ℕ
  pub den : ℕ

-- The widths of the bars of SyscallBar and of FileTable, in percent.
unfoldable pub syscall_widths : List SyscallStat → List Fraction
syscall_widths syscalls =
    let most = max_of 1_000 (map (λ (s : SyscallStat). s.count_s) syscalls) in
    map (λ (sc : SyscallStat). record { num = sc.count_s * 100; den = most }) syscalls

unfoldable pub file_widths : List FileStat → List Fraction
file_widths files =
    let max_ops = max_of 1_000 (map (λ (f : FileStat). f.ops_s) files) in
    map (λ (f : FileStat). record { num = f.ops_s * 100; den = max_ops }) files

-- FlowTable: the flows in the order in which they are drawn.
unfoldable pub sorted_flows : List NetFlow → List NetFlow
unfolding sort
sorted_flows flows = sort (descending (λ (f : NetFlow). f.bytes_tx + f.bytes_rx)) flows

abbrev pub flow_color : String → String
flow_color state =
    if state == "ESTABLISHED" then "green" else if state == "SYN_SENT" then "amber" else "muted"

-- One that may be below 0.
pub record SignedFraction : Type 0 where
  pub num : ℤ
  pub den : ℕ

-- A point of a Sparkline of the given width and height.
pub record Point : Type 0 where
  pub x : Fraction
  pub y : SignedFraction

-- y is height - (d - low) / range * height, over the common denominator.
unfoldable pub spark_point : ℕ → ℕ → ℕ → ℕ → ℕ → ℕ → ℕ → Point
spark_point width height count low range d i = record {
  x = record { num = i * width; den = count - 1 };
  y = record { num = difference (height * range + low * height) (d * height); den = range };
}

-- Sparkline: `none` draws nothing.
unfoldable pub sparkline : ℕ → ℕ → List ℕ → Option (List Point)
unfolding spark_point
sparkline width height [] = none
sparkline width height (d ∷ ds) =
    let low = min_of d ds in
    let high = max_of d ds in
    some (
      map_from (spark_point width height (suc (length ds)) low (or_number (high - low) 1)) 0
        (d ∷ ds))

-- Timeline
unfoldable pub visible_events : List EventRow → List EventRow
visible_events events = slice_last 100 events

-- `handleScroll`: whether the list follows its end, from then on.
unfoldable pub handle_scroll : ℕ → ℕ → ℕ → Bool
handle_scroll scroll_top scroll_height client_height =
    ltb scroll_height (50 + scroll_top + client_height)

-- The position of the list after new events: its end where it follows.
unfoldable pub scrolled : Bool → ℕ → ℕ → ℕ
scrolled auto_scroll scroll_top scroll_height = if auto_scroll then scroll_height else scroll_top

-- TimelineEvent
abbrev pub severity_color : Severity → String
severity_color info = "bg-cyan"
severity_color warn = "bg-amber"
severity_color crit = "bg-rose crit-pulse"

abbrev pub badge_color : Category → String
badge_color process = "cyan"
badge_color syscall = "amber"
badge_color file = "green"
badge_color network = "cyan"
badge_color compute = "muted"

-- Badge: the classes of a colour.
unfoldable pub badge_classes : String → Option String
badge_classes color =
    if color == "cyan"
    then some "bg-cyan/10 text-cyan border-cyan/20"
    else if color == "green"
    then some "bg-green/10 text-green border-green/20"
    else if color == "amber"
    then some "bg-amber/10 text-amber border-amber/20"
    else if color == "rose"
    then some "bg-rose/10 text-rose border-rose/20"
    else if color == "muted"
    then some "bg-border text-muted border-border"
    else none
