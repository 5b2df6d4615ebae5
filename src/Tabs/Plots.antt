-- ===== src/Tabs/Plots.antt =====
-- The charts of the tabs: which fields of the rows they read, under which names, in which colours and
-- on which axis. BasicTab, AdvancedTab and CompletePictureTab are in frontend/src/components/tabs,
-- OverlayChart in frontend/src/components. Grids, margins and tooltips are left out.
pub mod Keys
use drishtiscope_oss.Common.{
  ℕ, ◌*◌, String, Bool, true, Option, none, some, List, [], ◌∷◌, ◌++◌, ◌==◌, any, map, ltb,
  if◌then◌else◌,
}
use drishtiscope_oss.Common.Fixed.{digit_codes, fixed_one, round_div}
use drishtiscope_oss.Common.Text.{codes}
use drishtiscope_oss.Protocol.{Snapshot}
use drishtiscope_oss.Tabs.{Clock, hours_text}
use drishtiscope_oss.Tabs.CompletePicture.{target_comm}

pub data Mark : Type 0 where
  bars lines areas slices spokes : Mark

pub data Side : Type 0 where
  left right only : Side

-- One `Bar`, `Line`, `Area`, `Pie` or `Radar`; the last two give a colour of their own to each row where
-- `color` is none, and a series without a name is named after its field.
pub record Plotted : Type 0 where
  pub mark : Mark
  pub key : String
  pub name : Option String
  pub color : Option String
  pub side : Side

pub record Plot : Type 0 where
  pub rows : List String
  pub axis : Option String
  pub series : List Plotted
  pub stacked : Bool

pub data Place : Type 0 where
  vitals calls memory disk switches sockets profile denials overlay : Place

abbrev pub bar : String → String → String → Side → Plotted
bar key name color side = record {
  mark = bars;
  key = key;
  name = some name;
  color = some color;
  side = side;
}

abbrev pub line : String → String → String → Side → Plotted
line key name color side = record {
  mark = lines;
  key = key;
  name = some name;
  color = some color;
  side = side;
}

abbrev pub area : String → Option String → String → Side → Plotted
area key name color side = record {
  mark = areas;
  key = key;
  name = name;
  color = some color;
  side = side;
}

abbrev pub spoke : String → String → String → Plotted
spoke key name color = record {
  mark = spokes;
  key = key;
  name = some name;
  color = some color;
  side = only;
}

abbrev pub pie : Plotted
pie = record { mark = slices; key = "value"; name = none; color = none; side = only }

abbrev pub vitals_plot : Plot
vitals_plot = record {
  rows = "time" ∷ "cpu" ∷ "trafficSyscall" ∷ "p99LatencyUs" ∷ "ioKb" ∷ "netKb" ∷ [];
  axis = some "time";
  series =
      area "trafficSyscall" (some "Syscall Traffic (RPS)") "#4285F4" left
      ∷ line "p99LatencyUs" "Kernel P99 Latency (µs)" "#FBBC04" right
      ∷ [];
  stacked = Bool.false;
}

abbrev pub pie_plot : Plot
pie_plot = record {
  rows = "name" ∷ "value" ∷ "color" ∷ [];
  axis = none;
  series = pie ∷ [];
  stacked = Bool.false;
}

abbrev pub disk_plot : Plot
disk_plot = record {
  rows = "time" ∷ "readKb" ∷ "writeKb" ∷ "iops" ∷ [];
  axis = some "time";
  series =
      bar "readKb" "Read KB/s" "#3dd68c" left
      ∷ bar "writeKb" "Write KB/s" "#3ce0cf" left
      ∷ line "iops" "Est. IOPS" "#f5b942" right
      ∷ [];
  stacked = Bool.false;
}

abbrev pub switches_plot : Plot
switches_plot = record {
  rows = "time" ∷ "threads" ∷ "ctxSwitchesPerSec" ∷ [];
  axis = some "time";
  series =
      line "ctxSwitchesPerSec" "Ctx Switches/s" "#a855f7" only
      ∷ line "threads" "Active Threads" "#3ce0cf" only
      ∷ [];
  stacked = Bool.false;
}

abbrev pub state_bar : String → String → Plotted
state_bar key color = record {
  mark = bars;
  key = key;
  name = none;
  color = some color;
  side = only;
}

abbrev pub sockets_plot : Plot
sockets_plot = record {
  rows = "name" ∷ "Established" ∷ "Time Wait" ∷ "Close Wait" ∷ "Listen" ∷ [];
  axis = some "name";
  series =
      state_bar "Established" "#3dd68c"
      ∷ state_bar "Time Wait" "#8b95a8"
      ∷ state_bar "Close Wait" "#f5b942"
      ∷ state_bar "Listen" "#3ce0cf"
      ∷ [];
  stacked = true;
}

unfoldable pub profile_plot : Option Snapshot → Plot
unfolding target_comm
profile_plot s = record {
  rows = "subject" ∷ "Agent" ∷ "Baseline" ∷ "fullMark" ∷ [];
  axis = some "subject";
  series =
      spoke "Agent" (target_comm s) "#3ce0cf" ∷ spoke "Baseline" "Baseline Daemon" "#8b95a8" ∷ [];
  stacked = Bool.false;
}

abbrev pub denials_plot : Plot
denials_plot = record {
  rows = "time" ∷ "EACCES" ∷ "FailedConnect" ∷ "SensitiveProc" ∷ [];
  axis = some "time";
  series =
      bar "EACCES" "EACCES (Permission Denied)" "#ff5d73" only
      ∷ bar "FailedConnect" "Connection Refused" "#f5b942" only
      ∷ bar "SensitiveProc" "Sensitive Probe (kallsyms)" "#a855f7" only
      ∷ [];
  stacked = Bool.false;
}

abbrev pub overlay_plot : Plot
overlay_plot = record {
  rows = "t" ∷ "cpu" ∷ "io" ∷ "net" ∷ [];
  axis = some "t";
  series =
      area "cpu" none "#3ce0cf" left
      ∷ area "io" none "#3dd68c" right
      ∷ area "net" none "#f5b942" right
      ∷ [];
  stacked = Bool.false;
}

abbrev pub plot_at : Place → Option Snapshot → Plot
unfolding profile_plot
plot_at vitals s = vitals_plot
plot_at calls s = pie_plot
plot_at memory s = pie_plot
plot_at disk s = disk_plot
plot_at switches s = switches_plot
plot_at sockets s = sockets_plot
plot_at profile s = profile_plot s
plot_at denials s = denials_plot
plot_at overlay s = overlay_plot

-- The labels of the overlay chart's axes: the time, a percentage, and a rate in bits per second, of which
-- `v` is the number of thousandths.
unfoldable pub format_time : (ℕ → Clock) → ℕ → List ℕ
format_time clock ts = hours_text (clock ts)

abbrev pub percent_label : ℕ → List ℕ
percent_label v = digit_codes v ++ codes "%"

unfoldable pub rate_label : ℕ → List ℕ
unfolding digit_codes fixed_one round_div
rate_label v =
    if ltb 1_000_000_000 v
    then fixed_one (round_div v 100_000_000) ++ codes "M"
    else digit_codes (round_div v 1_000_000) ++ codes "K"
