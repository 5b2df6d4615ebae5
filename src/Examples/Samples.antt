-- ===== src/Examples/Samples.antt =====
-- Sample messages and rows.
use drishtiscope_oss.Common.{ℕ, ◌+◌, String, Option, none, some, [], ◌∷◌}
use drishtiscope_oss.Protocol.{
  WsMessage, Snapshot, EventRow, info, process, mock, snapshot, heartbeat,
}
use drishtiscope_oss.App.{Readings}
use drishtiscope_oss.Browser.{Browser}

-- setSnapshot takes its reading a millisecond after the handler.
abbrev pub read_at : ℕ → Readings
read_at now = record { arrived = now; stored = now + 1 }

abbrev pub an_event : String → EventRow
an_event id = record {
  id = id;
  ts = "2026-01-01T00:00:00Z";
  severity = info;
  category = process;
  pid = 7;
  comm = "agy";
  title = "exec";
  detail = "";
  attrs = [];
}

abbrev pub a_snapshot : ℕ → Snapshot
a_snapshot uptime = record {
  meta = record {
    dropped_events = 0;
    event_rate = 1000;
    uptime_s = uptime;
    target = record { pid = 7; comm = "agy" };
  };
  processes = [];
  kpis = record {
    cpu_pct = 1200;
    threads = 4;
    rss_bytes = 4096;
    open_fds = 3;
    net_bps_tx = 0;
    net_bps_rx = 0;
    disk_bps_r = 0;
    disk_bps_w = 0;
    syscalls_per_sec = 0;
    err_syscalls_per_sec = 0;
    connects_per_sec = 0;
  };
  sre = none;
  syscalls_top = [];
  files_top = [];
  flows = [];
  cpu_series = [];
  io_series = [];
  net_series = [];
  timeline = some [];
}

abbrev pub snapshot_message : ℕ → WsMessage
snapshot_message uptime = record {
  v = 1;
  kind = snapshot;
  ts = "";
  mode = some mock;
  payload = a_snapshot uptime;
}

abbrev pub beat : WsMessage
beat = record { v = 1; kind = heartbeat; ts = ""; mode = none; payload = record { uptime_s = 3 } }

-- A decoder that knows one text.
abbrev pub parse_beat : String → Option WsMessage
parse_beat String.[] = none
parse_beat (String.◌∷◌ c s) = some beat

abbrev pub empty_browser : Browser
empty_browser = record { class_list = "app" ∷ []; local_storage = [] }

abbrev pub saved_browser : Browser
saved_browser = record {
  class_list = "app" ∷ "light" ∷ [];
  local_storage = ("drishti_theme", "purple") ∷ ("drishti_refresh", "500") ∷ [];
}
