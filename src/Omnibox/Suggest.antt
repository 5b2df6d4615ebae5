-- ===== src/Omnibox/Suggest.antt =====
-- The suggestions of the search box of frontend/src/components/Header.tsx.
use Prim.Native.Nat.{compare, Ordering}
use drishtiscope_oss.Common.{
  ℕ, ◌+◌, String, Option, none, some, Bool, true, ◌||◌, List, [], ◌∷◌, map, filter,
}
use drishtiscope_oss.Common.Decimal.{digits}
use drishtiscope_oss.Common.Sort.{sort}
use drishtiscope_oss.Common.Sort.Order.{then}
use drishtiscope_oss.Common.Text.{codes, to_lower, includes, trim}
use drishtiscope_oss.Processes.{agent_label, first_if}
use drishtiscope_oss.Protocol.{ProcessRow}

-- `String(pid)`
abbrev pub pid_str : ℕ → List ℕ
unfolding digits
pid_str pid = map (λ d. d + b'0') (digits pid)

-- The rows that are suggested while no process is tracked.
abbrev pub agy_row : ProcessRow
agy_row = record {
  pid = 143399;
  tgid = 143399;
  ppid = 1;
  comm = "agy";
  cmdline = "agy --conversation=active";
  exe = "/usr/local/bin/agy";
  uid = 1000;
  cpu_pct = 1200;
  rss_bytes = 604471296;
  vms_bytes = 2417885184;
  state = "S";
  threads = 17;
  open_fds = 72;
  ctx_switches = 12400;
  start_time = "12:00:00";
}

abbrev pub python_row : ProcessRow
python_row = record {
  pid = 1042;
  tgid = 1042;
  ppid = 1;
  comm = "python3";
  cmdline = "python3 -m agentscope.runtime";
  exe = "/usr/bin/python3";
  uid = 1000;
  cpu_pct = 800;
  rss_bytes = 314572800;
  vms_bytes = 1258291200;
  state = "S";
  threads = 8;
  open_fds = 45;
  ctx_switches = 8420;
  start_time = "12:05:00";
}

abbrev pub node_row : ProcessRow
node_row = record {
  pid = 2190;
  tgid = 2190;
  ppid = 1;
  comm = "node";
  cmdline = "node server.js";
  exe = "/usr/local/bin/node";
  uid = 1000;
  cpu_pct = 500;
  rss_bytes = 157286400;
  vms_bytes = 629145600;
  state = "S";
  threads = 11;
  open_fds = 28;
  ctx_switches = 5120;
  start_time = "12:10:00";
}

abbrev pub display_processes : List ProcessRow → List ProcessRow
display_processes [] = agy_row ∷ python_row ∷ node_row ∷ []
display_processes (p ∷ ps) = p ∷ ps

unfoldable pub matches : List ℕ → ProcessRow → Bool
unfolding agent_label to_lower includes digits
matches [] p = true
matches (c ∷ cs) p =
    includes (to_lower (codes (agent_label p.comm p.cmdline))) (c ∷ cs)
    || includes (pid_str p.pid) (c ∷ cs)
    || includes (to_lower (codes p.comm)) (c ∷ cs)
    || includes (to_lower (codes p.cmdline)) (c ∷ cs)

-- `currentTargetClean`
abbrev pub target_clean : Option String → List ℕ
unfolding to_lower
target_clean none = []
target_clean (some label) = to_lower (codes label)

unfoldable pub is_target : List ℕ → ProcessRow → Bool
unfolding includes to_lower digits
is_target clean p = includes clean (pid_str p.pid) || includes clean (to_lower (codes p.comm))

unfoldable pub compare_suggestions : List ℕ → ProcessRow → ProcessRow → Ordering
unfolding is_target
compare_suggestions clean a b =
    (then) (first_if (is_target clean a) (is_target clean b))
      ((then) (compare b.cpu_pct a.cpu_pct) (compare b.rss_bytes a.rss_bytes))

unfoldable pub filtered_processes : List ℕ → Option String → List ProcessRow → List ProcessRow
unfolding matches compare_suggestions to_lower trim sort
filtered_processes search_query target_label processes =
    sort (compare_suggestions (target_clean target_label))
      (filter (matches (to_lower (trim search_query))) (display_processes processes))
