-- ===== src/Scratchpad/Keys.antt =====
-- Every graph of the program is drawn from fields that its rows have.
use drishtiscope_oss.Chat.Graphs
use drishtiscope_oss.Chat.Graphs.{requested_graph}
use drishtiscope_oss.Common.{
  ℕ, String, Option, none, some, Bool, true, false, List, ◌≡◌, refl, subst, All, All-append, map,
  if◌then◌else◌,
}
use drishtiscope_oss.Scratchpad.{thread_mem_preset, page_faults_preset}
use drishtiscope_oss.Scratchpad.Charts.{
  Chart, line_chart, bar_chart, area_chart, chart_of, x_key, baseline_keys, read_keys, is_key,
}
use drishtiscope_oss.Scratchpad.Data.{Overrides, current_type}
use drishtiscope_oss.Store.Graphs.{initial_scratch_graphs}
use drishtiscope_oss.Store.Types.{
  Series, ScratchGraph, DataPreset, quantile_curve, runqueue_switches, net_bidi, thread_mem,
  page_faults,
}

-- All the fields that the chart of a graph reads are fields of its rows.
abbrev pub IsKeyed : Overrides → ScratchGraph → Type 0
IsKeyed o g = All (λ k. is_key g.data_preset k ≡ true) (read_keys o g)

-- The series alone.
abbrev HasKeys : ScratchGraph → Type 0
HasKeys g = All (λ k. is_key g.data_preset k ≡ true) (map (λ (s : Series). s.key) g.series)

x_key-is_key : (p : DataPreset) → is_key p (x_key p) ≡ true
x_key-is_key quantile_curve = refl
x_key-is_key runqueue_switches = refl
x_key-is_key net_bidi = refl
x_key-is_key thread_mem = refl
x_key-is_key page_faults = refl

baseline_keys-is_key :
    (c : Chart) (p : DataPreset) → All (λ k. is_key p k ≡ true) (baseline_keys c p)
baseline_keys-is_key line_chart quantile_curve = (refl, tt)
baseline_keys-is_key line_chart runqueue_switches = tt
baseline_keys-is_key line_chart net_bidi = tt
baseline_keys-is_key line_chart thread_mem = tt
baseline_keys-is_key line_chart page_faults = tt
baseline_keys-is_key bar_chart p = tt
baseline_keys-is_key area_chart p = tt

keyed : (o : Overrides) (g : ScratchGraph) → HasKeys g → IsKeyed o g
unfolding read_keys
keyed o g h = (
  x_key-is_key g.data_preset,
  All-append _ _ _ h (baseline_keys-is_key (chart_of (current_type o g)) g.data_preset),
)

either {ℓ} : {A : Type ℓ} (Q : A → Type 0) (b : Bool) (x y : A) → Q x → Q y → Q (if b then x else y)
either Q true x y h k = h
either Q false x y h k = k

-- The graph, if there is one, has the property.
data Given (P : ScratchGraph → Type 0) : Option (ScratchGraph × String) → Type 0 where
  nothing : Given P none
  given : {g : ScratchGraph} {title : String} → P g → Given P (some (g, title))

unwrap :
    {P : ScratchGraph → Type 0} {g : ScratchGraph} {title : String}
    → Given P (some (g, title))
    → P g
unwrap (given h) = h

module _ (P : ScratchGraph → Type 0) (now : ℕ) where
  -- What the five graphs of the chat have, the one that a text asks for has.
  requested-Given :
      (lower : List ℕ)
      → P (Graphs.thread_mem_graph now)
      → P (Graphs.runqueue_graph now)
      → P (Graphs.net_graph now)
      → P (Graphs.page_faults_graph now)
      → P (Graphs.quantile_graph now)
      → Given P (requested_graph now lower)
  unfolding requested_graph
  requested-Given lower a b c d e =
      either (Given P) _ _ _
        (either (Given P) _ _ _ (given a) (
          either (Given P) _ _ _ (given b)
            (either (Given P) _ _ _ (given c) (either (Given P) _ _ _ (given d) (given e)))))
        nothing

-- Whatever chart types the user chose: the charts of the graphs that are there from the start, of those
-- that the preset buttons add and of one that a text in the chat asks for read only fields that
-- their rows have.
pub graphs-IsKeyed :
    (o : Overrides) (now : ℕ) (lower : List ℕ) (g : ScratchGraph) (title : String)
    → requested_graph now lower ≡ some (g, title)
    → IsKeyed o g
      × All (IsKeyed o) initial_scratch_graphs
      × IsKeyed o (thread_mem_preset now)
      × IsKeyed o (page_faults_preset now)
unfolding thread_mem_preset page_faults_preset Graphs.thread_mem_graph Graphs.runqueue_graph
    Graphs.net_graph Graphs.page_faults_graph Graphs.quantile_graph
graphs-IsKeyed o now lower g title h = (
  unwrap (
      subst (Given (IsKeyed o)) h (
        requested-Given (IsKeyed o) now lower (keyed o _ (refl, (refl, tt)))
          (keyed o _ (refl, (refl, tt))) (keyed o _ (refl, (refl, tt)))
          (keyed o _ (refl, (refl, tt))) (keyed o _ (refl, tt)))),
  (keyed o _ (refl, tt), (keyed o _ (refl, (refl, tt)), (keyed o _ (refl, (refl, tt)), tt))),
  keyed o _ (refl, (refl, tt)),
  keyed o _ (refl, (refl, tt)),
)
