-- ===== src/Help/Laws.antt =====
-- Which help buttons lead to a guide.
use drishtiscope_oss.Common.{
  ℕ, ◌≡◌, ◌≢◌, subst, if◌then◌else◌, refl, ap, String, Option, none, some, List, ◌==◌, Bool, true,
  false,
}
use drishtiscope_oss.Docs.{lookup, metric_docs}
use drishtiscope_oss.Docs.Laws.{lookup-id}
use drishtiscope_oss.Docs.Types.{MetricDoc}
use drishtiscope_oss.Store.Types.{ScratchGraph, DataPreset, page_faults}
use drishtiscope_oss.Help.{shown_doc}
use drishtiscope_oss.Chat.Graphs
use drishtiscope_oss.Chat.Graphs.{requested_graph}

if_id :
    {A : Type 0} (b : Bool) (x : Option A) (d : A) → (if b then none else x) ≡ some d → x ≡ some d
if_id true x d h = cc
if_id false x d h = h

-- Whatever guide the modal shows, it is the one of the id that was asked for.
pub shown_doc-id : (id : String) (d : MetricDoc) → shown_doc (some id) ≡ some d → d.id ≡ id
unfolding shown_doc
shown_doc-id id d h = lookup-id id d (if_id (id == "") (lookup id metric_docs) d h)

-- The id leads to a guide, which carries that id.
pub record IsGuided (id : String) : Type 0 where
  pub doc : MetricDoc
  pub shown : shown_doc (some id) ≡ some doc
  pub own : doc.id ≡ id

pub guided : {id : String} {d : MetricDoc} → shown_doc (some id) ≡ some d → IsGuided id
guided {id} {d} h = record { doc = d; shown = h; own = shown_doc-id id d h }

-- The help of a graph leads to its guide, unless it is the graph of page faults: then to nothing.
pub record IsHelped (g : ScratchGraph) : Type 0 where
  pub others : g.data_preset ≢ page_faults → IsGuided g.help_metric_id
  pub faults : g.data_preset ≡ page_faults → shown_doc (some g.help_metric_id) ≡ none

data Helped : Option (ScratchGraph × String) → Type 0 where
  nothing : Helped none
  given : {g : ScratchGraph} {title : String} → IsHelped g → Helped (some (g, title))

helped : {g : ScratchGraph} {title : String} → Helped (some (g, title)) → IsHelped g
helped (given h) = h

abbrev is_faults : DataPreset → Bool
is_faults page_faults = true
is_faults _ = false

faults_lem : (p : DataPreset) → is_faults p ≡ false → p ≢ page_faults
faults_lem p h e = cc (ap is_faults e)

named :
    (g : ScratchGraph) {d : MetricDoc}
    → shown_doc (some g.help_metric_id) ≡ some d
    → is_faults g.data_preset ≡ false
    → IsHelped g
named g h n = record { others = λ k. guided h; faults = λ e. absurd (faults_lem g.data_preset n e) }

chosen-Helped :
    (now : ℕ) (asks mem queue net fault : Bool)
    → Helped (
        if asks
        then (if mem
            then some (Graphs.thread_mem_graph now, "Thread Concurrency vs Memory RSS Density")
            else if queue
            then some (Graphs.runqueue_graph now, "CFS Scheduler Runqueue & Thread Contention")
            else if net
            then some (Graphs.net_graph now, "Bi-Directional Network Ingress vs Egress Streaming")
            else if fault
            then some (Graphs.page_faults_graph now, "Linux Page Fault Rates (Minor vs Major)")
            else some (Graphs.quantile_graph now, "Syscall Latency Quantile Distribution"))
        else none)
unfolding Graphs.thread_mem_graph Graphs.runqueue_graph Graphs.net_graph Graphs.page_faults_graph
    Graphs.quantile_graph shown_doc lookup
chosen-Helped now false m q n f = nothing
chosen-Helped now true true q n f = given (named (Graphs.thread_mem_graph now) refl refl)
chosen-Helped now true false true n f = given (named (Graphs.runqueue_graph now) refl refl)
chosen-Helped now true false false true f = given (named (Graphs.net_graph now) refl refl)
chosen-Helped now true false false false true =
    given (record { others = λ n. absurd (n refl); faults = λ e. refl })
chosen-Helped now true false false false false = given (named (Graphs.quantile_graph now) refl refl)

requested_graph-Helped : (now : ℕ) (lower : List ℕ) → Helped (requested_graph now lower)
unfolding requested_graph
requested_graph-Helped now lower = chosen-Helped now _ _ _ _ _

-- Whatever text the user sends, the graph that the chat adds for it has a help button that leads to
-- the guide with its id, unless it is the graph of page faults: then the modal shows nothing.
pub requested-IsHelped :
    (now : ℕ) (lower : List ℕ) (g : ScratchGraph) (title : String)
    → requested_graph now lower ≡ some (g, title)
    → IsHelped g
requested-IsHelped now lower g title h = helped (subst Helped h (requested_graph-Helped now lower))
