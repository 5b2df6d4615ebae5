-- ===== src/Store/Scratch.antt =====
-- The scratch graphs: ids stay distinct, a graph that is added replaces the one with its id, and a
-- removed id is gone.
use drishtiscope_oss.Common.{
  ◌≡◌, refl, String, Bool, Option, none, some, List, [], ◌∷◌, ◌++◌, ◌≢◌, ◌==◌, arith, eq_iff,
  filter, find, All, All-append, if◌then◌else◌,
}
use drishtiscope_oss.Common.Sort.Unique.{EachPair}
use drishtiscope_oss.Browser.{Browser}
use drishtiscope_oss.Store
use drishtiscope_oss.Store.{create, without_id}
use drishtiscope_oss.Store.Types.{ScopeStore, ScratchGraph}
use drishtiscope_oss.Store.Graphs.{initial_scratch_graphs}
use drishtiscope_oss.Store.Actions.{Action, Page, step, run}

abbrev pub HasDistinctIds : List ScratchGraph → Type 0
HasDistinctIds = EachPair (λ g h. g.id ≢ h.id)

-- The graph with an id, as the dashboard's list is searched by its keys.
abbrev pub graph_of : String → List ScratchGraph → Option ScratchGraph
graph_of id = find (λ g. g.id == id)

All-filter {ℓ κ} :
    {A : Type ℓ} (P : A → Type κ) (p : A → Bool) (xs : List A) → All P xs → All P (filter p xs)
All-filter P p [] h = h
All-filter P p (x ∷ xs) (h, hs) = ground (arith, All-filter P p xs hs)

EachPair-filter {ℓ κ} :
    {A : Type ℓ} (R : A → A → Type κ) (p : A → Bool) (xs : List A)
    → EachPair R xs
    → EachPair R (filter p xs)
EachPair-filter R p [] h = h
EachPair-filter R p (x ∷ xs) (h, hs) =
    ground (arith, All-filter (R x) p xs h, EachPair-filter R p xs hs)

without_id-All : (id : String) (gs : List ScratchGraph) → All (λ g. g.id ≢ id) (without_id id gs)
without_id-All id [] = tt
without_id-All id (g ∷ gs) = ground (arith, without_id-All id gs, eq_iff g.id id)

EachPair-concat :
    (gs : List ScratchGraph) (g : ScratchGraph)
    → HasDistinctIds gs
    → All (λ h. h.id ≢ g.id) gs
    → HasDistinctIds (gs ++ g ∷ [])
EachPair-concat [] g h k = (tt, tt)
EachPair-concat (x ∷ gs) g (h, hs) (k, ks) =
    (All-append (λ y. x.id ≢ y.id) gs (g ∷ []) h (k, tt), EachPair-concat gs g hs ks)

initial_ids : HasDistinctIds initial_scratch_graphs
initial_ids = ground (
  arith,
  eq_iff "sg-quantile" "sg-runqueue",
  eq_iff "sg-quantile" "sg-net-bidi",
  eq_iff "sg-runqueue" "sg-net-bidi",
)

step-HasDistinctIds :
    (a : Action) (p : Page)
    → HasDistinctIds p.0.scratch_graphs
    → HasDistinctIds (step a p).0.scratch_graphs
unfolding step Store.set_snapshot Store.add_event Store.set_refresh_rate Store.toggle_anti_flicker
    Store.set_theme Store.toggle_theme Store.add_scratch_graph Store.remove_scratch_graph
    Store.reset_scratch_graphs
step-HasDistinctIds (Action.add_scratch_graph g) (st, b) h =
    EachPair-concat (without_id g.id st.scratch_graphs) g (EachPair-filter _ _ st.scratch_graphs h)
      (without_id-All g.id st.scratch_graphs)
step-HasDistinctIds (Action.remove_scratch_graph id) (st, b) h =
    EachPair-filter _ _ st.scratch_graphs h
step-HasDistinctIds Action.reset_scratch_graphs (st, b) h = initial_ids
step-HasDistinctIds (Action.set_snapshot now s) (st, b) h = ground arith
step-HasDistinctIds (Action.add_event e) (st, b) h = ground arith
step-HasDistinctIds _ (st, b) h = h

run-HasDistinctIds :
    (acts : List Action) (p : Page)
    → HasDistinctIds p.0.scratch_graphs
    → HasDistinctIds (run acts p).0.scratch_graphs
unfolding run
run-HasDistinctIds [] p h = h
run-HasDistinctIds (a ∷ acts) p h = run-HasDistinctIds acts (step a p) (step-HasDistinctIds a p h)

-- After any actions no two scratch graphs have the same id.
pub scratch_ids_distinct :
    (acts : List Action) (b : Browser) → HasDistinctIds (run acts (create b)).0.scratch_graphs
unfolding create
scratch_ids_distinct acts b = run-HasDistinctIds acts (create b) initial_ids

graph_of-without_id :
    (id k : String) (gs : List ScratchGraph)
    → graph_of k (without_id id gs) ≡ (if id == k then none else graph_of k gs)
graph_of-without_id id k [] = ground arith
graph_of-without_id id k (g ∷ gs) =
    ground (arith, graph_of-without_id id k gs, eq_iff g.id id, eq_iff g.id k, eq_iff id k)

graph_of-concat :
    (k : String) (gs : List ScratchGraph) (g : ScratchGraph)
    → graph_of k gs ≡ none
    → graph_of k (gs ++ g ∷ []) ≡ (if g.id == k then some g else none)
graph_of-concat k [] g h = refl
graph_of-concat k (x ∷ gs) g h = ground (arith, graph_of-concat k gs g)

graph_of-concat_ne :
    (k : String) (gs : List ScratchGraph) (g : ScratchGraph)
    → g.id ≢ k
    → graph_of k (gs ++ g ∷ []) ≡ graph_of k gs
graph_of-concat_ne k [] g h = ground (arith, eq_iff g.id k)
graph_of-concat_ne k (x ∷ gs) g h = ground (arith, graph_of-concat_ne k gs g h)

-- Looking up a graph after `addScratchGraph` finds the added graph under its id and what was there
-- before under any other; after `removeScratchGraph` it finds nothing under the removed id and what
-- was there before under any other.
pub scratch_lookup :
    (k : String) (s : ScopeStore)
    → ((g : ScratchGraph)
        → graph_of k (Store.add_scratch_graph g s).scratch_graphs
          ≡ (if g.id == k then some g else graph_of k s.scratch_graphs))
      × ((id : String)
          → graph_of k (Store.remove_scratch_graph id s).scratch_graphs
            ≡ (if id == k then none else graph_of k s.scratch_graphs))
unfolding Store.add_scratch_graph Store.remove_scratch_graph
scratch_lookup k s = (
  λ g. ground (
    arith,
    graph_of-without_id g.id k s.scratch_graphs,
    eq_iff g.id k,
    graph_of-concat k (without_id g.id s.scratch_graphs) g,
    graph_of-concat_ne k (without_id g.id s.scratch_graphs) g,
  ),
  λ id. graph_of-without_id id k s.scratch_graphs,
)
