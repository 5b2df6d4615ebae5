-- ===== src/Docs/Laws.antt =====
-- The encyclopedia of frontend/src/data/metricDocs.ts is consistent: an entry's id is its key.
use drishtiscope_oss.Common.{
  ◌≡◌, refl, String, Bool, true, some, List, [], ◌∷◌, ◌==◌, all, arith, eq_iff,
}
use drishtiscope_oss.Docs.{lookup, metric_docs}
use drishtiscope_oss.Docs.Types.{MetricDoc}

keys_match : List (String × MetricDoc) → Bool
keys_match docs = all (λ e. e.1.id == e.0) docs

lookup-id_of :
    (k : String) (d : MetricDoc) (docs : List (String × MetricDoc))
    → keys_match docs ≡ true
    → lookup k docs ≡ some d
    → d.id ≡ k
unfolding lookup keys_match
lookup-id_of k d [] h p = cc
lookup-id_of k d ((j, c) ∷ docs) h p =
    ground (arith, eq_iff j k, eq_iff c.id j, lookup-id_of k d docs)

-- Whatever is found under a key carries the key as its id.
pub lookup-id : (k : String) (d : MetricDoc) → lookup k metric_docs ≡ some d → d.id ≡ k
unfolding keys_match
lookup-id k d = lookup-id_of k d metric_docs refl
