-- ===== src/Processes/Order.antt =====
-- The order of the process table.
use Prim.Native.Nat.{Ordering}
use mathlib.Core.HLevel.{hedberg}
use mathlib.Core.List.{Perm}
use drishtiscope_oss.Common.{
  String, Option, Bool, true, false, not, ◌≡◌, ◌≢◌, ◌↔◌, ◌==◌, eq_iff, refl, List, [], ◌∷◌, ◌++◌,
  All, filter, arith,
}
use drishtiscope_oss.Common.Sort.Laws.{IsSorted, sort-IsSorted, sort-perm}
use drishtiscope_oss.Common.Sort.Order.{
  IsOrder, ascending-IsOrder, descending-IsOrder, then-IsOrder,
}
use drishtiscope_oss.Common.Sort.Unique.{EachPair, sort-eq_of_perm}
use drishtiscope_oss.Processes.{first_if, compare_rows, sorted_rows, sorts_as_target}
use drishtiscope_oss.Protocol.{ProcessRow}

pub first_if-IsOrder {ℓ} : {A : Type ℓ} (f : A → Bool) → IsOrder (λ x y. first_if (f x) (f y))
first_if-IsOrder f = record { swap = λ x y. ground arith; trans = λ x y z p q. ground arith }

pub compare_rows-IsOrder :
    (anti_flicker : Bool) (target : Option String) → IsOrder (compare_rows anti_flicker target)
unfolding compare_rows
compare_rows-IsOrder true target =
    then-IsOrder (first_if-IsOrder (sorts_as_target target)) (ascending-IsOrder (λ p. p.pid))
compare_rows-IsOrder false target = descending-IsOrder (λ p. p.cpu_pct)

-- The table shows the processes that it was given, no row before one that the comparator puts first.
pub sorted_rows-IsSorted :
    (anti_flicker : Bool) (target : Option String) (ps : List ProcessRow)
    → Perm (sorted_rows anti_flicker target ps) ps
      × IsSorted (compare_rows anti_flicker target) (sorted_rows anti_flicker target ps)
unfolding sorted_rows
sorted_rows-IsSorted anti_flicker target ps = (
  sort-perm (compare_rows anti_flicker target) ps,
  sort-IsSorted (compare_rows-IsOrder anti_flicker target) ps,
)

String-discrete : Discrete String
String-discrete s t = go (s == t) (eq_iff s t)
  where
    go : (b : Bool) → (b ≡ true) ↔ (s ≡ t) → Dec (s ≡ t)
    go true h = yes (h.0 refl)
    go false h = no (λ p. cc (h.1 p))

String-set : IsSet String
String-set = hedberg String-discrete

ProcessRow-set : IsSet ProcessRow
ProcessRow-set = hlevel (String-set)

abbrev pub DistinctPids : List ProcessRow → Type 0
DistinctPids ps = EachPair (λ p q. p.pid ≢ q.pid) ps

apart :
    (target : Option String) (p q : ProcessRow)
    → p.pid ≢ q.pid
    → compare_rows true target p q ≢ Ordering.eq
unfolding compare_rows
apart target p q h = ground arith

All-apart :
    (target : Option String) (p : ProcessRow) (ps : List ProcessRow)
    → All (λ q. p.pid ≢ q.pid) ps
    → All (λ q. compare_rows true target p q ≢ Ordering.eq) ps
All-apart target p [] h = tt
All-apart target p (q ∷ ps) (h, hs) = (apart target p q h, All-apart target p ps hs)

EachPair-apart :
    (target : Option String) (ps : List ProcessRow)
    → DistinctPids ps
    → EachPair (λ p q. compare_rows true target p q ≢ Ordering.eq) ps
EachPair-apart target [] h = tt
EachPair-apart target (p ∷ ps) (h, hs) = (All-apart target p ps h, EachPair-apart target ps hs)

-- With the anti-flicker switch on, processes of distinct ids are shown in an order that does not
-- depend on the order in which the snapshot lists them.
pub steady_rows :
    (target : Option String) (ps qs : List ProcessRow)
    → Perm ps qs
    → DistinctPids ps
    → sorted_rows true target ps ≡ sorted_rows true target qs
unfolding sorted_rows
steady_rows target ps qs h d =
    sort-eq_of_perm (compare_rows-IsOrder true target) ProcessRow-set h (EachPair-apart target ps d)

none_targets :
    (target : Option String) (p : ProcessRow) (ps : List ProcessRow)
    → sorts_as_target target p ≡ false
    → All (λ q. compare_rows true target p q ≢ Ordering.gt) ps
    → (filter (sorts_as_target target) ps ≡ [])
      × (filter (λ q. not (sorts_as_target target q)) ps ≡ ps)
unfolding compare_rows
none_targets target p [] h a = (refl, refl)
none_targets target p (q ∷ ps) h (a, as') = ground (arith, none_targets target p ps h as')

targets_lead :
    (target : Option String) (ps : List ProcessRow)
    → IsSorted (compare_rows true target) ps
    → ps ≡ filter (sorts_as_target target) ps ++ filter (λ p. not (sorts_as_target target p)) ps
targets_lead target [] h = refl
targets_lead target (p ∷ ps) (h, hs) =
    ground (arith, none_targets target p ps, targets_lead target ps hs)

-- With the anti-flicker switch on, the rows that the comparator takes for the target come first.
pub targets_first :
    (target : Option String) (ps : List ProcessRow)
    → let rows = sorted_rows true target ps in
      rows
      ≡ filter (sorts_as_target target) rows ++ filter (λ p. not (sorts_as_target target p)) rows
targets_first target ps = targets_lead target _ (sorted_rows-IsSorted true target ps).1
