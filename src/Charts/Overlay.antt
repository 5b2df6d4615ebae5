-- ===== src/Charts/Overlay.antt =====
-- The rows of the overlay chart.
use mathlib.Core.List.{Perm}
use drishtiscope_oss.Common.{
  ℕ, ◌+◌, ◌≡◌, refl, sym, ap, ◌∙◌, Bool, true, false, Option, none, some, List, [], ◌∷◌, nat_eq,
  arith, if◌then◌else◌,
}
use drishtiscope_oss.Charts.{
  Row, blank, put_cpu, put_io, put_net, upsert, merge, data_map, overlay_data,
}
use drishtiscope_oss.Common.Sort.Laws.{IsSorted, sort-IsSorted, sort-perm}
use drishtiscope_oss.Common.Sort.Order.{ascending, ascending-IsOrder}
use drishtiscope_oss.Protocol.{SeriesPoint, IoPoint, NetPoint}

abbrev pub row_at : ℕ → List Row → Option Row
row_at t [] = none
row_at t (r ∷ rows) = if nat_eq r.t t then some r else row_at t rows

abbrev or_blank : ℕ → Option Row → Row
or_blank t none = blank t
or_blank t (some r) = r

-- The value of the last point at a time.
abbrev pub last_at {ℓ} : {A : Type ℓ} → (A → ℕ) → (A → ℕ) → ℕ → List A → Option ℕ → Option ℕ
last_at time value t [] v = v
last_at time value t (d ∷ ds) v =
    last_at time value t ds (if nat_eq (time d) t then some (value d) else v)

-- A column of a row that may be there: a value makes the row and fills the column.
abbrev pub column : ℕ → (ℕ → Row → Row) → Option ℕ → Option Row → Option Row
column t put none r = r
column t put (some v) r = some (put v (or_blank t r))

module _ (put : Row → Row) (keeps : (r : Row) → (put r).t ≡ r.t) where
  row_at-upsert :
      (t s : ℕ) (rows : List Row)
      → row_at t (upsert s put rows)
        ≡ (if nat_eq s t then some (put (or_blank s (row_at s rows))) else row_at t rows)
  unfolding upsert
  row_at-upsert t s [] = ground (arith, keeps (blank s))
  row_at-upsert t s (r ∷ rows) = ground (arith, keeps r, row_at-upsert t s rows)

abbrev or_before : Option ℕ → Option ℕ → Option ℕ
or_before none w = w
or_before (some v) w = some v

or_before_absorb :
    (x : Option ℕ) (v : ℕ) (w : Option ℕ)
    → or_before x (some v) ≡ or_before (or_before x (some v)) w
or_before_absorb none v w = refl
or_before_absorb (some u) v w = refl

nat_eq-true : (a b : ℕ) → nat_eq a b ≡ true → a ≡ b
nat_eq-true a b h = ground arith

module _ {ℓ} {A : Type ℓ} (time value : A → ℕ) where
  last_at_lem :
      (t : ℕ) (ds : List A) (w : Option ℕ)
      → last_at time value t ds w ≡ or_before (last_at time value t ds none) w
  last_at_lem t [] w = refl
  last_at_lem t (d ∷ ds) w =
      go (nat_eq (time d) t) (last_at_lem t ds w) (last_at_lem t ds (some (value d)))
    where
      go :
          (b : Bool)
          → last_at time value t ds w ≡ or_before (last_at time value t ds none) w
          → last_at time value t ds (some (value d))
            ≡ or_before (last_at time value t ds none) (some (value d))
          → last_at time value t ds (if b then some (value d) else w)
            ≡ or_before (last_at time value t ds (if b then some (value d) else none)) w
      go true p q =
          q
          ∙ or_before_absorb (last_at time value t ds none) (value d) w
          ∙ ap (λ z. or_before z w) (sym q)
      go false p q = p

module _ (put : ℕ → Row → Row) (keeps : (v : ℕ) (r : Row) → (put v r).t ≡ r.t)
    (over : (u v : ℕ) (r : Row) → put v (put u r) ≡ put v r) where
  column_lem :
      (t v : ℕ) (l : Option ℕ) (r : Option Row)
      → column t put l (some (put v (or_blank t r))) ≡ column t put (or_before l (some v)) r
  column_lem t v none r = refl
  column_lem t v (some u) r = ap some (over v u (or_blank t r))

  module _ {ℓ} {A : Type ℓ} (time value : A → ℕ) where
    row_at-merge :
        (t : ℕ) (ds : List A) (rows : List Row)
        → row_at t (merge time (λ d. put (value d)) ds rows)
          ≡ column t put (last_at time value t ds none) (row_at t rows)
    unfolding merge
    row_at-merge t [] rows = refl
    row_at-merge t (d ∷ ds) rows =
        row_at-merge t ds (upsert (time d) (put (value d)) rows)
        ∙ ap (column t put (last_at time value t ds none))
            (row_at-upsert (put (value d)) (keeps (value d)) t (time d) rows)
        ∙ go (time d) (nat_eq (time d) t) (nat_eq-true (time d) t)
      where
        go :
            (s : ℕ) (b : Bool)
            → (b ≡ true → s ≡ t)
            → column t put
                (last_at time value t ds none)
                (if b then some (put (value d) (or_blank s (row_at s rows))) else row_at t rows)
              ≡ column t put
                  (last_at time value t ds (if b then some (value d) else none))
                  (row_at t rows)
        go s true e =
            ap
              (λ z.
                column t put (last_at time value t ds none)
                  (some (put (value d) (or_blank z (row_at z rows)))))
              (e refl)
            ∙ column_lem t (value d) (last_at time value t ds none) (row_at t rows)
            ∙ ap (λ l. column t put l (row_at t rows))
                (sym (last_at_lem time value t ds (some (value d))))
        go s false e = refl

data_map_row :
    (t : ℕ) (cs : List SeriesPoint) (is : List IoPoint) (ns : List NetPoint)
    → row_at t (data_map cs is ns)
      ≡ column t put_net (last_at (λ d. d.t) (λ d. d.tx_bps + d.rx_bps) t ns none) (
          column t put_io
            (last_at (λ d. d.t) (λ d. d.r_bps + d.w_bps) t is none)
            (column t put_cpu (last_at (λ d. d.t) (λ d. d.cpu_pct) t cs none) none))
unfolding data_map
data_map_row t cs is ns =
    row_at-merge put_net (λ v r. refl) (λ u v r. refl) (λ d. d.t) (λ d. d.tx_bps + d.rx_bps) t ns _
    ∙ ap (column t put_net (last_at (λ d. d.t) (λ d. d.tx_bps + d.rx_bps) t ns none)) (
        row_at-merge put_io (λ v r. refl) (λ u v r. refl) (λ d. d.t) (λ d. d.r_bps + d.w_bps) t is _
        ∙ ap (column t put_io (last_at (λ d. d.t) (λ d. d.r_bps + d.w_bps) t is none)) (
            row_at-merge put_cpu (λ v r. refl) (λ u v r. refl) (λ d. d.t) (λ d. d.cpu_pct) t cs []))

-- The chart draws the merged rows in the order of time, and at each time the merged rows have the
-- row that the last point of each series at that time makes, and none where no series has a point.
pub overlay_rows :
    (cs : List SeriesPoint) (is : List IoPoint) (ns : List NetPoint)
    → Perm (overlay_data cs is ns) (data_map cs is ns)
      × IsSorted (ascending (λ r. r.t)) (overlay_data cs is ns)
      × ((t : ℕ)
          → row_at t (data_map cs is ns)
            ≡ column t put_net (last_at (λ d. d.t) (λ d. d.tx_bps + d.rx_bps) t ns none) (
                column t put_io
                  (last_at (λ d. d.t) (λ d. d.r_bps + d.w_bps) t is none)
                  (column t put_cpu (last_at (λ d. d.t) (λ d. d.cpu_pct) t cs none) none)))
unfolding overlay_data
overlay_rows cs is ns = (
  sort-perm (ascending (λ r. r.t)) (data_map cs is ns),
  sort-IsSorted (ascending-IsOrder (λ r. r.t)) (data_map cs is ns),
  λ t. data_map_row t cs is ns,
)
