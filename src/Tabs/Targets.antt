-- ===== src/Tabs/Targets.antt =====
-- What a row of the process table of MediumTab.tsx asks for, against handleRowClick of
-- ProcessTable.tsx.
use mathlib.Core.Option.{some-injective}
use drishtiscope_oss.Common.{
  ℕ, zero, suc, ◌≡◌, ◌≢◌, refl, ap, not, ◌==◌, if◌then◌else◌, String, Option, none, some, true,
  false, List, [], ◌∷◌, ◌++◌, map, All, find, get_elem?, nat_eq, nat_eq_iff, subst, arith,
}
use drishtiscope_oss.Processes.{agent_label, handle_row_click, sorts_as_target, is_target}
use drishtiscope_oss.Processes.Targets.{clicked-IsMarked}
use drishtiscope_oss.Processes.Order.{DistinctPids}
use drishtiscope_oss.Protocol.{Snapshot, ProcessRow}
use drishtiscope_oss.Tabs.Medium.{on_select}

All-get_elem? {ℓ κ} :
    {A : Type ℓ} (P : A → Type κ) (xs : List A) (i : ℕ) (x : A)
    → All P xs
    → get_elem? xs i ≡ some x
    → P x
All-get_elem? P [] i x h e = absurd (cc e)
All-get_elem? P (y ∷ ys) zero x (h, hs) e = subst P (some-injective _ _ e) h
All-get_elem? P (y ∷ ys) (suc i) x (h, hs) e = All-get_elem? P ys i x hs e

find-pid :
    (ps : List ProcessRow) (i : ℕ) (p : ProcessRow)
    → DistinctPids ps
    → get_elem? ps i ≡ some p
    → find (λ (x : ProcessRow). nat_eq x.pid p.pid) ps ≡ some p
find-pid [] i p d e = absurd (cc e)
find-pid (q ∷ ps) zero p d e = rw (some-injective _ _ e, (nat_eq_iff p.pid p.pid).1 refl) refl
find-pid (q ∷ ps) (suc i) p (d, ds) e =
    let apart = All-get_elem? _ ps i p d e in ground (arith, find-pid ps i p ds e)

abbrev pub given {ℓ} : {A : Type ℓ} → Option A → List A
given none = []
given (some x) = x ∷ []

-- A click on a row of the table, which gets no `onTarget`: the process that is selected, and the targets
-- that are asked for, by handleRowClick and then by `onSelect`.
unfoldable pub row_click : Snapshot → ProcessRow → ℕ × List (String × ℕ)
unfolding handle_row_click on_select
row_click s p =
    let click = handle_row_click false p in
    let (pid, target) = on_select click.select (some s) in (pid, given click.target ++ given target)

on_select_lem :
    (s : Snapshot) (i : ℕ) (p : ProcessRow)
    → DistinctPids s.processes
    → get_elem? s.processes i ≡ some p
    → let label = agent_label p.comm p.cmdline in
      on_select p.pid (some s) ≡ (p.pid, some (label, if not (label == p.comm) then 0 else p.pid))
unfolding on_select
on_select_lem s i p d e = rw (find-pid s.processes i p d e) refl

row_click_lem :
    (s : Snapshot) (i : ℕ) (p : ProcessRow)
    → DistinctPids s.processes
    → get_elem? s.processes i ≡ some p
    → let label = agent_label p.comm p.cmdline in
      row_click s p ≡ (p.pid, (label, if not (label == p.comm) then 0 else p.pid) ∷ [])
unfolding row_click
row_click_lem s i p d e =
    ap (λ (r : ℕ × Option (String × ℕ)). (r.0, given r.1)) (on_select_lem s i p d e)

-- Where the processes have distinct ids, a click on a row selects its process and asks for one target:
-- the one that handleRowClick gives where it has an `onTarget`.
pub row_click-once :
    (s : Snapshot) (i : ℕ) (p : ProcessRow)
    → DistinctPids s.processes
    → get_elem? s.processes i ≡ some p
    → ((row_click s p).0 ≡ p.pid)
      × (map some (row_click s p).1 ≡ (handle_row_click true p).target ∷ [])
unfolding handle_row_click
row_click-once s i p d e =
    let c = row_click_lem s i p d e in
    (ap (λ (r : ℕ × List (String × ℕ)). r.0) c, ap (λ (r : ℕ × List (String × ℕ)). map some r.1) c)

-- Where the processes have distinct ids, a click on the row of a process with a name asks for one target,
-- under which that row sorts as the target and is marked as the target; the process id that is asked for
-- is its own where the label is its name, and 0 where the label was derived from the command line.
pub row_click-IsMarked :
    (s : Snapshot) (i : ℕ) (p : ProcessRow)
    → DistinctPids s.processes
    → get_elem? s.processes i ≡ some p
    → p.comm ≢ ""
    → (t : String × ℕ) × ((row_click s p).1 ≡ t ∷ [])
      × (sorts_as_target (some t.0) p ≡ true)
      × (is_target (some t.0) p ≡ true)
      × (t.0 ≡ p.comm → t.1 ≡ p.pid)
      × (t.0 ≢ p.comm → t.1 ≡ 0)
row_click-IsMarked s i p d e h =
    let (sorts, marked, own, zero_id) = clicked-IsMarked p h in
    (
      _,
      ap (λ (r : ℕ × List (String × ℕ)). r.1) (row_click_lem s i p d e),
      sorts,
      marked,
      own,
      zero_id,
    )
