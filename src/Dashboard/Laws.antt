-- ===== src/Dashboard/Laws.antt =====
-- Which process the page takes for the target.
use drishtiscope_oss.Common.{
  ◌≡◌, ◌≢◌, refl, ap, ◌∙◌, Bool, true, false, ◌==◌, eq_iff, some, List, [], ◌∷◌, ◌++◌, All, find,
  arith, String, if◌then◌else◌,
}
use drishtiscope_oss.Common.Text.{includes, to_lower, codes}
use drishtiscope_oss.Dashboard.{is_match, target_process}
use drishtiscope_oss.Processes.{is_target}
use drishtiscope_oss.Protocol.{Snapshot, ProcessRow}

-- Where a row stands that was found: it matches, and no row in front of it does.
pub record IsFirst {ℓ} {A : Type ℓ} (test : A → Bool) (xs : List A) (x : A) : Type ℓ where
  pub before : List A
  pub after : List A
  pub place : xs ≡ before ++ x ∷ after
  pub misses : All (λ y. test y ≡ false) before
  pub hit : test x ≡ true

behind {ℓ} :
    {A : Type ℓ} {test : A → Bool} {xs : List A} {x : A} (y : A)
    → test y ≡ false
    → IsFirst test xs x
    → IsFirst test (y ∷ xs) x
behind y e r = record {
  before = y ∷ r.before;
  after = r.after;
  place = ap (λ l. y ∷ l) r.place;
  misses = (e, r.misses);
  hit = r.hit;
}

find-IsFirst {ℓ} :
    {A : Type ℓ} (test : A → Bool) (xs : List A) (x : A) → find test xs ≡ some x → IsFirst test xs x
find-IsFirst test [] x h = absurd (cc h)
find-IsFirst test (y ∷ xs) x h = go (test y) refl (find-IsFirst test xs x) h
  where
    go :
        (b : Bool)
        → test y ≡ b
        → (find test xs ≡ some x → IsFirst test xs x)
        → (if b then some y else find test xs) ≡ some x
        → IsFirst test (y ∷ xs) x
    go true e ih k = record {
      before = [];
      after = xs;
      place = cc (k);
      misses = tt;
      hit = cc (k, e);
    }
    go false e ih k = behind y e (ih k)

-- The process that the page takes for the target matches it by its id, its name or its command
-- line, and no process listed before it does.
pub target_process-IsFirst :
    (s : Snapshot) (p : ProcessRow)
    → target_process (some s) ≡ some p
    → IsFirst (is_match s.meta.target) s.processes p
unfolding target_process
target_process-IsFirst s p h = find-IsFirst (is_match s.meta.target) s.processes p h

-- A process whose command line mentions the target's name is taken for the target if it is listed
-- first, though the target has an id and another process has that id.
pub mention_wins :
    (s : Snapshot) (p : ProcessRow) (ps : List ProcessRow)
    → s.processes ≡ p ∷ ps
    → (s.meta.target.comm == "") ≡ false
    → includes (to_lower (codes p.cmdline)) (to_lower (codes s.meta.target.comm)) ≡ true
    → target_process (some s) ≡ some p
unfolding target_process is_match
mention_wins s p ps h n m =
    ap (find (is_match s.meta.target)) h
    ∙ ap (λ b. if b then some p else find (is_match s.meta.target) ps) hit
  where
    hit : is_match s.meta.target p ≡ true
    hit = ground (arith, n, m)

not_equal : (s t : String) → s ≢ t → (s == t) ≡ false
not_equal s t n = ground (arith, eq_iff s t)

mention-non_empty :
    (cmdline comm : String)
    → includes (to_lower (codes cmdline)) (to_lower (codes comm)) ≡ true
    → (comm == "") ≡ false
    → (cmdline == "") ≡ false
unfolding includes to_lower
mention-non_empty String.[] String.[] h k = k
mention-non_empty String.[] (String.◌∷◌ c s) h k = cc
mention-non_empty (String.◌∷◌ c s) comm h k = not_equal (String.◌∷◌ c s) "" (λ e. cc)

-- When the target has no id, a process that the page takes for it is marked in the process table.
pub matched-IsMarked :
    (comm : String) (p : ProcessRow)
    → is_match (record { pid = 0; comm = comm }) p ≡ true
    → is_target (some comm) p ≡ true
unfolding is_match is_target
matched-IsMarked comm p h = ground (arith, mention-non_empty p.cmdline comm)
