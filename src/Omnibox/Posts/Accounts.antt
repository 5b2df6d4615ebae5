-- ===== src/Omnibox/Posts/Accounts.antt =====
-- What was posted after any course of requests, and when the search box is enabled.
use mathlib.Core.List.{Perm, cons≢nil, perm_middle}
use mathlib.Core.List.Perm
use drishtiscope_oss.Common.{
  ℕ, ◌≡◌, ap, arith, refl, subst, ◌∙◌, Option, none, some, Bool, true, false, not, List, [], ◌∷◌,
  ◌++◌, get_elem?, map, if◌then◌else◌,
}
use drishtiscope_oss.Common.Text.{trim}
use drishtiscope_oss.Omnibox.{
  Omnibox, Target, body, Outcome, ok, status, exception, hover, drawn, select_process,
}
use drishtiscope_oss.Omnibox.Keys.{
  Key, handle_search_key_down, apply, text_target, closed_key, open_key, chosen,
}
use drishtiscope_oss.Omnibox.Posts.{
  Search, unused, ask, finish, Move, Moves, here, next, presses, types, focuses, clears, leaves,
  points, selects, names, ends,
}
use drishtiscope_oss.Protocol.{ProcessRow}

pub record IsAccounted (s : Search) : Type 0 where
  pub enabled : s.pending ≡ [] → s.box.busy ≡ false
  pub posted : Perm s.posts (map body s.asked ++ map body s.applied)
  pub settled : Perm s.asked (s.pending ++ (s.applied ++ s.failed))

-- A handler that asks for no target leaves the box as busy as it was.
abbrev Keeps : Omnibox → Omnibox × Option Target → Type 0
Keeps b (b', none) = b'.busy ≡ b.busy
Keeps b (b', some t) = Unit

apply-Keeps : (t : Option Target) (b : Omnibox) → Keeps b (apply t b)
apply-Keeps none b = refl
apply-Keeps (some t) b = tt

closed_key-Keeps : (k : Key) (b : Omnibox) → Keeps b (closed_key k b)
closed_key-Keeps Key.arrow_down b = refl
closed_key-Keeps Key.arrow_up b = refl
closed_key-Keeps Key.enter b = refl
closed_key-Keeps Key.escape b = refl
closed_key-Keeps Key.other b = refl

open_key-Keeps : (k : Key) (rows : List ProcessRow) (b : Omnibox) → Keeps b (open_key k rows b)
unfolding open_key
open_key-Keeps Key.arrow_down rows b = refl
open_key-Keeps Key.arrow_up rows b = refl
open_key-Keeps Key.enter rows b = apply-Keeps (chosen rows b) b
open_key-Keeps Key.escape rows b = refl
open_key-Keeps Key.other rows b = refl

if-Keeps :
    (b : Omnibox) (c : Bool) (x y : Omnibox × Option Target)
    → Keeps b x
    → Keeps b y
    → Keeps b (if c then x else y)
if-Keeps b true x y p q = p
if-Keeps b false x y p q = q

key-Keeps :
    (k : Key) (rows : List ProcessRow) (b : Omnibox) → Keeps b (handle_search_key_down k rows b)
unfolding handle_search_key_down
key-Keeps k rows b =
    if-Keeps b (not b.is_search_open) _ _ (closed_key-Keeps k b) (open_key-Keeps k rows b)

ask-IsAccounted :
    (s : Search) (r : Omnibox × Option Target)
    → Keeps s.box r
    → IsAccounted s
    → IsAccounted (ask r s)
unfolding ask
ask-IsAccounted s (b, none) k v = record {
  enabled = λ e. k ∙ v.enabled e;
  posted = v.posted;
  settled = v.settled;
}
ask-IsAccounted s (b, some t) k v = record {
  enabled = λ e. absurd (cons≢nil e);
  posted = Perm.cons (body t) v.posted;
  settled = Perm.cons t v.settled;
}

-- One call of `before ++ t ∷ after` is moved behind the others.
moved :
    (before after xs ys : List Target) (t : Target)
    → Perm ((before ++ t ∷ after) ++ (xs ++ ys)) ((before ++ after) ++ (xs ++ t ∷ ys))
moved before after xs ys t = Perm.trans (Perm.append_right (xs ++ ys) (perm_middle before after)) (
    Perm.symm (
      Perm.trans (Perm.append_left (before ++ after) (perm_middle xs ys))
        (perm_middle (before ++ after) (xs ++ ys))))

finish-IsAccounted :
    (s : Search) (before after : List Target) (t : Target) (o : Outcome)
    → s.pending ≡ before ++ t ∷ after
    → IsAccounted s
    → IsAccounted (finish t o (before ++ after) s)
unfolding finish
finish-IsAccounted s before after t o e v = go o
  where
    all : Perm s.asked ((before ++ t ∷ after) ++ (s.applied ++ s.failed))
    all = subst (λ w. Perm s.asked (w ++ (s.applied ++ s.failed))) e v.settled

    go : (o : Outcome) → IsAccounted (finish t o (before ++ after) s)
    go ok = record {
      enabled = λ _. refl;
      posted =
          Perm.trans (Perm.cons (body t) v.posted)
            (Perm.symm (perm_middle (map body s.asked) (map body s.applied)));
      settled = Perm.trans all (moved before after [] (s.applied ++ s.failed) t);
    }
    go (status code) = record {
      enabled = λ _. refl;
      posted = v.posted;
      settled = Perm.trans all (moved before after s.applied s.failed t);
    }
    go (exception m) = record {
      enabled = λ _. refl;
      posted = v.posted;
      settled = Perm.trans all (moved before after s.applied s.failed t);
    }

hover-busy : (k : ℕ) (rows : List ProcessRow) (b : Omnibox) → (hover k rows b).busy ≡ b.busy
unfolding hover
hover-busy k rows b = ground arith

Move-IsAccounted : {s t : Search} → Move s t → IsAccounted s → IsAccounted t
Move-IsAccounted (presses s rows k h) v = ask-IsAccounted s _ (key-Keeps k rows s.box) v
Move-IsAccounted (types s q h) v = record {
  enabled = v.enabled;
  posted = v.posted;
  settled = v.settled;
}
Move-IsAccounted (focuses s h) v = record {
  enabled = v.enabled;
  posted = v.posted;
  settled = v.settled;
}
Move-IsAccounted (clears s h) v = record {
  enabled = v.enabled;
  posted = v.posted;
  settled = v.settled;
}
Move-IsAccounted (leaves s) v = record {
  enabled = v.enabled;
  posted = v.posted;
  settled = v.settled;
}
Move-IsAccounted (points s rows k) v = record {
  enabled = λ e. hover-busy k rows s.box ∙ v.enabled e;
  posted = v.posted;
  settled = v.settled;
}
Move-IsAccounted (selects s rows k p h g) v = ask-IsAccounted s _ tt v
Move-IsAccounted (names s h) v =
    ask-IsAccounted s _ (apply-Keeps (text_target (trim s.box.search_query)) s.box) v
Move-IsAccounted (ends s before after t o e) v = finish-IsAccounted s before after t o e v

-- Whatever happens to the search box from its start on, and in whatever order the requests for a target
-- end: the posted bodies are those of all calls of applyTarget and, once more, those of the calls that
-- succeeded; each call waits, has succeeded or has failed; and when none waits, the box is enabled.
pub Moves-IsAccounted : {s : Search} → Moves unused s → IsAccounted s
Moves-IsAccounted here = record {
  enabled = λ _. refl;
  posted = Perm.refl [];
  settled = Perm.refl [];
}
Moves-IsAccounted (next m e) = Move-IsAccounted e (Moves-IsAccounted m)

-- A suggestion that is clicked while a request runs starts another; when the first one fails, the box is
-- enabled while the second still runs.
enabled_early :
    (s : Search) (rows : List ProcessRow) (k : ℕ) (p : ProcessRow) (first : Target)
    → s.pending ≡ first ∷ []
    → s.box.is_search_open ≡ true
    → get_elem? (drawn rows) k ≡ some p
    → (t : Search) × Moves s t × (t.pending ≡ select_process p ∷ []) × (t.box.busy ≡ false)
unfolding ask finish
enabled_early s rows k p first e h g = (
  _,
  next (next here (selects s rows k p h g)) (
      ends (ask (apply (some (select_process p)) s.box) s) (select_process p ∷ []) [] first
        (status 500) (ap (λ ts. select_process p ∷ ts) e)),
  refl,
  refl,
)
