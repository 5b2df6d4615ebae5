-- ===== src/Tabs/Story/Copies.antt =====
-- The mark on the copy buttons of StoryTab.tsx: the command that was copied last, until a timer runs
-- out. The timers of all copies do the same, and none is cancelled.
use drishtiscope_oss.Common.{
  ℕ, zero, suc, ◌<◌, ◌≡◌, ◌≢◌, refl, String, Option, none, some, List, [], ◌∷◌, arith,
}

pub record CopyMark : Type 0 where
  pub copied_cmd : Option String
  pub timers : ℕ

abbrev pub no_mark : CopyMark
no_mark = record { copied_cmd = none; timers = 0 }

unfoldable pub copy_to_clipboard : String → CopyMark → CopyMark
copy_to_clipboard cmd m = record { copied_cmd = some cmd; timers = suc m.timers }

abbrev run_out : ℕ → CopyMark → CopyMark
run_out zero m = m
run_out (suc n) m = record { copied_cmd = none; timers = n }

-- A timer that runs out, if there is one.
unfoldable pub copied_timer : CopyMark → CopyMark
copied_timer m = run_out m.timers m

-- What happens: a copy of a command, or a timer that runs out.
abbrev pub mark_step : Option String → CopyMark → CopyMark
mark_step none m = copied_timer m
mark_step (some cmd) m = copy_to_clipboard cmd m

unfoldable pub marks : List (Option String) → CopyMark → CopyMark
marks [] m = m
marks (e ∷ es) m = marks es (mark_step e m)

abbrev pub IsPassing : CopyMark → Type 0
IsPassing m = m.copied_cmd ≢ none → 0 < m.timers

run_out-IsPassing : (n : ℕ) (m : CopyMark) → IsPassing m → IsPassing (run_out n m)
run_out-IsPassing zero m h = h
run_out-IsPassing (suc n) m h = λ k. absurd (k refl)

step-IsPassing : (e : Option String) (m : CopyMark) → IsPassing m → IsPassing (mark_step e m)
unfolding copy_to_clipboard copied_timer
step-IsPassing (some cmd) m h = λ n. omega arith
step-IsPassing none m h = run_out-IsPassing m.timers m h

marks-IsPassing : (es : List (Option String)) (m : CopyMark) → IsPassing m → IsPassing (marks es m)
unfolding marks
marks-IsPassing [] m h = h
marks-IsPassing (e ∷ es) m h = marks-IsPassing es (mark_step e m) (step-IsPassing e m h)

-- A mark that is shown has a timer to take it away, whatever was copied and in whatever order the
-- timers ran out; but the first timer to run out takes away the mark of a later copy too.
pub mark_passes :
    (es : List (Option String)) (a b : String)
    → IsPassing (marks es no_mark)
      × ((marks (some a ∷ some b ∷ none ∷ []) no_mark).copied_cmd ≡ none)
unfolding marks copy_to_clipboard copied_timer
mark_passes es a b = (marks-IsPassing es no_mark (λ n. absurd (n refl)), refl)
