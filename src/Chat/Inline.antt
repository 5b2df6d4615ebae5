-- ===== src/Chat/Inline.antt =====
-- inlineMarkdown of frontend/src/components/ChatDrawer.tsx: the bold and code spans of a line. The
-- regular expression that splits the line matches two stars, text without stars and two stars, or a
-- backtick, text without backticks and a backtick; its capture group keeps the matches as parts.
pub mod Segments
use drishtiscope_oss.Common.{
  ℕ, zero, suc, ◌+◌, ◌-◌, List, [], ◌∷◌, ◌++◌, map, length, take, drop, Bool, ◌&&◌, ltb, leb,
  nat_eq, if◌then◌else◌,
}
use drishtiscope_oss.Common.Text.{starts_with, same_codes}

pub data Span : Type 0 where
  strong code plain : List ℕ → Span

abbrev pub stars : List ℕ
stars = b'*' ∷ b'*' ∷ []

abbrev pub backtick : List ℕ
backtick = b'`' ∷ []

-- `[^c]*`: how many characters there are before the first c.
abbrev pub run_length : ℕ → List ℕ → ℕ
run_length c [] = 0
run_length c (a ∷ s) = if nat_eq a c then 0 else suc (run_length c s)

-- The length of a match of `mark[^c]+mark` at the start of the text, where the mark consists of c;
-- 0 without one.
unfoldable pub marked_length : List ℕ → ℕ → List ℕ → ℕ
unfolding starts_with
marked_length mark c s =
    let n = run_length c (drop (length mark) s) in
    if starts_with s mark && ltb 0 n && starts_with (drop n (drop (length mark) s)) mark
    then n + (length mark + length mark)
    else 0

abbrev pub or_else : ℕ → ℕ → ℕ
or_else zero n = n
or_else (suc m) n = suc m

-- The length of the match at the start of the text.
unfoldable pub match_length : List ℕ → ℕ
unfolding marked_length
match_length s = or_else (marked_length stars b'*' s) (marked_length backtick b'`' s)

-- `text.split(…)` after `before`, the text since the last match, with `skip` characters to go of the
-- match that was found last.
unfoldable pub split_from : ℕ → List ℕ → List ℕ → List (List ℕ)
unfolding match_length
split_from skip before [] = before ∷ []
split_from (suc skip) before (c ∷ s) = split_from skip before s
split_from zero before (c ∷ s) = elim (match_length (c ∷ s)) [
  | zero ↦ split_from 0 (before ++ (c ∷ [])) s
  | suc n ↦ before ∷ take (suc n) (c ∷ s) ∷ split_from n [] s
]

unfoldable pub split_parts : List ℕ → List (List ℕ)
unfolding split_from
split_parts text = split_from 0 [] text

-- `s.endsWith(t)`
abbrev pub ends_with : List ℕ → List ℕ → Bool
ends_with s t = leb (length t) (length s) && same_codes (drop (length s - length t) s) t

unfoldable pub styled : List ℕ → Span
unfolding starts_with same_codes
styled part =
    if starts_with part stars && ends_with part stars
    then strong (take (length part - 4) (drop 2 part))
    else if starts_with part backtick && ends_with part backtick
    then code (take (length part - 2) (drop 1 part))
    else plain part

unfoldable pub inline_markdown : List ℕ → List Span
unfolding split_parts styled
inline_markdown text = map styled (split_parts text)
