-- ===== src/Chat/Markdown.antt =====
-- `renderMarkdown` of frontend/src/components/ChatDrawer.tsx: a pass over the lines of a text that
-- makes a block of each line, or one of the lines between two fences. A block keeps the text that is
-- shown in it, before its bold and code spans are marked; the last block's key is not modelled.
use drishtiscope_oss.Common.{
  ℕ, String, Bool, true, false, not, ◌&&◌, ◌||◌, Option, none, some, List, [], ◌∷◌, ◌++◌, drop,
  nat_eq, if◌then◌else◌,
}
use drishtiscope_oss.Common.Text.{codes, starts_with, trim, is_digit}

pub data Block : Type 0 where
  code_block : List (List ℕ) → List ℕ → Block
  heading : ℕ → List ℕ → Block
  bullet : List ℕ → Block
  numbered : List ℕ → List ℕ → Block
  gap : Block
  paragraph : List ℕ → Block

pub record Renderer : Type 0 where
  pub out : List Block
  pub code_lines : List (List ℕ)
  pub in_code : Bool
  pub code_lang : List ℕ

abbrev pub begins : String → List ℕ → Bool
begins mark line = starts_with line (codes mark)

abbrev pub is_empty : {A : Type 0} → List A → Bool
is_empty [] = true
is_empty (x ∷ xs) = false

-- What `.` does not match.
abbrev pub is_line_end : ℕ → Bool
is_line_end c = nat_eq c 10 || nat_eq c 13 || nat_eq c 8232 || nat_eq c 8233

unfoldable pub until_line_end : List ℕ → List ℕ
until_line_end [] = []
until_line_end (c ∷ s) = if is_line_end c then [] else c ∷ until_line_end s

-- `/^(\d+)\. (.*)/` after the digits that were read.
unfoldable pub number_from : List ℕ → List ℕ → Option (List ℕ × List ℕ)
unfolding until_line_end starts_with
number_from ds [] = none
number_from ds (c ∷ s) =
    if is_digit c
    then number_from (ds ++ c ∷ []) s
    else if not (is_empty ds) && begins ". " (c ∷ s)
    then some (ds, until_line_end (drop 2 (c ∷ s)))
    else none

abbrev pub plain : Option (List ℕ × List ℕ) → List ℕ → Block
plain (some (num, text)) line = numbered num text
plain none line = if is_empty (trim line) then gap else paragraph line

-- A line outside of a code block.
unfoldable pub line_block : List ℕ → Block
unfolding starts_with number_from
line_block line =
    if begins "### " line
    then heading 4 (drop 4 line)
    else if begins "## " line
    then heading 3 (drop 3 line)
    else if begins "# " line
    then heading 2 (drop 2 line)
    else if begins "- " line || begins "* " line
    then bullet (drop 2 line)
    else plain (number_from [] line) line

abbrev pub is_fence : List ℕ → Bool
is_fence line = begins "```" line

abbrev pub on_fence : List ℕ → Renderer → Renderer
on_fence line r =
    if r.in_code
    then record {
      out = r.out ++ code_block r.code_lines r.code_lang ∷ [];
      code_lines = [];
      in_code = false;
      code_lang = [];
    }
    else record r { in_code = true; code_lang = trim (drop 3 line); code_lines = [] }

unfoldable pub on_line : List ℕ → Renderer → Renderer
unfolding line_block
on_line line r =
    if is_fence line
    then on_fence line r
    else if r.in_code
    then record r { code_lines = r.code_lines ++ line ∷ [] }
    else record r { out = r.out ++ line_block line ∷ [] }

unfoldable pub on_lines : List (List ℕ) → Renderer → Renderer
unfolding on_line
on_lines [] r = r
on_lines (line ∷ lines) r = on_lines lines (on_line line r)

abbrev pub at_start : Renderer
at_start = record { out = []; code_lines = []; in_code = false; code_lang = [] }

-- A code block that is not closed is shown if it has a line.
abbrev pub finish : Renderer → List Block
finish r =
    if r.in_code && not (is_empty r.code_lines)
    then r.out ++ code_block r.code_lines r.code_lang ∷ []
    else r.out

unfoldable pub render_markdown : List (List ℕ) → List Block
unfolding on_lines
render_markdown lines = finish (on_lines lines at_start)
