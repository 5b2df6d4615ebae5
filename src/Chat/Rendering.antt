-- ===== src/Chat/Rendering.antt =====
-- `renderMarkdown` of frontend/src/components/ChatDrawer.tsx against a description of what a text of
-- paragraphs and fenced code is to look like.
use mathlib.Core.List.{append_assoc, append-nil}
use drishtiscope_oss.Common.{
  ℕ, ◌≡◌, refl, sym, ap, ◌∙◌, true, false, List, [], ◌∷◌, ◌++◌, map, drop, All, if◌then◌else◌,
}
use drishtiscope_oss.Common.Text.{trim}
use drishtiscope_oss.Chat.Markdown.{
  Block, code_block, Renderer, line_block, is_fence, on_fence, on_line, on_lines, finish,
  render_markdown,
}

pub on_lines-append :
    (xs ys : List (List ℕ)) (r : Renderer) → on_lines (xs ++ ys) r ≡ on_lines ys (on_lines xs r)
unfolding on_lines
on_lines-append [] ys r = refl
on_lines-append (x ∷ xs) ys r = on_lines-append xs ys (on_line x r)

abbrev pub NoFence : List (List ℕ) → Type 0
NoFence lines = All (λ line. is_fence line ≡ false) lines

abbrev inside : List Block → List (List ℕ) → List ℕ → Renderer
inside out code lang = record { out = out; code_lines = code; in_code = true; code_lang = lang }

abbrev outside : List Block → Renderer
outside out = record { out = out; code_lines = []; in_code = false; code_lang = [] }

inside_line :
    (out : List Block) (cl : List (List ℕ)) (lang line : List ℕ)
    → is_fence line ≡ false
    → on_line line (inside out cl lang) ≡ inside out (cl ++ line ∷ []) lang
unfolding on_line
inside_line out cl lang line h =
    ap (λ b. if b then on_fence line (inside out cl lang) else inside out (cl ++ line ∷ []) lang) h

outside_line :
    (out : List Block) (line : List ℕ)
    → is_fence line ≡ false
    → on_line line (outside out) ≡ outside (out ++ line_block line ∷ [])
unfolding on_line
outside_line out line h =
    ap (λ b. if b then on_fence line (outside out) else outside (out ++ line_block line ∷ [])) h

-- Inside of a code block the lines are kept as they are.
inside_lines :
    (out : List Block) (cl code : List (List ℕ)) (lang : List ℕ)
    → NoFence code
    → on_lines code (inside out cl lang) ≡ inside out (cl ++ code) lang
unfolding on_lines
inside_lines out cl [] lang h = ap (λ l. inside out l lang) (sym (append-nil cl))
inside_lines out cl (x ∷ xs) lang (h, hs) =
    ap (on_lines xs) (inside_line out cl lang x h)
    ∙ inside_lines out (cl ++ x ∷ []) xs lang hs
    ∙ ap (λ l. inside out l lang) (append_assoc cl (x ∷ []) xs)

-- Outside of one each line is a block.
outside_lines :
    (out : List Block) (lines : List (List ℕ))
    → NoFence lines
    → on_lines lines (outside out) ≡ outside (out ++ map line_block lines)
unfolding on_lines
outside_lines out [] h = ap outside (sym (append-nil out))
outside_lines out (x ∷ xs) (h, hs) =
    ap (on_lines xs) (outside_line out x h)
    ∙ outside_lines (out ++ line_block x ∷ []) xs hs
    ∙ ap outside (append_assoc out (line_block x ∷ []) (map line_block xs))

-- A part of a text: lines without a fence, or code lines between an opening and a closing fence.
pub data Section : Type 0 where
  prose : List (List ℕ) → Section
  code : List ℕ → List (List ℕ) → List ℕ → Section

abbrev pub IsSection : Section → Type 0
IsSection (prose lines) = NoFence lines
IsSection (code opening lines closing) =
    (is_fence opening ≡ true) × (NoFence lines × (is_fence closing ≡ true))

abbrev pub lines_of : Section → List (List ℕ)
lines_of (prose lines) = lines
lines_of (code opening lines closing) = opening ∷ (lines ++ closing ∷ [])

-- What a section looks like: a block for each line of prose, one block for the code.
unfoldable pub blocks_of : Section → List Block
unfolding line_block
blocks_of (prose lines) = map line_block lines
blocks_of (code opening lines closing) = code_block lines (trim (drop 3 opening)) ∷ []

abbrev pub all_lines : List Section → List (List ℕ)
all_lines [] = []
all_lines (s ∷ ss) = lines_of s ++ all_lines ss

abbrev pub all_blocks : List Section → List Block
all_blocks [] = []
all_blocks (s ∷ ss) = blocks_of s ++ all_blocks ss

opening_line :
    (out : List Block) (line : List ℕ)
    → is_fence line ≡ true
    → on_line line (outside out) ≡ inside out [] (trim (drop 3 line))
unfolding on_line
opening_line out line h =
    ap (λ b. if b then on_fence line (outside out) else outside (out ++ line_block line ∷ [])) h

closing_line :
    (out : List Block) (cl : List (List ℕ)) (lang line : List ℕ)
    → is_fence line ≡ true
    → on_line line (inside out cl lang) ≡ outside (out ++ code_block cl lang ∷ [])
unfolding on_line
closing_line out cl lang line h =
    ap (λ b. if b then on_fence line (inside out cl lang) else inside out (cl ++ line ∷ []) lang) h

section_lines :
    (s : Section) (out : List Block)
    → IsSection s
    → on_lines (lines_of s) (outside out) ≡ outside (out ++ blocks_of s)
unfolding on_lines blocks_of
section_lines (prose lines) out h = outside_lines out lines h
section_lines (code opening lines closing) out (ho, (hl, hc)) =
    ap (on_lines (lines ++ closing ∷ [])) (opening_line out opening ho)
    ∙ on_lines-append lines (closing ∷ []) (inside out [] (trim (drop 3 opening)))
    ∙ ap (on_line closing) (inside_lines out [] lines (trim (drop 3 opening)) hl)
    ∙ closing_line out lines (trim (drop 3 opening)) closing hc

sections_lines :
    (ss : List Section) (out : List Block)
    → All IsSection ss
    → on_lines (all_lines ss) (outside out) ≡ outside (out ++ all_blocks ss)
unfolding on_lines
sections_lines [] out h = ap outside (sym (append-nil out))
sections_lines (s ∷ ss) out (h, hs) =
    on_lines-append (lines_of s) (all_lines ss) (outside out)
    ∙ ap (on_lines (all_lines ss)) (section_lines s out h)
    ∙ sections_lines ss (out ++ blocks_of s) hs
    ∙ ap outside (append_assoc out (blocks_of s) (all_blocks ss))

-- A text that is made of prose and closed code sections is shown section by section: every line of
-- prose as its own block, and each code section as one block with its lines and its language.
pub render-sections :
    (ss : List Section) → All IsSection ss → render_markdown (all_lines ss) ≡ all_blocks ss
unfolding render_markdown
render-sections ss h = ap finish (sections_lines ss [] h)
