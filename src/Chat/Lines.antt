-- ===== src/Chat/Lines.antt =====
-- `renderMarkdown` of frontend/src/components/ChatDrawer.tsx on a whole text: it is split into lines,
-- the lines make blocks, and a block of prose is drawn with its bold and code spans.
use drishtiscope_oss.Common.{
  ℕ, ◌<◌, ◌≡◌, refl, ap, ◌∙◌, List, [], ◌∷◌, ◌++◌, map, length, All, arith, nat_eq, if◌then◌else◌,
}
use drishtiscope_oss.Chat.Inline.{Span, inline_markdown}
use drishtiscope_oss.Chat.Inline.Segments.{Without}
use drishtiscope_oss.Chat.Markdown.{
  Block, code_block, heading, bullet, numbered, gap, paragraph, render_markdown,
}
use drishtiscope_oss.Chat.Rendering.{Section, IsSection, all_lines, all_blocks, render-sections}

abbrev pub new_line : ℕ
new_line = 10

abbrev pub onto_first : ℕ → List (List ℕ) → List (List ℕ)
onto_first c [] = (c ∷ []) ∷ []
onto_first c (line ∷ lines) = (c ∷ line) ∷ lines

-- `text.split('\n')`
unfoldable pub split_lines : List ℕ → List (List ℕ)
split_lines [] = [] ∷ []
split_lines (c ∷ s) =
    let rest = split_lines s in if nat_eq c new_line then [] ∷ rest else onto_first c rest

-- `lines.join('\n')`
unfoldable pub join_lines : List (List ℕ) → List ℕ
join_lines [] = []
join_lines (line ∷ []) = line
join_lines (line ∷ next ∷ lines) = line ++ (new_line ∷ join_lines (next ∷ lines))

-- What is drawn.
pub data Element : Type 0 where
  code_element : List ℕ → List ℕ → Element
  heading_element : ℕ → List ℕ → Element
  bullet_element : List Span → Element
  numbered_element : List ℕ → List Span → Element
  gap_element : Element
  paragraph_element : List Span → Element

unfoldable pub draw : Block → Element
unfolding join_lines inline_markdown
draw (code_block lines lang) = code_element (join_lines lines) lang
draw (heading n text) = heading_element n text
draw (bullet text) = bullet_element (inline_markdown text)
draw (numbered num text) = numbered_element num (inline_markdown text)
draw gap = gap_element
draw (paragraph text) = paragraph_element (inline_markdown text)

unfoldable pub render_text : List ℕ → List Element
unfolding draw render_markdown split_lines
render_text text = map draw (render_markdown (split_lines text))

onto_first-append :
    (line : List ℕ) (rest : List (List ℕ)) (s : List ℕ)
    → Without new_line line
    → split_lines s ≡ [] ∷ rest
    → split_lines (line ++ s) ≡ line ∷ rest
unfolding split_lines
onto_first-append [] rest s h e = e
onto_first-append (c ∷ line) rest s h e =
    ap (λ b. if b then [] ∷ split_lines (line ++ s) else onto_first c (split_lines (line ++ s))) h.0
    ∙ ap (onto_first c) (onto_first-append line rest s h.1 e)

split_lines-one : (line : List ℕ) → Without new_line line → split_lines line ≡ line ∷ []
unfolding split_lines
split_lines-one [] h = refl
split_lines-one (c ∷ line) h =
    ap (λ b. if b then [] ∷ split_lines line else onto_first c (split_lines line)) h.0
    ∙ ap (onto_first c) (split_lines-one line h.1)

-- Lines that are joined are split into the same lines, where there is one at least.
pub split_lines-join_lines :
    (lines : List (List ℕ))
    → 0 < length lines
    → All (Without new_line) lines
    → split_lines (join_lines lines) ≡ lines
unfolding split_lines join_lines
split_lines-join_lines [] p h = absurd (omega arith)
split_lines-join_lines (line ∷ []) p h = split_lines-one line h.0
split_lines-join_lines (line ∷ next ∷ lines) p h =
    onto_first-append line (next ∷ lines) (new_line ∷ join_lines (next ∷ lines)) h.0
      (ap (λ l. [] ∷ l) (split_lines-join_lines (next ∷ lines) (omega arith) h.1))

-- A text whose lines are prose without fences and closed code sections, with one line at least, is
-- drawn section by section: each line of prose as its own element, with its bold and code spans, and each
-- code section as one element with its lines and its language.
pub render_text-sections :
    (ss : List Section)
    → All IsSection ss
    → 0 < length (all_lines ss)
    → All (Without new_line) (all_lines ss)
    → render_text (join_lines (all_lines ss)) ≡ map draw (all_blocks ss)
unfolding render_text
render_text-sections ss h p n =
    ap (λ l. map draw (render_markdown l)) (split_lines-join_lines (all_lines ss) p n)
    ∙ ap (map draw) (render-sections ss h)
