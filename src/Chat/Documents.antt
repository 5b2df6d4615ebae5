-- ===== src/Chat/Documents.antt =====
-- What `renderMarkdown` of frontend/src/components/ChatDrawer.tsx shows of a document: headings, items,
-- numbered steps, empty lines, paragraphs with bold and code texts, and closed code sections.
use drishtiscope_oss.Common.{
  ℕ, ◌<◌, ◌≡◌, refl, sym, subst, ap, ◌∙◌, true, false, none, some, List, [], ◌∷◌, ◌++◌, map, length,
  All, arith, nat_eq,
}
use mathlib.Core.List.{append_assoc, append-nil}
use drishtiscope_oss.Common.Text.{codes, starts_with, trim, is_digit}
use drishtiscope_oss.Chat.Inline.Segments.{
  Without, Segment, IsSegment, IsProse, line_of, shown, inline-segments,
}
use drishtiscope_oss.Chat.Lines.{
  Element, code_element, heading_element, bullet_element, numbered_element, gap_element,
  paragraph_element, draw, join_lines, render_text, render_text-sections, new_line,
}
use drishtiscope_oss.Chat.Markdown.{
  line_block, paragraph, is_fence, is_empty, is_line_end, until_line_end, number_from, plain,
}
use drishtiscope_oss.Chat.Rendering.{
  Section, prose, code, IsSection, blocks_of, all_lines, all_blocks,
}

-- A line; prose is given by its segments and the prose at its end.
pub data Line : Type 0 where
  title subtitle section : List ℕ → Line
  dash_item star_item : List Segment → List ℕ → Line
  numbered_item : List ℕ → List Segment → List ℕ → Line
  empty : Line
  text : List Segment → List ℕ → Line

abbrev pub line_text : Line → List ℕ
line_text (title t) = b'#' ∷ b' ' ∷ t
line_text (subtitle t) = b'#' ∷ b'#' ∷ b' ' ∷ t
line_text (section t) = b'#' ∷ b'#' ∷ b'#' ∷ b' ' ∷ t
line_text (dash_item xs end) = b'-' ∷ b' ' ∷ line_of xs end
line_text (star_item xs end) = b'*' ∷ b' ' ∷ line_of xs end
line_text (numbered_item ds xs end) = ds ++ (b'.' ∷ b' ' ∷ line_of xs end)
line_text empty = []
line_text (text xs end) = line_of xs end

-- How it is drawn.
abbrev pub line_element : Line → Element
line_element (title t) = heading_element 2 t
line_element (subtitle t) = heading_element 3 t
line_element (section t) = heading_element 4 t
line_element (dash_item xs end) = bullet_element (shown xs end)
line_element (star_item xs end) = bullet_element (shown xs end)
line_element (numbered_item ds xs end) = numbered_element ds (shown xs end)
line_element empty = gap_element
line_element (text xs end) = paragraph_element (shown xs end)

abbrev pub IsRich : List Segment → List ℕ → Type 0
IsRich xs end = All IsSegment xs × IsProse end

-- A paragraph is not blank, starts with no digit, and has none of the markers at its start.
abbrev pub IsParagraph : List ℕ → Type 0
IsParagraph [] = ⊥
IsParagraph (c ∷ s) =
    (is_digit c ≡ false)
    × (is_empty (trim (c ∷ s)) ≡ false)
    × All (λ mark. starts_with (c ∷ s) (codes mark) ≡ false)
        ("### " ∷ "## " ∷ "# " ∷ "- " ∷ "* " ∷ "```" ∷ [])

abbrev pub IsLine : Line → Type 0
IsLine (title t) = Unit
IsLine (subtitle t) = Unit
IsLine (section t) = Unit
IsLine (dash_item xs end) = IsRich xs end
IsLine (star_item xs end) = IsRich xs end
IsLine (numbered_item ds xs end) =
    (0 < length ds)
    × All (λ d. is_digit d ≡ true) ds
    × All (λ c. is_line_end c ≡ false) (line_of xs end)
    × IsRich xs end
IsLine empty = Unit
IsLine (text xs end) = IsParagraph (line_of xs end) × IsRich xs end

until_line_end-All : (s : List ℕ) → All (λ c. is_line_end c ≡ false) s → until_line_end s ≡ s
unfolding until_line_end
until_line_end-All [] h = refl
until_line_end-All (c ∷ s) (h, hs) = rw (h, until_line_end-All s hs) refl

number_from-digits :
    (a : ℕ) (acc ds s : List ℕ)
    → All (λ d. is_digit d ≡ true) ds
    → All (λ c. is_line_end c ≡ false) s
    → number_from (a ∷ acc) (ds ++ (b'.' ∷ b' ' ∷ s)) ≡ some ((a ∷ acc) ++ ds, s)
unfolding number_from starts_with
number_from-digits a acc [] s h k = rw (until_line_end-All s k, append-nil acc) refl
number_from-digits a acc (d ∷ ds) s (h, hs) k =
    rw (h, number_from-digits a (acc ++ d ∷ []) ds s hs k, append_assoc acc (d ∷ []) ds) refl

-- A digit is none of the characters of a marker.
digit_apart : (d m : ℕ) → is_digit d ≡ true → is_digit m ≡ false → nat_eq d m ≡ false
digit_apart d m h k = ground arith

-- A line that starts with a digit has none of the markers.
digit_block :
    (d : ℕ) (s : List ℕ)
    → is_digit d ≡ true
    → line_block (d ∷ s) ≡ plain (number_from [] (d ∷ s)) (d ∷ s)
unfolding line_block starts_with
digit_block d s h =
    rw (digit_apart d b'#' h refl, digit_apart d b'-' h refl, digit_apart d b'*' h refl) refl

numbered_lem :
    (d : ℕ) (ds s : List ℕ)
    → All (λ c. is_digit c ≡ true) (d ∷ ds)
    → All (λ c. is_line_end c ≡ false) s
    → number_from [] ((d ∷ ds) ++ (b'.' ∷ b' ' ∷ s)) ≡ some (d ∷ ds, s)
unfolding number_from starts_with
numbered_lem d ds s (h, hs) k = rw (h, number_from-digits d [] ds s hs k) refl

unnumbered : (c : ℕ) (s : List ℕ) → is_digit c ≡ false → number_from [] (c ∷ s) ≡ none
unfolding number_from starts_with
unnumbered c s h = rw h refl

paragraph_block : (line : List ℕ) → IsParagraph line → line_block line ≡ paragraph line
unfolding line_block
paragraph_block [] h = absurd h
paragraph_block (c ∷ s) (d, b, (m1, (m2, (m3, (m4, (m5, m)))))) =
    rw (m1, m2, m3, m4, m5, unnumbered c s d, b) refl

draw_line : (l : Line) → IsLine l → draw (line_block (line_text l)) ≡ line_element l
unfolding draw line_block starts_with trim
draw_line (title t) h = refl
draw_line (subtitle t) h = refl
draw_line (section t) h = refl
draw_line (dash_item xs end) (h, k) = ap bullet_element (inline-segments xs end h k)
draw_line (star_item xs end) (h, k) = ap bullet_element (inline-segments xs end h k)
draw_line (numbered_item [] xs end) (p, _, _, _) = absurd (omega (arith, p))
draw_line (numbered_item (d ∷ ds) xs end) (p, h, e, (r, q)) =
    ap draw (
      digit_block d (ds ++ (b'.' ∷ b' ' ∷ line_of xs end)) h.0
      ∙ ap (λ o. plain o ((d ∷ ds) ++ (b'.' ∷ b' ' ∷ line_of xs end)))
          (numbered_lem d ds (line_of xs end) h e))
    ∙ ap (numbered_element (d ∷ ds)) (inline-segments xs end r q)
draw_line empty h = refl
draw_line (text xs end) (h, (r, q)) =
    ap draw (paragraph_block (line_of xs end) h) ∙ ap paragraph_element (inline-segments xs end r q)

-- A document: lines, and code sections with what stands behind the opening fence, the code, and what
-- stands behind the closing fence.
pub data Part : Type 0 where
  line : Line → Part
  listing : List ℕ → List (List ℕ) → List ℕ → Part

abbrev pub fence : List ℕ
fence = b'`' ∷ b'`' ∷ b'`' ∷ []

abbrev pub part_lines : Part → List (List ℕ)
part_lines (line l) = line_text l ∷ []
part_lines (listing lang lines rest) = (fence ++ lang) ∷ (lines ++ (fence ++ rest) ∷ [])

abbrev pub document_lines : List Part → List (List ℕ)
document_lines [] = []
document_lines (p ∷ ps) = part_lines p ++ document_lines ps

abbrev pub part_element : Part → Element
part_element (line l) = line_element l
part_element (listing lang lines rest) = code_element (join_lines lines) (trim lang)

abbrev pub IsPart : Part → Type 0
IsPart (line l) = IsLine l
IsPart (listing lang lines rest) = All (λ l. is_fence l ≡ false) lines

abbrev section_of : Part → Section
section_of (line l) = prose (line_text l ∷ [])
section_of (listing lang lines rest) = code (fence ++ lang) lines (fence ++ rest)

digit_unfenced : (d : ℕ) (s : List ℕ) → is_digit d ≡ true → is_fence (d ∷ s) ≡ false
unfolding starts_with
digit_unfenced d s h = rw (digit_apart d b'`' h refl) refl

paragraph_unfenced : (l : List ℕ) → IsParagraph l → is_fence l ≡ false
paragraph_unfenced [] h = absurd h
paragraph_unfenced (c ∷ s) (d, b, (m1, (m2, (m3, (m4, (m5, (m6, _))))))) = m6

line_unfenced : (l : Line) → IsLine l → is_fence (line_text l) ≡ false
unfolding starts_with
line_unfenced (title t) h = refl
line_unfenced (subtitle t) h = refl
line_unfenced (section t) h = refl
line_unfenced (dash_item xs end) h = refl
line_unfenced (star_item xs end) h = refl
line_unfenced (numbered_item [] xs end) (p, _, _, _) = absurd (omega (arith, p))
line_unfenced (numbered_item (d ∷ ds) xs end) (p, h, _, _) =
    digit_unfenced d (ds ++ (b'.' ∷ b' ' ∷ line_of xs end)) h.0
line_unfenced empty h = refl
line_unfenced (text xs end) (h, _) = paragraph_unfenced (line_of xs end) h

section_of-IsSection : (p : Part) → IsPart p → IsSection (section_of p)
unfolding starts_with
section_of-IsSection (line l) h = (line_unfenced l h, tt)
section_of-IsSection (listing lang lines rest) h = (refl, (h, refl))

All-section_of : (ps : List Part) → All IsPart ps → All IsSection (map section_of ps)
All-section_of [] h = tt
All-section_of (p ∷ ps) (h, hs) = (section_of-IsSection p h, All-section_of ps hs)

all_lines-section_of : (ps : List Part) → all_lines (map section_of ps) ≡ document_lines ps
all_lines-section_of [] = refl
all_lines-section_of (line l ∷ ps) = ap (λ ls. line_text l ∷ ls) (all_lines-section_of ps)
all_lines-section_of (listing lang lines rest ∷ ps) =
    ap (λ ls. part_lines (listing lang lines rest) ++ ls) (all_lines-section_of ps)

draw-all_blocks :
    (ps : List Part)
    → All IsPart ps
    → map draw (all_blocks (map section_of ps)) ≡ map part_element ps
unfolding draw blocks_of
draw-all_blocks [] h = refl
draw-all_blocks (line l ∷ ps) (h, hs) =
    ap (λ e. e ∷ map draw (all_blocks (map section_of ps))) (draw_line l h)
    ∙ ap (λ es. line_element l ∷ es) (draw-all_blocks ps hs)
draw-all_blocks (listing lang lines rest ∷ ps) (h, hs) =
    ap (λ es. code_element (join_lines lines) (trim lang) ∷ es) (draw-all_blocks ps hs)

-- A document of one line at least, of headings, items, numbered steps, empty lines and paragraphs, and
-- of closed code sections, is drawn part by part in its order: a heading with its level and its text as
-- it is, an item, a step with its number, or a paragraph with its prose, bold and code texts, and a code
-- section with its lines and its trimmed language.
pub render_text-document :
    (ps : List Part)
    → All IsPart ps
    → 0 < length (document_lines ps)
    → All (Without new_line) (document_lines ps)
    → render_text (join_lines (document_lines ps)) ≡ map part_element ps
render_text-document ps h p n =
    let e = all_lines-section_of ps in
    ap (λ ls. render_text (join_lines ls)) (sym e)
    ∙ render_text-sections (map section_of ps) (All-section_of ps h)
        (subst (λ ls. 0 < length ls) (sym e) p) (subst (λ ls. All (Without new_line) ls) (sym e) n)
    ∙ draw-all_blocks ps h
