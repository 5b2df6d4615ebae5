-- ===== src/Chat/Inline/Segments.antt =====
-- `inlineMarkdown` of frontend/src/components/ChatDrawer.tsx: the parts make up the line, and a line
-- of prose with bold and code pieces shows those.
use mathlib.Core.List.{append_assoc, append-nil}
use drishtiscope_oss.Common.{
  ℕ, zero, suc, ◌+◌, ◌-◌, ◌<◌, ◌≡◌, refl, sym, ap, ◌∙◌, true, false, List, [], ◌∷◌, ◌++◌, map,
  length, length-append, take, drop, All, arith, nat_eq,
}
use drishtiscope_oss.Common.Text.{starts_with, same_codes_iff}
use drishtiscope_oss.Chat.Inline.{
  Span, strong, code, plain, stars, backtick, run_length, marked_length, match_length, split_from,
  split_parts, ends_with, styled, inline_markdown,
}

module _ {ℓ} {A : Type ℓ} where
  take-append : (xs ys : List A) → take (length xs) (xs ++ ys) ≡ xs
  take-append [] ys = refl
  take-append (x ∷ xs) ys = ap (λ zs. x ∷ zs) (take-append xs ys)

  drop-append : (xs ys : List A) → drop (length xs) (xs ++ ys) ≡ ys
  drop-append [] ys = refl
  drop-append (x ∷ xs) ys = drop-append xs ys

  append-take : (n : ℕ) (xs : List A) → take n xs ++ drop n xs ≡ xs
  append-take zero xs = refl
  append-take (suc n) [] = refl
  append-take (suc n) (x ∷ xs) = ap (λ zs. x ∷ zs) (append-take n xs)

abbrev pub concat : List (List ℕ) → List ℕ
concat [] = []
concat (p ∷ ps) = p ++ concat ps

split_from-concat :
    (skip : ℕ) (before s : List ℕ) → concat (split_from skip before s) ≡ before ++ drop skip s
unfolding split_from
split_from-concat zero before [] = refl
split_from-concat (suc skip) before [] = refl
split_from-concat (suc skip) before (c ∷ s) = split_from-concat skip before s
split_from-concat zero before (c ∷ s) =
    go (match_length (c ∷ s)) (split_from-concat 0 (before ++ (c ∷ [])) s)
      (λ n. split_from-concat n [] s)
  where
    go :
        (n : ℕ)
        → concat (split_from 0 (before ++ (c ∷ [])) s) ≡ (before ++ (c ∷ [])) ++ s
        → ((k : ℕ) → concat (split_from k [] s) ≡ drop k s)
        → concat (elim n [
          | zero ↦ split_from 0 (before ++ (c ∷ [])) s
          | suc k ↦ before ∷ take (suc k) (c ∷ s) ∷ split_from k [] s
        ])
          ≡ before ++ (c ∷ s)
    go zero h hs = h ∙ append_assoc before (c ∷ []) s
    go (suc n) h hs =
        ap (λ t. before ++ (c ∷ (take n s ++ t))) (hs n)
        ∙ ap (λ t. before ++ (c ∷ t)) (append-take n s)

drop_sub : (s t : List ℕ) → drop (length (s ++ t) - length t) (s ++ t) ≡ t
drop_sub s t = ap (λ n. drop n (s ++ t)) (omega (arith, length-append s t)) ∙ drop-append s t

-- The parts that a line is split into make up the line.
pub split_parts-concat : (text : List ℕ) → concat (split_parts text) ≡ text
unfolding split_parts
split_parts-concat text = split_from-concat 0 [] text

abbrev pub Without : ℕ → List ℕ → Type 0
Without c s = All (λ a. nat_eq a c ≡ false) s

run_length-append : (c : ℕ) (b t : List ℕ) → Without c b → run_length c (b ++ (c ∷ t)) ≡ length b
run_length-append c [] t h = ground arith
run_length-append c (a ∷ b) t h = ground (arith, run_length-append c b t)

skip_lem : (xs before t : List ℕ) → split_from (length xs) before (xs ++ t) ≡ split_from 0 before t
unfolding split_from
skip_lem [] before t = refl
skip_lem (x ∷ xs) before t = skip_lem xs before t

-- A match is a part of its own, and ends the part before it.
split_match :
    (before : List ℕ) (c : ℕ) (m t : List ℕ)
    → match_length ((c ∷ m) ++ t) ≡ suc (length m)
    → split_from 0 before ((c ∷ m) ++ t) ≡ before ∷ (c ∷ m) ∷ split_from 0 [] t
unfolding split_from
split_match before c m t h =
    ap
      (λ k. elim k [
        | zero ↦ split_from 0 (before ++ (c ∷ [])) (m ++ t)
        | suc n ↦ before ∷ take (suc n) (c ∷ (m ++ t)) ∷ split_from n [] (m ++ t)
      ])
      h
    ∙ ap (λ p. before ∷ (c ∷ p) ∷ split_from (length m) [] (m ++ t)) (take-append m t)
    ∙ ap (λ r. before ∷ (c ∷ m) ∷ r) (skip_lem m [] t)

unmarked :
    (a : ℕ) (s : List ℕ) → nat_eq a b'*' ≡ false → nat_eq a b'`' ≡ false → match_length (a ∷ s) ≡ 0
unfolding match_length marked_length starts_with
unmarked a s h k = ground arith

-- Prose without markers goes to the part that is being read.
split_prose :
    (before p t : List ℕ)
    → Without b'*' p
    → Without b'`' p
    → split_from 0 before (p ++ t) ≡ split_from 0 (before ++ p) t
unfolding split_from
split_prose before [] t h k = ap (λ b. split_from 0 b t) (sym (append-nil before))
split_prose before (a ∷ p) t h k =
    ap
      (λ n. elim n [
        | zero ↦ split_from 0 (before ++ (a ∷ [])) (p ++ t)
        | suc n ↦ before ∷ take (suc n) (a ∷ (p ++ t)) ∷ split_from n [] (p ++ t)
      ])
      (unmarked a (p ++ t) h.0 k.0)
    ∙ split_prose (before ++ (a ∷ [])) p t h.1 k.1
    ∙ ap (λ b. split_from 0 b t) (append_assoc before (a ∷ []) p)

bold_match :
    (b t : List ℕ)
    → Without b'*' b
    → 0 < length b
    → match_length (stars ++ (b ++ (stars ++ t))) ≡ length b + 4
unfolding match_length marked_length starts_with
bold_match b t h p =
    rw (run_length-append b'*' b (b'*' ∷ t) h, drop-append b (stars ++ t)) ground arith

code_match :
    (b t : List ℕ)
    → Without b'`' b
    → 0 < length b
    → match_length (backtick ++ (b ++ (backtick ++ t))) ≡ length b + 2
unfolding match_length marked_length starts_with
code_match b t h p = rw (run_length-append b'`' b t h, drop-append b (backtick ++ t)) ground arith

ends_with-append : (s t : List ℕ) → ends_with (s ++ t) t ≡ true
ends_with-append s t = ground (arith, length-append s t, drop_sub s t, (same_codes_iff t t).1 refl)

take_sub : (n : ℕ) (b t : List ℕ) → n ≡ length b → take n (b ++ t) ≡ b
take_sub n b t h = ap (λ k. take k (b ++ t)) h ∙ take-append b t

styled_bold : (b : List ℕ) → styled (stars ++ (b ++ stars)) ≡ strong b
unfolding styled starts_with
styled_bold b =
    rw (ends_with-append (stars ++ b) stars)
      (ap strong (take_sub _ b stars (omega (arith, length-append b stars))))

styled_code : (b : List ℕ) → styled (backtick ++ (b ++ backtick)) ≡ code b
unfolding styled starts_with
styled_code b =
    rw (ends_with-append (backtick ++ b) backtick)
      (ap code (take_sub _ b backtick (omega (arith, length-append b backtick))))

styled_prose : (p : List ℕ) → Without b'*' p → Without b'`' p → styled p ≡ plain p
unfolding styled starts_with
styled_prose [] h k = refl
styled_prose (a ∷ p) h k = ground arith

split_end : (p : List ℕ) → split_from 0 p [] ≡ p ∷ []
unfolding split_from
split_end p = refl

-- A piece of a line: prose, and a bold or code text after it.
pub data Segment : Type 0 where
  bold coded : List ℕ → List ℕ → Segment

-- How it is written.
abbrev pub source : Segment → List ℕ
source (bold p b) = p ++ ((stars ++ (b ++ stars)))
source (coded p b) = p ++ ((backtick ++ (b ++ backtick)))

abbrev pub line_of : List Segment → List ℕ → List ℕ
line_of [] end = end
line_of (x ∷ xs) end = source x ++ line_of xs end

-- How it is shown.
abbrev pub shown : List Segment → List ℕ → List Span
shown [] end = plain end ∷ []
shown (bold p b ∷ xs) end = plain p ∷ strong b ∷ shown xs end
shown (coded p b ∷ xs) end = plain p ∷ code b ∷ shown xs end

abbrev pub IsProse : List ℕ → Type 0
IsProse p = Without b'*' p × Without b'`' p

abbrev pub IsSegment : Segment → Type 0
IsSegment (bold p b) = IsProse p × Without b'*' b × (0 < length b)
IsSegment (coded p b) = IsProse p × Without b'`' b × (0 < length b)

-- A piece that begins a line gives two parts.
split_bold :
    (p b t : List ℕ)
    → IsSegment (bold p b)
    → split_from 0 [] (source (bold p b) ++ t) ≡ p ∷ (stars ++ (b ++ stars)) ∷ split_from 0 [] t
split_bold p b t ((h, k), f, q) =
    ap (split_from 0 []) (append_assoc p (stars ++ (b ++ stars)) t)
    ∙ split_prose [] p ((stars ++ (b ++ stars)) ++ t) h k
    ∙ split_match p b'*' (b'*' ∷ (b ++ stars)) t (
        ap match_length (ap (λ u. stars ++ u) (append_assoc b stars t))
        ∙ bold_match b t f q
        ∙ omega (arith, length-append b stars))

split_coded :
    (p b t : List ℕ)
    → IsSegment (coded p b)
    → split_from 0 [] (source (coded p b) ++ t)
      ≡ p ∷ (backtick ++ (b ++ backtick)) ∷ split_from 0 [] t
split_coded p b t ((h, k), f, q) =
    ap (split_from 0 []) (append_assoc p (backtick ++ (b ++ backtick)) t)
    ∙ split_prose [] p ((backtick ++ (b ++ backtick)) ++ t) h k
    ∙ split_match p b'`' (b ++ backtick) t (
        ap match_length (ap (λ u. backtick ++ u) (append_assoc b backtick t))
        ∙ code_match b t f q
        ∙ omega (arith, length-append b backtick))

-- A line of prose pieces without stars and backticks, each followed by a bold text without stars or a
-- code text without backticks, neither empty, and of prose at the end, is shown as these pieces in
-- their order, the bold and code texts without their markers.
pub inline-segments :
    (xs : List Segment) (end : List ℕ)
    → All IsSegment xs
    → IsProse end
    → inline_markdown (line_of xs end) ≡ shown xs end
unfolding inline_markdown split_parts
inline-segments [] end h e =
    ap (λ s. map styled (split_from 0 [] s)) (sym (append-nil end))
    ∙ ap (map styled) (split_prose [] end [] e.0 e.1)
    ∙ ap (λ s. map styled s) (split_end end)
    ∙ ap (λ s. s ∷ []) (styled_prose end e.0 e.1)
inline-segments (bold p b ∷ xs) end (h, hs) e =
    rw
      (
        split_bold p b (line_of xs end) h,
        styled_prose p h.0.0 h.0.1,
        styled_bold b,
        inline-segments xs end hs e,
      )
      refl
inline-segments (coded p b ∷ xs) end (h, hs) e =
    rw
      (
        split_coded p b (line_of xs end) h,
        styled_prose p h.0.0 h.0.1,
        styled_code b,
        inline-segments xs end hs e,
      )
      refl
