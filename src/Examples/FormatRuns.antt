-- ===== src/Examples/FormatRuns.antt =====
-- The formats and the spans of a line at concrete inputs.
use drishtiscope_oss.Common.{
  ℕ, ◌+◌, ◌*◌, ◌^◌, ◌≤◌, ◌<◌, ◌≡◌, refl, ◌⊎◌, some, List, [], ◌∷◌, length, arith,
}
use drishtiscope_oss.App.Number.{signed}
use drishtiscope_oss.Chat.Inline.{Span, inline_markdown}
use drishtiscope_oss.Chat.Inline.Segments.{Segment, bold, coded, line_of, shown, inline-segments}
use drishtiscope_oss.Common.Int.{pos, negsuc}
use drishtiscope_oss.Common.Text.{codes, drop_space}
use drishtiscope_oss.Format.{
  byte_unit, byte_figure, fmt_bytes, fmt_bps, fmt_pct, fmt_ns, fmt_rel_time, pad_pid,
}
use drishtiscope_oss.Format.Reading.{pad_pid-read}
use drishtiscope_oss.Format.Sizes.{byte_figure-IsNear}

formats_test :
    (fmt_bytes 1536 ≡ codes "1.5 KiB")
    × (fmt_bytes 1_048_575 ≡ codes "1024 KiB")
    × (fmt_bps 1_234_567 ≡ codes "1.23 Kbps")
    × (fmt_pct 12_350 ≡ codes "12.4%")
    × (fmt_ns 1_500 ≡ codes "1.5µs")
    × (fmt_rel_time (pos 7_260_000) ≡ codes "2h ago")
    × (fmt_rel_time (negsuc 0) ≡ codes "-1s ago")
    × (pad_pid 42 ≡ codes "    42")
unfolding fmt_bytes fmt_bps fmt_pct fmt_ns fmt_rel_time pad_pid
formats_test = (refl, refl, refl, refl, refl, refl, refl, refl)

byte_figure-IsNear_example :
    let i = byte_unit 1536 in
    let h = byte_figure 1536 in
    (2 * (h * 1024 ^ i) ≤ 200 * 1536 + 1024 ^ i)
    × (200 * 1536 < 2 * (h * 1024 ^ i) + 1024 ^ i)
    × (100 ≤ h)
    × ((h ≤ 102_400) ⊎ (i ≡ 4))
byte_figure-IsNear_example = byte_figure-IsNear 1536 (omega arith)

pad_pid-read_example :
    (6 ≤ length (pad_pid 42)) × (signed (drop_space (pad_pid 42)) ≡ some (pos 42))
pad_pid-read_example = pad_pid-read 42

abbrev advice : List Segment
advice = bold (codes "run ") (codes "now") ∷ coded (codes ", with ") (codes "ls *") ∷ []

abbrev last_words : List ℕ
last_words = codes "!"

advice_test : line_of advice last_words ≡ codes "run **now**, with `ls *`!"
advice_test = refl

inline-segments_example : inline_markdown (line_of advice last_words) ≡ shown advice last_words
inline-segments_example =
    inline-segments advice last_words
      (
        (
          ((refl, (refl, (refl, (refl, tt)))), (refl, (refl, (refl, (refl, tt))))),
          (refl, (refl, (refl, tt))),
          omega arith,
        ),
        (
          (
            (
              (refl, (refl, (refl, (refl, (refl, (refl, (refl, tt))))))),
              (refl, (refl, (refl, (refl, (refl, (refl, (refl, tt))))))),
            ),
            (refl, (refl, (refl, (refl, tt)))),
            omega arith,
          ),
          tt,
        ),
      )
      ((refl, tt), (refl, tt))

-- Stars between words are prose.
spaced_stars_test : inline_markdown (codes "2 ** 3") ≡ Span.plain (codes "2 ** 3") ∷ []
unfolding inline_markdown
spaced_stars_test = refl

-- A line that is only a marker is shown as a bold text without letters.
lone_stars_test : inline_markdown (codes "**") ≡ Span.strong [] ∷ []
unfolding inline_markdown
lone_stars_test = refl
