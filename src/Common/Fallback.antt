-- ===== src/Common/Fallback.antt =====
-- A field of a value that may be missing, with what is taken in its place: `x?.f ?? d`, and `x?.f || d`,
-- which also passes over 0 and the empty text.
use Prim.Native.Nat.{ℕ}
use Prim.Native.String.{String}
use mathlib.Core.Option.{Option, none, some}
use text.Mathlib.Text.{◌==◌}
use drishtiscope_oss.Common.Tests.{nat_eq, if◌then◌else◌}

-- `x?.f ?? d`
abbrev pub field_else {ℓ κ} : {A : Type ℓ} {B : Type κ} → (A → B) → Option A → B → B
field_else f none d = d
field_else f (some a) d = f a

-- `n || d`
abbrev pub or_number : ℕ → ℕ → ℕ
or_number n d = if nat_eq n 0 then d else n

-- `s || d`
abbrev pub or_text : String → String → String
or_text s d = if s == "" then d else s

-- `x?.f || d`, for a number
abbrev pub field_or {ℓ} : {A : Type ℓ} → (A → ℕ) → Option A → ℕ → ℕ
field_or f x d = or_number (field_else f x 0) d

-- `x?.f || d`, for a text
abbrev pub text_or {ℓ} : {A : Type ℓ} → (A → String) → Option A → String → String
text_or f x d = or_text (field_else f x "") d
