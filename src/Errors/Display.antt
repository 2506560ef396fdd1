-- ===== src/Errors/Display.antt =====
-- src/parser/errors.rs: `Display` of the error types, and `source`.
-- The recursion of the formatter takes fuel: `none` is a formatter that has not returned yet.
use Prim.Native.String
use bitcoin_query_py.Common.{
  ℕ, zero, suc, String, Option, none, some, ◌≡◌, refl, ◌↔◌, Bool, true, false, arith, if◌then◌else◌,
}
use mathlib.Core.Option
use text.Mathlib.Text.{◌==◌}
use bitcoin_query_py.Errors.{
  IoError, OpErrorKind, no_kind, io_error, utf8_error, runtime_error, poison_error, send_error,
  OpError,
}

-- What `source` points at: an error of the standard library, or a kind of this crate.
pub data Cause : Type 0 where
  io : IoError → Cause
  utf8 : String → Cause
  kind : OpErrorKind → Cause

unfoldable pub source : OpErrorKind → Option Cause
source (io_error e) = some (io e)
source (utf8_error e) = some (utf8 e)
source poison_error = some (kind poison_error)
source send_error = some (kind send_error)
source no_kind = none
source runtime_error = none

-- `OpError::cause`, the source of its kind.
unfoldable pub cause : OpError → Option Cause
unfolding source
cause e = source e.kind

-- The kinds whose formatter calls itself on the same value.
abbrev pub SelfFormatting : OpErrorKind → Type 0
SelfFormatting no_kind = ⊥
SelfFormatting (io_error _) = ⊥
SelfFormatting (utf8_error _) = ⊥
SelfFormatting runtime_error = Unit
SelfFormatting poison_error = Unit
SelfFormatting send_error = Unit

either-some : (b : Bool) (x y : String) → (s : String) × ((if b then some x else some y) ≡ some s)
either-some true x y = (x, refl)
either-some false x y = (y, refl)

none≠some : {o : Option String} {s : String} → o ≡ none → o ≡ some s → ⊥
none≠some p q = cc

module _ (io_text : IoError → String) where
  -- In the cases with `ref err @ …` the argument of `{}` is the value itself.
  unfoldable pub fmt_kind : ℕ → OpErrorKind → Option String
  fmt_kind zero k = none
  fmt_kind (suc fuel) (io_error e) = some (String.◌++◌ "I/O Error: " (io_text e))
  fmt_kind (suc fuel) (utf8_error e) = some (String.◌++◌ "Utf8 Conversion: " e)
  fmt_kind (suc fuel) poison_error =
      Option.map (String.◌++◌ "Threading Error: ") (fmt_kind fuel poison_error)
  fmt_kind (suc fuel) send_error = Option.map (String.◌++◌ "Sync: ") (fmt_kind fuel send_error)
  fmt_kind (suc fuel) runtime_error =
      Option.map (String.◌++◌ "RuntimeError: ") (fmt_kind fuel runtime_error)
  fmt_kind (suc fuel) no_kind = some ""

  unfoldable pub fmt_error : ℕ → OpError → Option String
  unfolding fmt_kind
  fmt_error fuel e =
      let shown = fmt_kind fuel e.kind in
      if e.message == ""
      then shown
      else Option.map (λ k. String.◌++◌ e.message (String.◌++◌ " " k)) shown

  abbrev pub Returns : OpError → Type 0
  Returns e = (fuel : ℕ) × (s : String) × (fmt_error fuel e ≡ some s)

  fmt_kind-none : (fuel : ℕ) (k : OpErrorKind) → SelfFormatting k → fmt_kind fuel k ≡ none
  unfolding fmt_kind
  fmt_kind-none zero k h = refl
  fmt_kind-none (suc fuel) no_kind h = absurd h
  fmt_kind-none (suc fuel) (io_error e) h = absurd h
  fmt_kind-none (suc fuel) (utf8_error e) h = absurd h
  fmt_kind-none (suc fuel) runtime_error h = rw (fmt_kind-none fuel runtime_error h)
  fmt_kind-none (suc fuel) poison_error h = rw (fmt_kind-none fuel poison_error h)
  fmt_kind-none (suc fuel) send_error h = rw (fmt_kind-none fuel send_error h)

  fmt_kind-some : (k : OpErrorKind) → ¬ SelfFormatting k → (s : String) × (fmt_kind 1 k ≡ some s)
  unfolding fmt_kind
  fmt_kind-some no_kind h = (_, refl)
  fmt_kind-some (io_error e) h = (_, refl)
  fmt_kind-some (utf8_error e) h = (_, refl)
  fmt_kind-some runtime_error h = absurd (h tt)
  fmt_kind-some poison_error h = absurd (h tt)
  fmt_kind-some send_error h = absurd (h tt)

  fmt_error-none : (fuel : ℕ) (e : OpError) → fmt_kind fuel e.kind ≡ none → fmt_error fuel e ≡ none
  unfolding fmt_error
  fmt_error-none fuel e h = ground arith

  fmt_error-some :
      (fuel : ℕ) (e : OpError) {k : String}
      → fmt_kind fuel e.kind ≡ some k
      → (s : String) × (fmt_error fuel e ≡ some s)
  unfolding fmt_error
  fmt_error-some fuel e {k} h =
      rw h (either-some (e.message == "") k (String.◌++◌ e.message (String.◌++◌ " " k)))

  -- Formatting an error comes to an end exactly for the kinds none, `IoError` and `Utf8Error`,
  -- whatever its message is: on the other three the formatter calls itself for ever.
  pub fmt_error-Returns_iff : (e : OpError) → Returns e ↔ (¬ SelfFormatting e.kind)
  fmt_error-Returns_iff e = (
    λ (fuel, s, shown) stuck.
        absurd (none≠some (fmt_error-none fuel e (fmt_kind-none fuel e.kind stuck)) shown),
    λ plain.
        let (k, shown) = fmt_kind-some e.kind plain in
        let (s, whole) = fmt_error-some 1 e shown in (1, s, whole),
  )
