-- ===== src/Iproto/Errors/Message.antt =====
-- include/tarantool_connector/detail/iproto_typedefs.h: `TarantoolErrorCategory::message`.
mod Below70
mod Below140
mod Below210
mod Below281
use Prim.Native.String.{String}
use tntpp.Common.{ℕ, ◌≢◌, ◌≡◌, ◌<◌, ◌≤◌, refl, ap, arith, Option, none, some}
use tntpp.Iproto.Errors.Code.{TarantoolError, error_code, unknown}
use tntpp.Iproto.Errors.Cast.{int_to_tarantool_error, error_code-int_to_tarantool_error}
use Below70.{text_below_70}
use Below140.{text_below_140}
use Below210.{text_below_210}
use Below281.{text_below_281}

-- The text of a case, or else what follows.
abbrev pub or_else : Option String → String → String
or_else none t = t
or_else (some t) _ = t

-- The text of each enumerator.
unfoldable pub text : TarantoolError → String
unfolding text_below_70 text_below_140 text_below_210 text_below_281
text e =
    or_else (text_below_70 e) (
      or_else (text_below_140 e)
        (or_else (text_below_210 e) (or_else (text_below_281 e) "Unknown")))

-- `message(ev)`, for an `ev` that is not negative.
unfoldable pub message : ℕ → String
message ev = text (int_to_tarantool_error ev)

text-eq-unknown : (e : TarantoolError) → text e ≡ "Unknown" → e ≡ unknown
unfolding text
text-eq-unknown unknown h = refl
text-eq-unknown _ h = cc

-- The value of an error other than the unknown one never reads "Unknown".
pub message-ne-unknown : (ev : ℕ) → 0 < ev → ev ≤ 280 → message ev ≢ "Unknown"
unfolding message error_code
message-ne-unknown ev lo hi e = absurd (
    ground (
      arith,
      error_code-int_to_tarantool_error ev,
      ap error_code (text-eq-unknown (int_to_tarantool_error ev) e),
    ))
