-- ===== src/Response.antt =====
-- include/tarantool_connector/detail/tntpp_iproto_framing.h: what a client reads off an
-- `IprotoFrame`. The bytes of the frame's body are an argument, since its buffer is shared.
pub mod Entries
pub mod Received
mod Tests
use tntpp.Common.{
  ℕ, Bool, true, false, not, Option, none, some, List, [], ◌∷◌, if◌then◌else◌, ◌>>=◌,
}
use tntpp.Errc.{ErrorCode, tarantool, protocol_error}
use tntpp.Msgpack.{Msgpack}
use tntpp.Iproto.Types.{FieldType, data_field, error_24, int_to_field_type}
use tntpp.Iproto.Errors.Code
use tntpp.Iproto.Header.{MessageHeader, is_error}
use tntpp.Iproto.Header

-- `get_error_code`.
unfoldable pub get_error_code : MessageHeader → Option ErrorCode
unfolding is_error
get_error_code h = if is_error h then Header.get_error_code h else some (tarantool Code.unknown)

-- How `as` without an error code ends: with a value, by a thrown `system_error` with its code, by
-- another exception, or by a failed assertion.
pub data Outcome (A : Type 0) : Type 0 where
  returns : A → Outcome A
  throws_system : Option ErrorCode → Outcome A
  throws_other : Outcome A
  aborts : Outcome A

module _ (c : Msgpack) where
  open c use {Object, unpack, as_map, as_uint, to_string}

  -- One entry, and what the rest of the loop gives. `none` is an exception, which ends the program
  -- as the function is `noexcept`.
  unfoldable pub error_in : Option FieldType → Object → Option (List ℕ) → Option (List ℕ)
  error_in (some error_24) v rest = to_string v
  error_in _ v rest = rest

  unfoldable pub error_string : List (Object × Object) → Option (List ℕ)
  unfolding error_in
  error_string [] = some []
  error_string ((k, v) ∷ kvs) =
      let rest = error_string kvs in
      elim (as_uint k) [ none ↦ some [] | some n ↦ error_in (int_to_field_type n) v rest ]

  unfoldable pub error_string_of : Object → Option (List ℕ)
  unfolding error_string
  error_string_of o = elim (as_map o) [ none ↦ some [] | some kvs ↦ error_string kvs ]

  -- `get_error_string`; `none` also stands for the failed assertion.
  unfoldable pub get_error_string : MessageHeader → List ℕ → Option (List ℕ)
  unfolding error_string_of
  get_error_string h body = if is_error h then (unpack body >>= λ p. error_string_of p.0) else none

  -- `read` is msgpack's `convert` to the caller's types; `none` is a `type_error`.
  module _ {A : Type 0} (read : Object → Option A) where
    unfoldable pub converted : Option A → Outcome A
    converted none = throws_other
    converted (some a) = returns a

    unfoldable pub data_in : Option FieldType → Object → Outcome A → Outcome A
    unfolding converted
    data_in (some data_field) v rest = converted (read v)
    data_in _ v rest = rest

    unfoldable pub find_data : List (Object × Object) → Outcome A
    unfolding data_in
    find_data [] = aborts
    find_data ((k, v) ∷ kvs) =
        let rest = find_data kvs in
        elim (as_uint k) [ none ↦ throws_other | some n ↦ data_in (int_to_field_type n) v rest ]

    unfoldable pub data_of : Option (Object × ℕ) → Outcome A
    unfolding find_data
    data_of none = throws_other
    data_of (some (o, offset)) = elim (as_map o) [ none ↦ throws_other | some kvs ↦ find_data kvs ]

    -- `as()`.
    unfoldable pub as_value : MessageHeader → List ℕ → Outcome A
    unfolding data_of get_error_code
    as_value h body = if is_error h then throws_system (get_error_code h) else data_of (unpack body)

    -- The caller's error code and the value, by default `none`, after the exceptions were caught.
    unfoldable pub caught : Option ErrorCode → Outcome A → Option (Option ErrorCode × Option A)
    caught ec (returns a) = some (ec, some a)
    caught ec (throws_system e) = some (e, none)
    caught ec throws_other = some (some protocol_error, none)
    caught ec aborts = none

    -- `as(ec)`; `none` is the failed assertion.
    unfoldable pub as_value_ec :
        Option ErrorCode → MessageHeader → List ℕ → Option (Option ErrorCode × Option A)
    unfolding caught as_value get_error_code
    as_value_ec ec h body =
        if is_error h then some (get_error_code h, none) else caught ec (as_value h body)
