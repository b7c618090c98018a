-- ===== src/Response/Entries.antt =====
-- include/tarantool_connector/detail/tntpp_iproto_framing.h: which entry of a response is read.
use tntpp.Common.{
  ℕ, ◌+◌, ◌≡◌, refl, ap, ◌∙◌, ◌≢◌, true, false, Option, none, some, List, [], ◌∷◌, ◌++◌, arith,
  leb→le,
}
use tntpp.Errc.{ErrorCode, tarantool, protocol_error}
use tntpp.Msgpack.{Msgpack}
use tntpp.Iproto.Types.{
  FieldType, data_field, error_24, int_to_field_type, field_number, int_to_field_type_iff,
  is_error_req_type, request_number,
}
use tntpp.Iproto.Errors.Code.{TarantoolError, error_code}
use tntpp.Iproto.Header.{MessageHeader, is_error}
use tntpp.Iproto.RoundTrip.{get_error_code_lem, error_code-le}
use tntpp.Response.{
  Outcome, throws_system, throws_other, get_error_code, error_in, error_string, error_string_of,
  get_error_string, converted, data_in, find_data, data_of, as_value, caught, as_value_ec,
}

is_error-error_code : (e : TarantoolError) → is_error_req_type (0x8000 + error_code e) ≡ true
unfolding is_error_req_type request_number
is_error-error_code e = ground (arith, leb→le (error_code e) 280 (error_code-le e))

module _ (c : Msgpack) where
  open c use {Object, unpack, as_map, as_uint, to_string}

  -- The keys are positive integers other than `n`.
  abbrev pub Others : ℕ → List (Object × Object) → Type 0
  Others n [] = Unit
  Others n ((k, v) ∷ kvs) = ((m : ℕ) × (as_uint k ≡ some m) × (m ≢ n)) × Others n kvs

  error_in-other :
      (f : Option FieldType) (v : Object) (rest : Option (List ℕ))
      → f ≢ some error_24
      → error_in c f v rest ≡ rest
  unfolding error_in
  error_in-other none v rest ne = refl
  error_in-other (some error_24) v rest ne = absurd (ne refl)
  error_in-other (some _) v rest ne = refl

  not_field : (m : ℕ) (f : FieldType) → m ≢ field_number f → int_to_field_type m ≢ some f
  not_field m f ne e = ne ((int_to_field_type_iff m f).0 e)

  error_string-Others :
      (before after : List (Object × Object))
      → Others (field_number error_24) before
      → error_string c (before ++ after) ≡ error_string c after
  unfolding error_string
  error_string-Others [] after o = refl
  error_string-Others ((k, v) ∷ before) after ((m, e, ne), o) =
      rw (e, error_string)
        (error_in-other (int_to_field_type m) v _ (not_field m error_24 ne)
          ∙ error_string-Others before after o)

  -- For an error response whose body is a map in which an entry with the key of `Error_24`, 0x31,
  -- stands behind entries with other positive integers as keys, `get_error_string` is the string
  -- of that entry, known and unknown keys before it being skipped.
  pub get_error_string_lem :
      (h : MessageHeader) (body : List ℕ) (o key v : Object) (offset : ℕ)
      (before after : List (Object × Object))
      → is_error h ≡ true
      → unpack body ≡ some (o, offset)
      → as_map o ≡ some (before ++ (key, v) ∷ after)
      → Others 0x31 before
      → as_uint key ≡ some 0x31
      → get_error_string c h body ≡ to_string v
  unfolding get_error_string error_string_of error_string error_in field_number int_to_field_type
  get_error_string_lem h body o key v offset before after i u m others k =
      rw (i, u, get_error_string, m, error_string_of)
        (error_string-Others before ((key, v) ∷ after) others
          ∙ ap
              (λ r. elim r [
                | none ↦ some []
                | some n ↦ error_in c (int_to_field_type n) v (error_string c after)
              ])
              k)

  module _ {A : Type 0} (read : Object → Option A) where
    data_in-other :
        (f : Option FieldType) (v : Object) (rest : Outcome A)
        → f ≢ some data_field
        → data_in c read f v rest ≡ rest
    unfolding data_in
    data_in-other none v rest ne = refl
    data_in-other (some data_field) v rest ne = absurd (ne refl)
    data_in-other (some _) v rest ne = refl

    find_data-Others :
        (before after : List (Object × Object))
        → Others (field_number data_field) before
        → find_data c read (before ++ after) ≡ find_data c read after
    unfolding find_data
    find_data-Others [] after o = refl
    find_data-Others ((k, v) ∷ before) after ((m, e, ne), o) =
        rw (e, find_data)
          (data_in-other (int_to_field_type m) v _ (not_field m data_field ne)
            ∙ find_data-Others before after o)

    -- What `as(ec)` gives for the object under the data: its value with the caller's error code
    -- as it was, or a protocol error.
    abbrev pub value_or_error : Option ErrorCode → Option A → Option (Option ErrorCode × Option A)
    value_or_error ec none = some (some protocol_error, none)
    value_or_error ec (some a) = some (ec, some a)

    find_data-found :
        (key v : Object) (before after : List (Object × Object))
        → Others 0x30 before
        → as_uint key ≡ some 0x30
        → find_data c read (before ++ (key, v) ∷ after) ≡ converted c read (read v)
    unfolding find_data data_in field_number int_to_field_type
    find_data-found key v before after others k =
        find_data-Others before ((key, v) ∷ after) others
        ∙ ap
            (λ r. elim r [
              | none ↦ throws_other
              | some n ↦ data_in c read (int_to_field_type n) v (find_data c read after)
            ])
            k

    caught-converted :
        (ec : Option ErrorCode) (r : Option A)
        → caught c read ec (converted c read r) ≡ value_or_error ec r
    unfolding caught converted
    caught-converted ec none = refl
    caught-converted ec (some a) = refl

    -- For a response that is no error and whose body is a map in which an entry with the key of
    -- `Data`, 0x30, stands behind entries with other positive integers as keys, `as(ec)` converts
    -- that entry; it leaves the error code that the caller passed as it was if this succeeds, and
    -- sets a protocol error if not. No assertion fails.
    pub as_value_ec-data :
        (ec : Option ErrorCode) (h : MessageHeader) (body : List ℕ) (o key v : Object) (offset : ℕ)
        (before after : List (Object × Object))
        → is_error h ≡ false
        → unpack body ≡ some (o, offset)
        → as_map o ≡ some (before ++ (key, v) ∷ after)
        → Others 0x30 before
        → as_uint key ≡ some 0x30
        → as_value_ec c read ec h body ≡ value_or_error ec (read v)
    unfolding as_value_ec as_value data_of
    as_value_ec-data ec h body o key v offset before after i u m others k =
        rw (i, as_value_ec, u, m, data_of, find_data-found key v before after others k)
          (caught-converted ec (read v))

    -- For the response to a failed request, of type 0x8000 plus the value of an error of the server,
    -- `as(ec)` sets that error, whatever the body is, and `as()` throws it.
    pub as_value_ec-error :
        (ec : Option ErrorCode) (h : MessageHeader) (e : TarantoolError) (body : List ℕ)
        → (as_value_ec c read ec (record h { request_type = 0x8000 + error_code e }) body
            ≡ some (some (tarantool e), none))
          × (as_value c read (record h { request_type = 0x8000 + error_code e }) body
              ≡ throws_system (some (tarantool e)))
    unfolding as_value_ec as_value get_error_code
    as_value_ec-error ec h e body =
        let code = (get_error_code_lem h e 0 (omega arith)).0 in
        (rw (is_error-error_code e, code) refl, rw (is_error-error_code e, code) refl)
