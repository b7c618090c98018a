-- ===== src/Iproto/Types.antt =====
-- include/tarantool_connector/detail/iproto_typedefs.h: request types, field types and their
-- numbers. A `switch` over the enumerators is a search of the list of its cases.
use Prim.Native.String.{String}
use tntpp.Common.{
  ℕ, ◌-◌, ◌^◌, ◌≡◌, refl, ◌⊎◌, inr, Bool, ◌&&◌, Option, none, some, List, [], ◌∷◌, arith, leb, ◌==◌,
  if◌then◌else◌, ◌↔◌,
}

pub data RequestType : Type 0 where
  ok chunk type_error_begin type_error_end : RequestType
  select insert replace update delete auth eval upsert call nop ping id : RequestType
  unknown : RequestType

unfoldable pub request_number : RequestType → ℕ
request_number RequestType.ok = 0x00
request_number chunk = 0x80
request_number type_error_begin = 0x8000
request_number type_error_end = 0x8999
request_number select = 0x01
request_number insert = 0x02
request_number replace = 0x03
request_number update = 0x04
request_number delete = 0x05
request_number auth = 0x07
request_number eval = 0x08
request_number upsert = 0x09
request_number call = 0x0a
request_number nop = 0x0c
request_number ping = 0x40
request_number id = 0x49
request_number unknown = 2 ^ 64 - 1

abbrev request_cases : List RequestType
request_cases =
    RequestType.ok ∷ chunk ∷ type_error_begin ∷ type_error_end ∷ select ∷ insert ∷ replace ∷ update
    ∷ delete ∷ auth ∷ eval ∷ upsert ∷ call ∷ nop ∷ ping ∷ id ∷ unknown ∷ []

unfoldable pub req_type_to_str : RequestType → String
req_type_to_str RequestType.ok = "Ok"
req_type_to_str type_error_begin = "TypeError"
req_type_to_str type_error_end = "TypeError"
req_type_to_str chunk = "Chunk"
req_type_to_str select = "Select"
req_type_to_str insert = "Insert"
req_type_to_str replace = "Replace"
req_type_to_str update = "Update"
req_type_to_str delete = "Delete"
req_type_to_str auth = "Auth"
req_type_to_str eval = "Eval"
req_type_to_str upsert = "Upsert"
req_type_to_str call = "Call"
req_type_to_str nop = "Nop"
req_type_to_str ping = "Ping"
req_type_to_str id = "Id"
req_type_to_str unknown = "Unknown"

-- The first case with the number, else the default.
abbrev switch_request : ℕ → List RequestType → RequestType
switch_request n [] = unknown
switch_request n (t ∷ ts) = if request_number t == n then t else switch_request n ts

unfoldable pub int_to_req_type : ℕ → RequestType
unfolding request_number
int_to_req_type n = switch_request n request_cases

unfoldable pub is_error_req_type : ℕ → Bool
unfolding request_number
is_error_req_type n =
    leb (request_number type_error_begin) n && leb n (request_number type_error_end)

int_to_req_type-request_number : (t : RequestType) → int_to_req_type (request_number t) ≡ t
unfolding int_to_req_type
int_to_req_type-request_number RequestType.ok = refl
int_to_req_type-request_number _ = refl

switch_request-number :
    (n : ℕ) (ts : List RequestType)
    → (request_number (switch_request n ts) ≡ n) ⊎ (switch_request n ts ≡ unknown)
switch_request-number n [] = inr refl
switch_request-number n (t ∷ ts) = ground (arith, switch_request-number n ts)

request_number-int_to_req_type :
    (n : ℕ) → (request_number (int_to_req_type n) ≡ n) ⊎ (int_to_req_type n ≡ unknown)
unfolding int_to_req_type
request_number-int_to_req_type n = switch_request-number n request_cases

-- Every request type is read back from its number, and a number that is not read as `Unknown` is the
-- number of the type it is read as.
pub int_to_req_type_lem :
    (t : RequestType) (n : ℕ)
    → (int_to_req_type (request_number t) ≡ t)
      × ((request_number (int_to_req_type n) ≡ n) ⊎ (int_to_req_type n ≡ unknown))
int_to_req_type_lem t n = (int_to_req_type-request_number t, request_number-int_to_req_type n)

pub data FieldType : Type 0 where
  version features sync schema_version timestamp space_id index_id limit offset : FieldType
  iterator request_type key data_field error_24 stream_id tuple function_name : FieldType
  username expr after_position after_tuple fetch_position : FieldType

-- `Data`, here `data_field`, is 0x30, and `Error_24` follows it.
unfoldable pub field_number : FieldType → ℕ
field_number version = 0x54
field_number features = 0x55
field_number sync = 0x01
field_number schema_version = 0x05
field_number timestamp = 0x04
field_number space_id = 0x10
field_number index_id = 0x11
field_number limit = 0x12
field_number offset = 0x13
field_number iterator = 0x14
field_number request_type = 0x00
field_number key = 0x20
field_number data_field = 0x30
field_number error_24 = 0x31
field_number stream_id = 0x0a
field_number tuple = 0x21
field_number function_name = 0x22
field_number username = 0x23
field_number expr = 0x27
field_number after_position = 0x2e
field_number after_tuple = 0x2f
field_number fetch_position = 0x1f

abbrev field_cases : List FieldType
field_cases =
    version ∷ features ∷ sync ∷ schema_version ∷ timestamp ∷ space_id ∷ index_id ∷ limit ∷ offset
    ∷ iterator ∷ request_type ∷ key ∷ data_field ∷ error_24 ∷ stream_id ∷ tuple ∷ function_name
    ∷ username ∷ expr ∷ after_position ∷ after_tuple ∷ fetch_position ∷ []

abbrev switch_field : ℕ → List FieldType → Option FieldType
switch_field n [] = none
switch_field n (f ∷ fs) = if field_number f == n then some f else switch_field n fs

unfoldable pub int_to_field_type : ℕ → Option FieldType
unfolding field_number
int_to_field_type n = switch_field n field_cases

pub int_to_field_type-field_number : (f : FieldType) → int_to_field_type (field_number f) ≡ some f
unfolding int_to_field_type
int_to_field_type-field_number version = refl
int_to_field_type-field_number _ = refl

switch_field-number :
    (n : ℕ) (fs : List FieldType) (f : FieldType) → switch_field n fs ≡ some f → field_number f ≡ n
switch_field-number n [] f e = cc
switch_field-number n (g ∷ fs) f e = ground (arith, switch_field-number n fs f)

pub field_number-int_to_field_type :
    (n : ℕ) (f : FieldType) → int_to_field_type n ≡ some f → field_number f ≡ n
unfolding int_to_field_type
field_number-int_to_field_type n f e = switch_field-number n field_cases f e

-- A number is read as a field exactly if it is the number of that field.
pub int_to_field_type_iff :
    (n : ℕ) (f : FieldType) → (int_to_field_type n ≡ some f) ↔ (n ≡ field_number f)
int_to_field_type_iff n f = (
  (λ e. omega (arith, field_number-int_to_field_type n f e)),
  (λ e. rw e (int_to_field_type-field_number f)),
)
