-- ===== src/Iproto/Errors/Message/Below210.antt =====
-- include/tarantool_connector/detail/iproto_typedefs.h: `TarantoolErrorCategory::message`, the cases
-- of the enumerators from 140 to 209.
use Prim.Native.String.{String}
use tntpp.Common.{Option, none, some}
use tntpp.Iproto.Errors.Code.{
  TarantoolError, wrong_dd_version, wrong_space_format, create_sequence, alt_sequence,
  drop_sequence, no_such_sequence, sequence_exists, sequence_overflow, no_such_index_name,
  space_field_is_duplicate, cant_create_collation, wrong_collation_options, nullable_primary,
  no_such_field_name_in_space, transaction_yield, no_such_group, sql_bind_value, sql_bind_type,
  sql_bind_parameter_max, sql_execute, update_decimal_overflow, sql_bind_not_found, action_mismatch,
  view_missing_sql, foreign_key_constraint, no_such_module, no_such_collation, create_fk_constraint,
  drop_fk_constraint, no_such_constraint, constraint_exists, sql_type_mismatch, rowid_overflow,
  drop_collation, illegal_collation_mix, sql_no_such_pragma, sql_cant_resolve_field,
  index_exists_in_space, inconsistent_types, sql_syntax_with_pos, sql_stack_overflow,
  sql_select_wildcard, sql_statement_empty, sql_keyword_is_reserved, sql_syntax_near_token,
  sql_unknown_token, sql_parse_generic, sql_analyze_argument, sql_column_count_max, hex_literal_max,
  int_literal_max, sql_parse_limit, index_def_unsupported, ck_def_unsupported,
  multikey_index_mismatch, create_ck_constraint, ck_constraint_failed, sql_column_count,
  func_index_func, func_index_format, func_index_parts, no_such_field_name, func_wrong_arg_count,
  bootstrap_readonly, sql_func_wrong_ret_count, func_invalid_return_type,
  sql_parse_generic_with_pos, replica_not_anon, cannot_register, session_setting_invalid_value,
}

unfoldable pub text_below_210 : TarantoolError → Option String
text_below_210 wrong_dd_version = some "Wrong _schema version: expected 'major.minor[.patch]'"
text_below_210 wrong_space_format = some "Wrong space format field %u: %s"
text_below_210 create_sequence = some "Failed to create sequence '%s': %s"
text_below_210 alt_sequence = some "Can't modify sequence '%s': %s"
text_below_210 drop_sequence = some "Can't drop sequence '%s': %s"
text_below_210 no_such_sequence = some "Sequence '%s' does not exist"
text_below_210 sequence_exists = some "Sequence '%s' already exists"
text_below_210 sequence_overflow = some "Sequence '%s' has overflowed"
text_below_210 no_such_index_name = some "No index '%s' is defined in space '%s'"
text_below_210 space_field_is_duplicate = some "Space field '%s' is duplicate"
text_below_210 cant_create_collation = some "Failed to initialize collation: %s."
text_below_210 wrong_collation_options = some "Wrong collation options: %s"
text_below_210 nullable_primary = some "Primary index of space '%s' can not contain nullable parts"
text_below_210 no_such_field_name_in_space = some "Field '%s' was not found in space '%s' format"
text_below_210 transaction_yield = some "Transaction has been aborted by a fiber yield"
text_below_210 no_such_group = some "Replication group '%s' does not exist"
text_below_210 sql_bind_value = some "Bind value for parameter %s is out of range for type %s"
text_below_210 sql_bind_type = some "Bind value type %s for parameter %s is not supported"
text_below_210 sql_bind_parameter_max = some "SQL bind parameter limit reached: %d"
text_below_210 sql_execute = some "Failed to execute SQL statement: %s"
text_below_210 update_decimal_overflow =
    some "Decimal overflow when performing operation '%c' on field %s"
text_below_210 sql_bind_not_found = some "Parameter %s was not found in the statement"
text_below_210 action_mismatch =
    some "Field %s contains %s on conflict action, but %s in index parts"
text_below_210 view_missing_sql = some "Space declared as a view must have SQL statement"
text_below_210 foreign_key_constraint =
    some "Can not commit transaction: deferred foreign keys violations are not resolved"
text_below_210 no_such_module = some "Module '%s' does not exist"
text_below_210 no_such_collation = some "Collation '%s' does not exist"
text_below_210 create_fk_constraint = some "Failed to create foreign key constraint '%s': %s"
text_below_210 drop_fk_constraint = some "Failed to drop foreign key constraint '%s': %s"
text_below_210 no_such_constraint = some "Constraint '%s' does not exist in space '%s'"
text_below_210 constraint_exists = some "%s constraint '%s' already exists in space '%s'"
text_below_210 sql_type_mismatch = some "Type mismatch: can not convert %s to %s"
text_below_210 rowid_overflow = some "Rowid is overflowed: too many entries in ephemeral space"
text_below_210 drop_collation = some "Can't drop collation '%s': %s"
text_below_210 illegal_collation_mix = some "Illegal mix of collations"
text_below_210 sql_no_such_pragma = some "Pragma '%s' does not exist"
text_below_210 sql_cant_resolve_field = some "Can’t resolve field '%s'"
text_below_210 index_exists_in_space = some "Index '%s' already exists in space '%s'"
text_below_210 inconsistent_types = some "Inconsistent types: expected %s got %s"
text_below_210 sql_syntax_with_pos = some "Syntax error at line %d at or near position %d: %s"
text_below_210 sql_stack_overflow = some "Failed to parse SQL statement: parser stack limit reached"
text_below_210 sql_select_wildcard =
    some "Failed to expand '*' in SELECT statement without FROM clause"
text_below_210 sql_statement_empty = some "Failed to execute an empty SQL statement"
text_below_210 sql_keyword_is_reserved =
    some
      "At line %d at or near position %d: keyword '%.*s' is reserved. Please use double quotes if '%.*s' is an identifier."
text_below_210 sql_syntax_near_token = some "Syntax error at line %d near '%.*s'"
text_below_210 sql_unknown_token =
    some "At line %d at or near position %d: unrecognized token '%.*s'"
text_below_210 sql_parse_generic = some "%s"
text_below_210 sql_analyze_argument = some "ANALYZE statement argument %s is not a base table"
text_below_210 sql_column_count_max =
    some "Failed to create space '%s': space column count %d exceeds the limit (%d)"
text_below_210 hex_literal_max = some "Hex literal %s%s length %d exceeds the supported limit (%d)"
text_below_210 int_literal_max =
    some
      "Integer literal %s%s exceeds the supported range [-9223372036854775808, 18446744073709551615]"
text_below_210 sql_parse_limit = some "%s %d exceeds the limit (%d)"
text_below_210 index_def_unsupported = some "%s are prohibited in an index definition"
text_below_210 ck_def_unsupported = some "%s are prohibited in a ck constraint definition"
text_below_210 multikey_index_mismatch =
    some "Field %s is used as multikey in one index and as single key in another"
text_below_210 create_ck_constraint = some "Failed to create check constraint '%s': %s"
text_below_210 ck_constraint_failed = some "Check constraint failed '%s': %s"
text_below_210 sql_column_count =
    some "Unequal number of entries in row expression: left side has %u, but right side - %u"
text_below_210 func_index_func =
    some "Failed to build a key for functional index '%s' of space '%s': %s"
text_below_210 func_index_format =
    some "Key format doesn't match one defined in functional index '%s' of space '%s': %s"
text_below_210 func_index_parts = some "Wrong functional index definition: %s"
text_below_210 no_such_field_name = some "Field '%s' was not found in the tuple"
text_below_210 func_wrong_arg_count =
    some "Wrong number of arguments is passed to %s(): expected %s, got %d"
text_below_210 bootstrap_readonly = some "Trying to bootstrap a local read-only instance as master"
text_below_210 sql_func_wrong_ret_count =
    some "SQL expects exactly one argument returned from %s, got %d"
text_below_210 func_invalid_return_type =
    some "Function '%s' returned value of invalid type: expected %s got %s"
text_below_210 sql_parse_generic_with_pos = some "At line %d at or near position %d: %s"
text_below_210 replica_not_anon = some "Replica '%s' is not anonymous and cannot register."
text_below_210 cannot_register = some "Couldn't find an instance to register this replica on."
text_below_210 session_setting_invalid_value = some "Session setting %s expected a value of type %s"
text_below_210 _ = none
