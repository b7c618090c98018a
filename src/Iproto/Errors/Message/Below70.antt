-- ===== src/Iproto/Errors/Message/Below70.antt =====
-- include/tarantool_connector/detail/iproto_typedefs.h: `TarantoolErrorCategory::message`, the cases
-- of the enumerators from 0 to 69.
use Prim.Native.String.{String}
use tntpp.Common.{Option, none, some}
use tntpp.Iproto.Errors.Code.{
  TarantoolError, unknown, illegal_params, memory_issue, tuple_found, tuple_not_found, unsupported,
  non_master, readonly, injection, create_space, space_exists, drop_space, alt_space, index_type,
  modify_index, last_drop, tuple_format_limit, drop_primary_key, key_part_type, exact_match,
  invalid_msgpack, proc_ret, tuple_not_array, field_type_mismatch, index_part_type_mismatch,
  update_splice, update_arg_type, format_mismatch_index_part, unknown_update_op, update_field,
  function_tx_active, key_part_count, proc_lua, no_such_proc, no_such_trigger, no_such_index_id,
  no_such_space, no_such_field_no, exact_field_count, field_missing, wal_io, more_than_one_tuple,
  access_denied, create_user, drop_user, no_such_user, user_exists, credentials_mismatch,
  unknown_request_type, unknown_schema_object, create_function, no_such_function, function_exists,
  before_replace_ret, multistatement_transaction, trigger_exists, user_max, no_such_engine,
  reload_cfg, cfg, savepoint_empty_tx, no_such_savepoint, unknown_replica, replicaset_uuid_mismatch,
  invalid_uuid, replicaset_uuid_is_ro, instance_uuid_mismatch, replica_id_is_reserved,
  invalid_order, missing_request_field,
}

unfoldable pub text_below_70 : TarantoolError → Option String
text_below_70 unknown = some "Unknown"
text_below_70 illegal_params = some "Illegal parameters, %s"
text_below_70 memory_issue = some "Failed to allocate %u bytes in %s for %s"
text_below_70 tuple_found =
    some
      "Duplicate key exists in unique index \"%s\" in space \"%s\" with old tuple - %s and new tuple - %s"
text_below_70 tuple_not_found = some "Tuple doesn't exist in index '%s' in space '%s'"
text_below_70 unsupported = some "%s does not support %s"
text_below_70 non_master = some "Can't modify data on a replication slave. My master is: %s"
text_below_70 readonly = some "Can't modify data on a read-only instance"
text_below_70 injection = some "Error injection '%s'"
text_below_70 create_space = some "Failed to create space '%s': %s"
text_below_70 space_exists = some "Space '%s' already exists"
text_below_70 drop_space = some "Can't drop space '%s': %s"
text_below_70 alt_space = some "Can't modify space '%s': %s"
text_below_70 index_type = some "Unsupported index type supplied for index '%s' in space '%s'"
text_below_70 modify_index = some "Can't create or modify index '%s' in space '%s': %s"
text_below_70 last_drop = some "Can't drop the primary key in a system space, space '%s'"
text_below_70 tuple_format_limit = some "Tuple format limit reached: %u"
text_below_70 drop_primary_key =
    some "Can't drop primary key in space '%s' while secondary keys exist"
text_below_70 key_part_type =
    some "Supplied key type of part %u does not match index part type: expected %s"
text_below_70 exact_match = some "Invalid key part count in an exact match (expected %u, got %u)"
text_below_70 invalid_msgpack = some "Invalid MsgPack - %s"
text_below_70 proc_ret = some "msgpack.encode: can not encode Lua type '%s'"
text_below_70 tuple_not_array = some "Tuple/Key must be MsgPack array"
text_below_70 field_type_mismatch =
    some "Tuple field %s type does not match one required by operation: expected %s, got %s"
text_below_70 index_part_type_mismatch =
    some "Field %s has type '%s' in one index, but type '%s' in another"
text_below_70 update_splice = some "SPLICE error on field %s: %s"
text_below_70 update_arg_type =
    some "Argument type in operation '%c' on field %s does not match field type: expected %s"
text_below_70 format_mismatch_index_part =
    some "Field %s has type '%s' in space format, but type '%s' in index definition"
text_below_70 unknown_update_op = some "Unknown UPDATE operation #%d: %s"
text_below_70 update_field = some "Field %s UPDATE error: %s"
text_below_70 function_tx_active = some "Transaction is active at return from function"
text_below_70 key_part_count = some "Invalid key part count (expected [0..%u], got %u)"
text_below_70 proc_lua = some "%s"
text_below_70 no_such_proc = some "Procedure '%.*s' is not defined"
text_below_70 no_such_trigger = some "Trigger '%s' doesn't exist"
text_below_70 no_such_index_id = some "No index #%u is defined in space '%s'"
text_below_70 no_such_space = some "Space '%s' does not exist"
text_below_70 no_such_field_no = some "Field %d was not found in the tuple"
text_below_70 exact_field_count = some "Tuple field count %u does not match space field count %u"
text_below_70 field_missing = some "Tuple field %s required by space format is missing"
text_below_70 wal_io = some "Failed to write to disk"
text_below_70 more_than_one_tuple = some "Get() doesn't support partial keys and non-unique indexes"
text_below_70 access_denied = some "%s access to %s '%s' is denied for user '%s'"
text_below_70 create_user = some "Failed to create user '%s': %s"
text_below_70 drop_user = some "Failed to drop user or role '%s': %s"
text_below_70 no_such_user = some "User '%s' is not found"
text_below_70 user_exists = some "User '%s' already exists"
text_below_70 credentials_mismatch = some "User not found or supplied credentials are invalid"
text_below_70 unknown_request_type = some "Unknown request type %u"
text_below_70 unknown_schema_object = some "Unknown object type '%s'"
text_below_70 create_function = some "Failed to create function '%s': %s"
text_below_70 no_such_function = some "Function '%s' does not exist"
text_below_70 function_exists = some "Function '%s' already exists"
text_below_70 before_replace_ret =
    some "Invalid return value of space:before_replace trigger: expected tuple or nil"
text_below_70 multistatement_transaction =
    some "Can not perform %s in a multi-statement transaction"
text_below_70 trigger_exists = some "Trigger '%s' already exists"
text_below_70 user_max = some "A limit on the total number of users has been reached: %u"
text_below_70 no_such_engine = some "Space engine '%s' does not exist"
text_below_70 reload_cfg = some "Can't set option '%s' dynamically"
text_below_70 cfg = some "Incorrect value for option '%s': %s"
text_below_70 savepoint_empty_tx = some "Can not set a savepoint in an empty transaction"
text_below_70 no_such_savepoint =
    some "Can not roll back to savepoint: the savepoint does not exist"
text_below_70 unknown_replica = some "Replica %s is not registered with replica set %s"
text_below_70 replicaset_uuid_mismatch = some "Replica set UUID mismatch: expected %s, got %s"
text_below_70 invalid_uuid = some "Invalid UUID: %s"
text_below_70 replicaset_uuid_is_ro = some "Can't reset replica set UUID: it is already assigned"
text_below_70 instance_uuid_mismatch = some "Instance UUID mismatch: expected %s, got %s"
text_below_70 replica_id_is_reserved = some "Can't initialize replica id with a reserved value %u"
text_below_70 invalid_order =
    some "Invalid LSN order for instance %u: previous LSN = %llu, new lsn = %llu"
text_below_70 missing_request_field = some "Missing mandatory field '%s' in request"
text_below_70 _ = none
