-- ===== src/Iproto/Errors/Cast.antt =====
-- include/tarantool_connector/detail/iproto_typedefs.h: `int_to_tarantool_error`.
use tntpp.Common.{
  ℕ, ◌≡◌, refl, inl, inr, Bool-cases, false, List, [], ◌∷◌, true, leb, ◌==◌, if◌then◌else◌, get_or,
  arith, ==_iff, below, below_lem,
}
use tntpp.Iproto.Errors.Code.{
  TarantoolError, error_code, unknown, illegal_params, memory_issue, tuple_found, tuple_not_found,
  unsupported, non_master, readonly, injection, create_space, space_exists, drop_space, alt_space,
  index_type, modify_index, last_drop, tuple_format_limit, drop_primary_key, key_part_type,
  exact_match, invalid_msgpack, proc_ret, tuple_not_array, field_type_mismatch,
  index_part_type_mismatch, update_splice, update_arg_type, format_mismatch_index_part,
  unknown_update_op, update_field, function_tx_active, key_part_count, proc_lua, no_such_proc,
  no_such_trigger, no_such_index_id, no_such_space, no_such_field_no, exact_field_count,
  field_missing, wal_io, more_than_one_tuple, access_denied, create_user, drop_user, no_such_user,
  user_exists, credentials_mismatch, unknown_request_type, unknown_schema_object, create_function,
  no_such_function, function_exists, before_replace_ret, multistatement_transaction, trigger_exists,
  user_max, no_such_engine, reload_cfg, cfg, savepoint_empty_tx, no_such_savepoint, unknown_replica,
  replicaset_uuid_mismatch, invalid_uuid, replicaset_uuid_is_ro, instance_uuid_mismatch,
  replica_id_is_reserved, invalid_order, missing_request_field, identifier, drop_function,
  iterator_type, replica_max, invalid_xlog, invalid_xlog_name, invalid_xlog_order, no_connection,
  timeout, active_transaction, cursor_no_transaction, cross_engine_transaction, no_such_role,
  role_exists, create_role, index_exists, session_closed, role_loop, grant, priv_granted,
  role_granted, priv_not_granted, role_not_granted, missing_snapshot, cant_update_primary_key,
  update_integoverflow, guest_user_password, transaction_conflict, unsupported_priv, load_function,
  function_language, rtree_rect, proc_c, unknown_rtree_index_distance_type, protocol,
  upsert_unique_secondary_key, wrong_index_record, wrong_index_parts, wrong_index_options,
  wrong_schema_version, memtx_max_tuple_size, wrong_space_options, unsupported_index_feature,
  view_is_ro, no_transaction, system, loading, connection_to_self, key_part_is_too_long,
  compression, checkpoint_in_progress, sub_stmt_max, commit_in_sub_stmt, rollback_in_sub_stmt,
  decompression, invalid_xlog_type, already_running, index_field_count_limit,
  local_instance_id_is_read_only, backup_in_progress, read_view_aborted, invalid_index_file,
  invalid_run_file, invalid_vylog_file, cascade_rollback, vy_quota_timeout, partial_key,
  truncate_system_space, load_module, vinyl_max_tuple_size, wrong_dd_version, wrong_space_format,
  create_sequence, alt_sequence, drop_sequence, no_such_sequence, sequence_exists,
  sequence_overflow, no_such_index_name, space_field_is_duplicate, cant_create_collation,
  wrong_collation_options, nullable_primary, no_such_field_name_in_space, transaction_yield,
  no_such_group, sql_bind_value, sql_bind_type, sql_bind_parameter_max, sql_execute,
  update_decimal_overflow, sql_bind_not_found, action_mismatch, view_missing_sql,
  foreign_key_constraint, no_such_module, no_such_collation, create_fk_constraint,
  drop_fk_constraint, no_such_constraint, constraint_exists, sql_type_mismatch, rowid_overflow,
  drop_collation, illegal_collation_mix, sql_no_such_pragma, sql_cant_resolve_field,
  index_exists_in_space, inconsistent_types, sql_syntax_with_pos, sql_stack_overflow,
  sql_select_wildcard, sql_statement_empty, sql_keyword_is_reserved, sql_syntax_near_token,
  sql_unknown_token, sql_parse_generic, sql_analyze_argument, sql_column_count_max, hex_literal_max,
  int_literal_max, sql_parse_limit, index_def_unsupported, ck_def_unsupported,
  multikey_index_mismatch, create_ck_constraint, ck_constraint_failed, sql_column_count,
  func_index_func, func_index_format, func_index_parts, no_such_field_name, func_wrong_arg_count,
  bootstrap_readonly, sql_func_wrong_ret_count, func_invalid_return_type,
  sql_parse_generic_with_pos, replica_not_anon, cannot_register, session_setting_invalid_value,
  sql_prepare, wrong_query_id, sequence_not_started, no_such_session_setting,
  uncommitted_foreign_sync_txns, sync_master_mismatch, sync_quorum_timeout, sync_rollback,
  tuple_metadata_is_too_big, xlog_gap, too_early_subscribe, sql_cant_add_autoinc, quorum_wait,
  interfering_promote, election_disabled, txn_rollback, not_leader, sync_queue_unclaimed,
  sync_queue_foreign, unable_to_process_in_stream, unable_to_process_out_of_stream,
  transaction_timeout, active_timer, tuple_field_count_limit, create_constraint,
  field_constraint_failed, tuple_constraint_failed, create_foreign_key, foreign_key_integrity,
  field_foreign_key_failed, complex_foreign_key_failed, wrong_space_upgrade_options,
  no_election_quorum, ssl, split_brain, old_term, interfering_elections, iterator_position,
  default_value_type, unknown_auth_method, invalid_auth_data, invalid_auth_request, weak_password,
  old_password, no_such_session, wrong_session_type, password_expired, auth_delay, auth_required,
  sql_seq_scan, no_such_event, bootstrap_not_unanimous, cant_check_bootstrap_leader,
  bootstrap_connection_not_to_all, nil_uuid, wrong_function_options, missing_system_spaces,
  cluster_name_mismatch, replicaset_name_mismatch, instance_name_duplicate, instance_name_mismatch,
  schema_needs_upgrade, schema_upgrade_in_progress, deprecated, unconfigured, create_default_func,
  default_func_failed, invalid_dec, in_another_promote, shutdown, field_value_out_of_range,
}

-- The enumerators by value: what a cast of a number to the enumeration gives.
unfoldable pub all_errors : List TarantoolError
all_errors =
    unknown ∷ illegal_params ∷ memory_issue ∷ tuple_found ∷ tuple_not_found ∷ unsupported
    ∷ non_master ∷ readonly ∷ injection ∷ create_space ∷ space_exists ∷ drop_space ∷ alt_space
    ∷ index_type ∷ modify_index ∷ last_drop ∷ tuple_format_limit ∷ drop_primary_key ∷ key_part_type
    ∷ exact_match ∷ invalid_msgpack ∷ proc_ret ∷ tuple_not_array ∷ field_type_mismatch
    ∷ index_part_type_mismatch ∷ update_splice ∷ update_arg_type ∷ format_mismatch_index_part
    ∷ unknown_update_op ∷ update_field ∷ function_tx_active ∷ key_part_count ∷ proc_lua
    ∷ no_such_proc ∷ no_such_trigger ∷ no_such_index_id ∷ no_such_space ∷ no_such_field_no
    ∷ exact_field_count ∷ field_missing ∷ wal_io ∷ more_than_one_tuple ∷ access_denied ∷ create_user
    ∷ drop_user ∷ no_such_user ∷ user_exists ∷ credentials_mismatch ∷ unknown_request_type
    ∷ unknown_schema_object ∷ create_function ∷ no_such_function ∷ function_exists
    ∷ before_replace_ret ∷ multistatement_transaction ∷ trigger_exists ∷ user_max ∷ no_such_engine
    ∷ reload_cfg ∷ cfg ∷ savepoint_empty_tx ∷ no_such_savepoint ∷ unknown_replica
    ∷ replicaset_uuid_mismatch ∷ invalid_uuid ∷ replicaset_uuid_is_ro ∷ instance_uuid_mismatch
    ∷ replica_id_is_reserved ∷ invalid_order ∷ missing_request_field ∷ identifier ∷ drop_function
    ∷ iterator_type ∷ replica_max ∷ invalid_xlog ∷ invalid_xlog_name ∷ invalid_xlog_order
    ∷ no_connection ∷ timeout ∷ active_transaction ∷ cursor_no_transaction
    ∷ cross_engine_transaction ∷ no_such_role ∷ role_exists ∷ create_role ∷ index_exists
    ∷ session_closed ∷ role_loop ∷ grant ∷ priv_granted ∷ role_granted ∷ priv_not_granted
    ∷ role_not_granted ∷ missing_snapshot ∷ cant_update_primary_key ∷ update_integoverflow
    ∷ guest_user_password ∷ transaction_conflict ∷ unsupported_priv ∷ load_function
    ∷ function_language ∷ rtree_rect ∷ proc_c ∷ unknown_rtree_index_distance_type ∷ protocol
    ∷ upsert_unique_secondary_key ∷ wrong_index_record ∷ wrong_index_parts ∷ wrong_index_options
    ∷ wrong_schema_version ∷ memtx_max_tuple_size ∷ wrong_space_options ∷ unsupported_index_feature
    ∷ view_is_ro ∷ no_transaction ∷ system ∷ loading ∷ connection_to_self ∷ key_part_is_too_long
    ∷ compression ∷ checkpoint_in_progress ∷ sub_stmt_max ∷ commit_in_sub_stmt
    ∷ rollback_in_sub_stmt ∷ decompression ∷ invalid_xlog_type ∷ already_running
    ∷ index_field_count_limit ∷ local_instance_id_is_read_only ∷ backup_in_progress
    ∷ read_view_aborted ∷ invalid_index_file ∷ invalid_run_file ∷ invalid_vylog_file
    ∷ cascade_rollback ∷ vy_quota_timeout ∷ partial_key ∷ truncate_system_space ∷ load_module
    ∷ vinyl_max_tuple_size ∷ wrong_dd_version ∷ wrong_space_format ∷ create_sequence ∷ alt_sequence
    ∷ drop_sequence ∷ no_such_sequence ∷ sequence_exists ∷ sequence_overflow ∷ no_such_index_name
    ∷ space_field_is_duplicate ∷ cant_create_collation ∷ wrong_collation_options ∷ nullable_primary
    ∷ no_such_field_name_in_space ∷ transaction_yield ∷ no_such_group ∷ sql_bind_value
    ∷ sql_bind_type ∷ sql_bind_parameter_max ∷ sql_execute ∷ update_decimal_overflow
    ∷ sql_bind_not_found ∷ action_mismatch ∷ view_missing_sql ∷ foreign_key_constraint
    ∷ no_such_module ∷ no_such_collation ∷ create_fk_constraint ∷ drop_fk_constraint
    ∷ no_such_constraint ∷ constraint_exists ∷ sql_type_mismatch ∷ rowid_overflow ∷ drop_collation
    ∷ illegal_collation_mix ∷ sql_no_such_pragma ∷ sql_cant_resolve_field ∷ index_exists_in_space
    ∷ inconsistent_types ∷ sql_syntax_with_pos ∷ sql_stack_overflow ∷ sql_select_wildcard
    ∷ sql_statement_empty ∷ sql_keyword_is_reserved ∷ sql_syntax_near_token ∷ sql_unknown_token
    ∷ sql_parse_generic ∷ sql_analyze_argument ∷ sql_column_count_max ∷ hex_literal_max
    ∷ int_literal_max ∷ sql_parse_limit ∷ index_def_unsupported ∷ ck_def_unsupported
    ∷ multikey_index_mismatch ∷ create_ck_constraint ∷ ck_constraint_failed ∷ sql_column_count
    ∷ func_index_func ∷ func_index_format ∷ func_index_parts ∷ no_such_field_name
    ∷ func_wrong_arg_count ∷ bootstrap_readonly ∷ sql_func_wrong_ret_count
    ∷ func_invalid_return_type ∷ sql_parse_generic_with_pos ∷ replica_not_anon ∷ cannot_register
    ∷ session_setting_invalid_value ∷ sql_prepare ∷ wrong_query_id ∷ sequence_not_started
    ∷ no_such_session_setting ∷ uncommitted_foreign_sync_txns ∷ sync_master_mismatch
    ∷ sync_quorum_timeout ∷ sync_rollback ∷ tuple_metadata_is_too_big ∷ xlog_gap
    ∷ too_early_subscribe ∷ sql_cant_add_autoinc ∷ quorum_wait ∷ interfering_promote
    ∷ election_disabled ∷ txn_rollback ∷ not_leader ∷ sync_queue_unclaimed ∷ sync_queue_foreign
    ∷ unable_to_process_in_stream ∷ unable_to_process_out_of_stream ∷ transaction_timeout
    ∷ active_timer ∷ tuple_field_count_limit ∷ create_constraint ∷ field_constraint_failed
    ∷ tuple_constraint_failed ∷ create_foreign_key ∷ foreign_key_integrity
    ∷ field_foreign_key_failed ∷ complex_foreign_key_failed ∷ wrong_space_upgrade_options
    ∷ no_election_quorum ∷ ssl ∷ split_brain ∷ old_term ∷ interfering_elections ∷ iterator_position
    ∷ default_value_type ∷ unknown_auth_method ∷ invalid_auth_data ∷ invalid_auth_request
    ∷ weak_password ∷ old_password ∷ no_such_session ∷ wrong_session_type ∷ password_expired
    ∷ auth_delay ∷ auth_required ∷ sql_seq_scan ∷ no_such_event ∷ bootstrap_not_unanimous
    ∷ cant_check_bootstrap_leader ∷ bootstrap_connection_not_to_all ∷ nil_uuid
    ∷ wrong_function_options ∷ missing_system_spaces ∷ cluster_name_mismatch
    ∷ replicaset_name_mismatch ∷ instance_name_duplicate ∷ instance_name_mismatch
    ∷ schema_needs_upgrade ∷ schema_upgrade_in_progress ∷ deprecated ∷ unconfigured
    ∷ create_default_func ∷ default_func_failed ∷ invalid_dec ∷ in_another_promote ∷ shutdown
    ∷ field_value_out_of_range ∷ []

-- The cast of a number up to that of the last enumerator.
unfoldable pub int_to_tarantool_error : ℕ → TarantoolError
unfolding all_errors error_code
int_to_tarantool_error ec =
    if leb ec (error_code field_value_out_of_range) then get_or all_errors ec unknown else unknown

pub int_to_tarantool_error-error_code :
    (e : TarantoolError) → int_to_tarantool_error (error_code e) ≡ e
unfolding int_to_tarantool_error
int_to_tarantool_error-error_code unknown = refl
int_to_tarantool_error-error_code _ = refl

table : below 281 (λ n. error_code (int_to_tarantool_error n) == n) ≡ true
unfolding int_to_tarantool_error
table = refl

large : (n : ℕ) → leb n 280 ≡ false → int_to_tarantool_error n ≡ unknown
unfolding int_to_tarantool_error
large n e = rw e

pub error_code-int_to_tarantool_error :
    (n : ℕ) → error_code (int_to_tarantool_error n) ≡ (if leb n 280 then n else 0)
unfolding error_code
error_code-int_to_tarantool_error n = elim (Bool-cases (leb n 280)) [
  | inl e ↦ rw e (
      (==_iff _ n).0
        (below_lem 281 (λ k. error_code (int_to_tarantool_error k) == k) n table (ground arith)))
  | inr e ↦ rw (large n e, e) refl
]

-- Every error is read back from its value; a number of at most 280 is the value of an error, the one
-- it is read as; any other is read as the unknown error.
pub int_to_tarantool_error_lem :
    (e : TarantoolError) (n : ℕ)
    → (int_to_tarantool_error (error_code e) ≡ e)
      × (error_code (int_to_tarantool_error n) ≡ (if leb n 280 then n else 0))
int_to_tarantool_error_lem e n =
    (int_to_tarantool_error-error_code e, error_code-int_to_tarantool_error n)
