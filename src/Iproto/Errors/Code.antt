-- ===== src/Iproto/Errors/Code.antt =====
-- include/tarantool_connector/detail/iproto_typedefs.h: `enum TarantoolError` and its values.
use tntpp.Common.{ℕ}

pub data TarantoolError : Type 0 where
  unknown illegal_params memory_issue tuple_found tuple_not_found unsupported : TarantoolError
  non_master readonly injection create_space space_exists drop_space alt_space : TarantoolError
  index_type modify_index last_drop tuple_format_limit drop_primary_key : TarantoolError
  key_part_type exact_match invalid_msgpack proc_ret tuple_not_array : TarantoolError
  field_type_mismatch index_part_type_mismatch update_splice update_arg_type : TarantoolError
  format_mismatch_index_part unknown_update_op update_field function_tx_active : TarantoolError
  key_part_count proc_lua no_such_proc no_such_trigger no_such_index_id : TarantoolError
  no_such_space no_such_field_no exact_field_count field_missing wal_io : TarantoolError
  more_than_one_tuple access_denied create_user drop_user no_such_user : TarantoolError
  user_exists credentials_mismatch unknown_request_type unknown_schema_object : TarantoolError
  create_function no_such_function function_exists before_replace_ret : TarantoolError
  multistatement_transaction trigger_exists user_max no_such_engine reload_cfg : TarantoolError
  cfg savepoint_empty_tx no_such_savepoint unknown_replica : TarantoolError
  replicaset_uuid_mismatch invalid_uuid replicaset_uuid_is_ro : TarantoolError
  instance_uuid_mismatch replica_id_is_reserved invalid_order : TarantoolError
  missing_request_field identifier drop_function iterator_type replica_max : TarantoolError
  invalid_xlog invalid_xlog_name invalid_xlog_order no_connection timeout : TarantoolError
  active_transaction cursor_no_transaction cross_engine_transaction : TarantoolError
  no_such_role role_exists create_role index_exists session_closed role_loop : TarantoolError
  grant priv_granted role_granted priv_not_granted role_not_granted : TarantoolError
  missing_snapshot cant_update_primary_key update_integoverflow : TarantoolError
  guest_user_password transaction_conflict unsupported_priv load_function : TarantoolError
  function_language rtree_rect proc_c unknown_rtree_index_distance_type : TarantoolError
  protocol upsert_unique_secondary_key wrong_index_record wrong_index_parts : TarantoolError
  wrong_index_options wrong_schema_version memtx_max_tuple_size : TarantoolError
  wrong_space_options unsupported_index_feature view_is_ro no_transaction : TarantoolError
  system loading connection_to_self key_part_is_too_long compression : TarantoolError
  checkpoint_in_progress sub_stmt_max commit_in_sub_stmt rollback_in_sub_stmt : TarantoolError
  decompression invalid_xlog_type already_running index_field_count_limit : TarantoolError
  local_instance_id_is_read_only backup_in_progress read_view_aborted : TarantoolError
  invalid_index_file invalid_run_file invalid_vylog_file cascade_rollback : TarantoolError
  vy_quota_timeout partial_key truncate_system_space load_module : TarantoolError
  vinyl_max_tuple_size wrong_dd_version wrong_space_format create_sequence : TarantoolError
  alt_sequence drop_sequence no_such_sequence sequence_exists sequence_overflow : TarantoolError
  no_such_index_name space_field_is_duplicate cant_create_collation : TarantoolError
  wrong_collation_options nullable_primary no_such_field_name_in_space : TarantoolError
  transaction_yield no_such_group sql_bind_value sql_bind_type : TarantoolError
  sql_bind_parameter_max sql_execute update_decimal_overflow sql_bind_not_found : TarantoolError
  action_mismatch view_missing_sql foreign_key_constraint no_such_module : TarantoolError
  no_such_collation create_fk_constraint drop_fk_constraint no_such_constraint : TarantoolError
  constraint_exists sql_type_mismatch rowid_overflow drop_collation : TarantoolError
  illegal_collation_mix sql_no_such_pragma sql_cant_resolve_field : TarantoolError
  index_exists_in_space inconsistent_types sql_syntax_with_pos : TarantoolError
  sql_stack_overflow sql_select_wildcard sql_statement_empty : TarantoolError
  sql_keyword_is_reserved sql_syntax_near_token sql_unknown_token : TarantoolError
  sql_parse_generic sql_analyze_argument sql_column_count_max hex_literal_max : TarantoolError
  int_literal_max sql_parse_limit index_def_unsupported ck_def_unsupported : TarantoolError
  multikey_index_mismatch create_ck_constraint ck_constraint_failed : TarantoolError
  sql_column_count func_index_func func_index_format func_index_parts : TarantoolError
  no_such_field_name func_wrong_arg_count bootstrap_readonly : TarantoolError
  sql_func_wrong_ret_count func_invalid_return_type sql_parse_generic_with_pos : TarantoolError
  replica_not_anon cannot_register session_setting_invalid_value sql_prepare : TarantoolError
  wrong_query_id sequence_not_started no_such_session_setting : TarantoolError
  uncommitted_foreign_sync_txns sync_master_mismatch sync_quorum_timeout : TarantoolError
  sync_rollback tuple_metadata_is_too_big xlog_gap too_early_subscribe : TarantoolError
  sql_cant_add_autoinc quorum_wait interfering_promote election_disabled : TarantoolError
  txn_rollback not_leader sync_queue_unclaimed sync_queue_foreign : TarantoolError
  unable_to_process_in_stream unable_to_process_out_of_stream : TarantoolError
  transaction_timeout active_timer tuple_field_count_limit create_constraint : TarantoolError
  field_constraint_failed tuple_constraint_failed create_foreign_key : TarantoolError
  foreign_key_integrity field_foreign_key_failed complex_foreign_key_failed : TarantoolError
  wrong_space_upgrade_options no_election_quorum ssl split_brain old_term : TarantoolError
  interfering_elections iterator_position default_value_type : TarantoolError
  unknown_auth_method invalid_auth_data invalid_auth_request weak_password : TarantoolError
  old_password no_such_session wrong_session_type password_expired auth_delay : TarantoolError
  auth_required sql_seq_scan no_such_event bootstrap_not_unanimous : TarantoolError
  cant_check_bootstrap_leader bootstrap_connection_not_to_all nil_uuid : TarantoolError
  wrong_function_options missing_system_spaces cluster_name_mismatch : TarantoolError
  replicaset_name_mismatch instance_name_duplicate instance_name_mismatch : TarantoolError
  schema_needs_upgrade schema_upgrade_in_progress deprecated unconfigured : TarantoolError
  create_default_func default_func_failed invalid_dec in_another_promote : TarantoolError
  shutdown field_value_out_of_range : TarantoolError

-- The value of each enumerator.
unfoldable pub error_code : TarantoolError → ℕ
error_code unknown = 0
error_code illegal_params = 1
error_code memory_issue = 2
error_code tuple_found = 3
error_code tuple_not_found = 4
error_code unsupported = 5
error_code non_master = 6
error_code readonly = 7
error_code injection = 8
error_code create_space = 9
error_code space_exists = 10
error_code drop_space = 11
error_code alt_space = 12
error_code index_type = 13
error_code modify_index = 14
error_code last_drop = 15
error_code tuple_format_limit = 16
error_code drop_primary_key = 17
error_code key_part_type = 18
error_code exact_match = 19
error_code invalid_msgpack = 20
error_code proc_ret = 21
error_code tuple_not_array = 22
error_code field_type_mismatch = 23
error_code index_part_type_mismatch = 24
error_code update_splice = 25
error_code update_arg_type = 26
error_code format_mismatch_index_part = 27
error_code unknown_update_op = 28
error_code update_field = 29
error_code function_tx_active = 30
error_code key_part_count = 31
error_code proc_lua = 32
error_code no_such_proc = 33
error_code no_such_trigger = 34
error_code no_such_index_id = 35
error_code no_such_space = 36
error_code no_such_field_no = 37
error_code exact_field_count = 38
error_code field_missing = 39
error_code wal_io = 40
error_code more_than_one_tuple = 41
error_code access_denied = 42
error_code create_user = 43
error_code drop_user = 44
error_code no_such_user = 45
error_code user_exists = 46
error_code credentials_mismatch = 47
error_code unknown_request_type = 48
error_code unknown_schema_object = 49
error_code create_function = 50
error_code no_such_function = 51
error_code function_exists = 52
error_code before_replace_ret = 53
error_code multistatement_transaction = 54
error_code trigger_exists = 55
error_code user_max = 56
error_code no_such_engine = 57
error_code reload_cfg = 58
error_code cfg = 59
error_code savepoint_empty_tx = 60
error_code no_such_savepoint = 61
error_code unknown_replica = 62
error_code replicaset_uuid_mismatch = 63
error_code invalid_uuid = 64
error_code replicaset_uuid_is_ro = 65
error_code instance_uuid_mismatch = 66
error_code replica_id_is_reserved = 67
error_code invalid_order = 68
error_code missing_request_field = 69
error_code identifier = 70
error_code drop_function = 71
error_code iterator_type = 72
error_code replica_max = 73
error_code invalid_xlog = 74
error_code invalid_xlog_name = 75
error_code invalid_xlog_order = 76
error_code no_connection = 77
error_code timeout = 78
error_code active_transaction = 79
error_code cursor_no_transaction = 80
error_code cross_engine_transaction = 81
error_code no_such_role = 82
error_code role_exists = 83
error_code create_role = 84
error_code index_exists = 85
error_code session_closed = 86
error_code role_loop = 87
error_code grant = 88
error_code priv_granted = 89
error_code role_granted = 90
error_code priv_not_granted = 91
error_code role_not_granted = 92
error_code missing_snapshot = 93
error_code cant_update_primary_key = 94
error_code update_integoverflow = 95
error_code guest_user_password = 96
error_code transaction_conflict = 97
error_code unsupported_priv = 98
error_code load_function = 99
error_code function_language = 100
error_code rtree_rect = 101
error_code proc_c = 102
error_code unknown_rtree_index_distance_type = 103
error_code protocol = 104
error_code upsert_unique_secondary_key = 105
error_code wrong_index_record = 106
error_code wrong_index_parts = 107
error_code wrong_index_options = 108
error_code wrong_schema_version = 109
error_code memtx_max_tuple_size = 110
error_code wrong_space_options = 111
error_code unsupported_index_feature = 112
error_code view_is_ro = 113
error_code no_transaction = 114
error_code system = 115
error_code loading = 116
error_code connection_to_self = 117
error_code key_part_is_too_long = 118
error_code compression = 119
error_code checkpoint_in_progress = 120
error_code sub_stmt_max = 121
error_code commit_in_sub_stmt = 122
error_code rollback_in_sub_stmt = 123
error_code decompression = 124
error_code invalid_xlog_type = 125
error_code already_running = 126
error_code index_field_count_limit = 127
error_code local_instance_id_is_read_only = 128
error_code backup_in_progress = 129
error_code read_view_aborted = 130
error_code invalid_index_file = 131
error_code invalid_run_file = 132
error_code invalid_vylog_file = 133
error_code cascade_rollback = 134
error_code vy_quota_timeout = 135
error_code partial_key = 136
error_code truncate_system_space = 137
error_code load_module = 138
error_code vinyl_max_tuple_size = 139
error_code wrong_dd_version = 140
error_code wrong_space_format = 141
error_code create_sequence = 142
error_code alt_sequence = 143
error_code drop_sequence = 144
error_code no_such_sequence = 145
error_code sequence_exists = 146
error_code sequence_overflow = 147
error_code no_such_index_name = 148
error_code space_field_is_duplicate = 149
error_code cant_create_collation = 150
error_code wrong_collation_options = 151
error_code nullable_primary = 152
error_code no_such_field_name_in_space = 153
error_code transaction_yield = 154
error_code no_such_group = 155
error_code sql_bind_value = 156
error_code sql_bind_type = 157
error_code sql_bind_parameter_max = 158
error_code sql_execute = 159
error_code update_decimal_overflow = 160
error_code sql_bind_not_found = 161
error_code action_mismatch = 162
error_code view_missing_sql = 163
error_code foreign_key_constraint = 164
error_code no_such_module = 165
error_code no_such_collation = 166
error_code create_fk_constraint = 167
error_code drop_fk_constraint = 168
error_code no_such_constraint = 169
error_code constraint_exists = 170
error_code sql_type_mismatch = 171
error_code rowid_overflow = 172
error_code drop_collation = 173
error_code illegal_collation_mix = 174
error_code sql_no_such_pragma = 175
error_code sql_cant_resolve_field = 176
error_code index_exists_in_space = 177
error_code inconsistent_types = 178
error_code sql_syntax_with_pos = 179
error_code sql_stack_overflow = 180
error_code sql_select_wildcard = 181
error_code sql_statement_empty = 182
error_code sql_keyword_is_reserved = 183
error_code sql_syntax_near_token = 184
error_code sql_unknown_token = 185
error_code sql_parse_generic = 186
error_code sql_analyze_argument = 187
error_code sql_column_count_max = 188
error_code hex_literal_max = 189
error_code int_literal_max = 190
error_code sql_parse_limit = 191
error_code index_def_unsupported = 192
error_code ck_def_unsupported = 193
error_code multikey_index_mismatch = 194
error_code create_ck_constraint = 195
error_code ck_constraint_failed = 196
error_code sql_column_count = 197
error_code func_index_func = 198
error_code func_index_format = 199
error_code func_index_parts = 200
error_code no_such_field_name = 201
error_code func_wrong_arg_count = 202
error_code bootstrap_readonly = 203
error_code sql_func_wrong_ret_count = 204
error_code func_invalid_return_type = 205
error_code sql_parse_generic_with_pos = 206
error_code replica_not_anon = 207
error_code cannot_register = 208
error_code session_setting_invalid_value = 209
error_code sql_prepare = 210
error_code wrong_query_id = 211
error_code sequence_not_started = 212
error_code no_such_session_setting = 213
error_code uncommitted_foreign_sync_txns = 214
error_code sync_master_mismatch = 215
error_code sync_quorum_timeout = 216
error_code sync_rollback = 217
error_code tuple_metadata_is_too_big = 218
error_code xlog_gap = 219
error_code too_early_subscribe = 220
error_code sql_cant_add_autoinc = 221
error_code quorum_wait = 222
error_code interfering_promote = 223
error_code election_disabled = 224
error_code txn_rollback = 225
error_code not_leader = 226
error_code sync_queue_unclaimed = 227
error_code sync_queue_foreign = 228
error_code unable_to_process_in_stream = 229
error_code unable_to_process_out_of_stream = 230
error_code transaction_timeout = 231
error_code active_timer = 232
error_code tuple_field_count_limit = 233
error_code create_constraint = 234
error_code field_constraint_failed = 235
error_code tuple_constraint_failed = 236
error_code create_foreign_key = 237
error_code foreign_key_integrity = 238
error_code field_foreign_key_failed = 239
error_code complex_foreign_key_failed = 240
error_code wrong_space_upgrade_options = 241
error_code no_election_quorum = 242
error_code ssl = 243
error_code split_brain = 244
error_code old_term = 245
error_code interfering_elections = 246
error_code iterator_position = 247
error_code default_value_type = 248
error_code unknown_auth_method = 249
error_code invalid_auth_data = 250
error_code invalid_auth_request = 251
error_code weak_password = 252
error_code old_password = 253
error_code no_such_session = 254
error_code wrong_session_type = 255
error_code password_expired = 256
error_code auth_delay = 257
error_code auth_required = 258
error_code sql_seq_scan = 259
error_code no_such_event = 260
error_code bootstrap_not_unanimous = 261
error_code cant_check_bootstrap_leader = 262
error_code bootstrap_connection_not_to_all = 263
error_code nil_uuid = 264
error_code wrong_function_options = 265
error_code missing_system_spaces = 266
error_code cluster_name_mismatch = 267
error_code replicaset_name_mismatch = 268
error_code instance_name_duplicate = 269
error_code instance_name_mismatch = 270
error_code schema_needs_upgrade = 271
error_code schema_upgrade_in_progress = 272
error_code deprecated = 273
error_code unconfigured = 274
error_code create_default_func = 275
error_code default_func_failed = 276
error_code invalid_dec = 277
error_code in_another_promote = 278
error_code shutdown = 279
error_code field_value_out_of_range = 280
