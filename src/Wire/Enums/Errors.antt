-- ===== src/Wire/Enums/Errors.antt =====
-- The error messages of openflow.h about requests, actions, instructions and matches.
use openflow_controller.Prelude.{ℕ}

pub data OfpErrorType : Type 0 where
  hello_failed bad_request bad_action bad_instruction bad_match flow_mod_failed : OfpErrorType
  group_mod_failed port_mod_failed table_mod_failed queue_op_failed : OfpErrorType
  switch_config_failed role_request_failed meter_mod_failed : OfpErrorType
  table_features_failed experimenter : OfpErrorType

abbrev ofp_error_type : OfpErrorType → ℕ
ofp_error_type OfpErrorType.hello_failed = 0
ofp_error_type OfpErrorType.bad_request = 1
ofp_error_type OfpErrorType.bad_action = 2
ofp_error_type OfpErrorType.bad_instruction = 3
ofp_error_type OfpErrorType.bad_match = 4
ofp_error_type OfpErrorType.flow_mod_failed = 5
ofp_error_type OfpErrorType.group_mod_failed = 6
ofp_error_type OfpErrorType.port_mod_failed = 7
ofp_error_type OfpErrorType.table_mod_failed = 8
ofp_error_type OfpErrorType.queue_op_failed = 9
ofp_error_type OfpErrorType.switch_config_failed = 10
ofp_error_type OfpErrorType.role_request_failed = 11
ofp_error_type OfpErrorType.meter_mod_failed = 12
ofp_error_type OfpErrorType.table_features_failed = 13
ofp_error_type OfpErrorType.experimenter = 0xffff

pub data OfpHelloFailedCode : Type 0 where
  incompatible eperm : OfpHelloFailedCode

abbrev ofp_hello_failed_code : OfpHelloFailedCode → ℕ
ofp_hello_failed_code OfpHelloFailedCode.incompatible = 0
ofp_hello_failed_code OfpHelloFailedCode.eperm = 1

pub data OfpBadRequestCode : Type 0 where
  bad_version bad_type bad_multipart bad_experimenter bad_exp_type eperm bad_len : OfpBadRequestCode
  buffer_empty buffer_unknown bad_table_id is_slave bad_port bad_packet : OfpBadRequestCode
  multipart_buffer_overflow : OfpBadRequestCode

abbrev ofp_bad_request_code : OfpBadRequestCode → ℕ
ofp_bad_request_code OfpBadRequestCode.bad_version = 0
ofp_bad_request_code OfpBadRequestCode.bad_type = 1
ofp_bad_request_code OfpBadRequestCode.bad_multipart = 2
ofp_bad_request_code OfpBadRequestCode.bad_experimenter = 3
ofp_bad_request_code OfpBadRequestCode.bad_exp_type = 4
ofp_bad_request_code OfpBadRequestCode.eperm = 5
ofp_bad_request_code OfpBadRequestCode.bad_len = 6
ofp_bad_request_code OfpBadRequestCode.buffer_empty = 7
ofp_bad_request_code OfpBadRequestCode.buffer_unknown = 8
ofp_bad_request_code OfpBadRequestCode.bad_table_id = 9
ofp_bad_request_code OfpBadRequestCode.is_slave = 10
ofp_bad_request_code OfpBadRequestCode.bad_port = 11
ofp_bad_request_code OfpBadRequestCode.bad_packet = 12
ofp_bad_request_code OfpBadRequestCode.multipart_buffer_overflow = 13

pub data OfpBadActionCode : Type 0 where
  bad_type bad_len bad_experimenter bad_exp_type bad_out_port bad_argument eperm : OfpBadActionCode
  too_many bad_queue bad_out_group match_inconsistent unsupported_order bad_tag : OfpBadActionCode
  bad_set_type bad_set_len bad_set_argument : OfpBadActionCode

abbrev ofp_bad_action_code : OfpBadActionCode → ℕ
ofp_bad_action_code OfpBadActionCode.bad_type = 0
ofp_bad_action_code OfpBadActionCode.bad_len = 1
ofp_bad_action_code OfpBadActionCode.bad_experimenter = 2
ofp_bad_action_code OfpBadActionCode.bad_exp_type = 3
ofp_bad_action_code OfpBadActionCode.bad_out_port = 4
ofp_bad_action_code OfpBadActionCode.bad_argument = 5
ofp_bad_action_code OfpBadActionCode.eperm = 6
ofp_bad_action_code OfpBadActionCode.too_many = 7
ofp_bad_action_code OfpBadActionCode.bad_queue = 8
ofp_bad_action_code OfpBadActionCode.bad_out_group = 9
ofp_bad_action_code OfpBadActionCode.match_inconsistent = 10
ofp_bad_action_code OfpBadActionCode.unsupported_order = 11
ofp_bad_action_code OfpBadActionCode.bad_tag = 12
ofp_bad_action_code OfpBadActionCode.bad_set_type = 13
ofp_bad_action_code OfpBadActionCode.bad_set_len = 14
ofp_bad_action_code OfpBadActionCode.bad_set_argument = 15

pub data OfpBadInstructionCode : Type 0 where
  unknown_inst unsup_inst bad_table_id unsup_metadata unsup_metadata_mask : OfpBadInstructionCode
  bad_experimenter bad_exp_type bad_len eperm : OfpBadInstructionCode

abbrev ofp_bad_instruction_code : OfpBadInstructionCode → ℕ
ofp_bad_instruction_code OfpBadInstructionCode.unknown_inst = 0
ofp_bad_instruction_code OfpBadInstructionCode.unsup_inst = 1
ofp_bad_instruction_code OfpBadInstructionCode.bad_table_id = 2
ofp_bad_instruction_code OfpBadInstructionCode.unsup_metadata = 3
ofp_bad_instruction_code OfpBadInstructionCode.unsup_metadata_mask = 4
ofp_bad_instruction_code OfpBadInstructionCode.bad_experimenter = 5
ofp_bad_instruction_code OfpBadInstructionCode.bad_exp_type = 6
ofp_bad_instruction_code OfpBadInstructionCode.bad_len = 7
ofp_bad_instruction_code OfpBadInstructionCode.eperm = 8

pub data OfpBadMatchCode : Type 0 where
  bad_type bad_len bad_tag bad_dl_addr_mask bad_nw_addr_mask bad_wildcards : OfpBadMatchCode
  bad_field bad_value bad_mask bad_prereq dup_field eperm : OfpBadMatchCode

abbrev ofp_bad_match_code : OfpBadMatchCode → ℕ
ofp_bad_match_code OfpBadMatchCode.bad_type = 0
ofp_bad_match_code OfpBadMatchCode.bad_len = 1
ofp_bad_match_code OfpBadMatchCode.bad_tag = 2
ofp_bad_match_code OfpBadMatchCode.bad_dl_addr_mask = 3
ofp_bad_match_code OfpBadMatchCode.bad_nw_addr_mask = 4
ofp_bad_match_code OfpBadMatchCode.bad_wildcards = 5
ofp_bad_match_code OfpBadMatchCode.bad_field = 6
ofp_bad_match_code OfpBadMatchCode.bad_value = 7
ofp_bad_match_code OfpBadMatchCode.bad_mask = 8
ofp_bad_match_code OfpBadMatchCode.bad_prereq = 9
ofp_bad_match_code OfpBadMatchCode.dup_field = 10
ofp_bad_match_code OfpBadMatchCode.eperm = 11
