-- ===== src/Wire/Enums.antt =====
-- The enumerations of openflow.h that the controller names, each with the number of a member.
pub mod Switches
pub mod Actions
pub mod Errors
pub mod Refusals
pub mod Statistics
use openflow_controller.Prelude.{ℕ, ◌^◌}
use openflow_controller.Wire.Enums.Switches.{OfpHelloElemType, ofp_hello_elem_type}
use openflow_controller.Wire.Enums.Actions.{OfpActionType, ofp_action_type}
use openflow_controller.Wire.Enums.Statistics.{OfpMultipartType, ofp_multipart_type}

-- `OFP_VERSION`
abbrev pub ofp_version : ℕ
ofp_version = 0x04

-- `OFP_ETH_ALEN`
abbrev pub ofp_eth_alen : ℕ
ofp_eth_alen = 6

pub data OfpPortNo : Type 0 where
  max_port in_port table normal flood all controller local any : OfpPortNo

abbrev pub ofp_port_no : OfpPortNo → ℕ
ofp_port_no OfpPortNo.max_port = 0xffffff00
ofp_port_no OfpPortNo.in_port = 0xfffffff8
ofp_port_no OfpPortNo.table = 0xfffffff9
ofp_port_no OfpPortNo.normal = 0xfffffffa
ofp_port_no OfpPortNo.flood = 0xfffffffb
ofp_port_no OfpPortNo.all = 0xfffffffc
ofp_port_no OfpPortNo.controller = 0xfffffffd
ofp_port_no OfpPortNo.local = 0xfffffffe
ofp_port_no OfpPortNo.any = 0xffffffff

pub data OfpType : Type 0 where
  hello error echo_request echo_reply experimenter : OfpType
  features_request features_reply get_config_request get_config_reply set_config : OfpType
  packet_in flow_removed port_status : OfpType
  packet_out flow_mod group_mod port_mod table_mod : OfpType
  multipart_request multipart_reply barrier_request barrier_reply : OfpType
  queue_get_config_request queue_get_config_reply role_request role_reply : OfpType
  get_async_request get_async_reply set_async meter_mod : OfpType

abbrev pub ofp_type : OfpType → ℕ
ofp_type OfpType.hello = 0
ofp_type OfpType.error = 1
ofp_type OfpType.echo_request = 2
ofp_type OfpType.echo_reply = 3
ofp_type OfpType.experimenter = 4
ofp_type OfpType.features_request = 5
ofp_type OfpType.features_reply = 6
ofp_type OfpType.get_config_request = 7
ofp_type OfpType.get_config_reply = 8
ofp_type OfpType.set_config = 9
ofp_type OfpType.packet_in = 10
ofp_type OfpType.flow_removed = 11
ofp_type OfpType.port_status = 12
ofp_type OfpType.packet_out = 13
ofp_type OfpType.flow_mod = 14
ofp_type OfpType.group_mod = 15
ofp_type OfpType.port_mod = 16
ofp_type OfpType.table_mod = 17
ofp_type OfpType.multipart_request = 18
ofp_type OfpType.multipart_reply = 19
ofp_type OfpType.barrier_request = 20
ofp_type OfpType.barrier_reply = 21
ofp_type OfpType.queue_get_config_request = 22
ofp_type OfpType.queue_get_config_reply = 23
ofp_type OfpType.role_request = 24
ofp_type OfpType.role_reply = 25
ofp_type OfpType.get_async_request = 26
ofp_type OfpType.get_async_reply = 27
ofp_type OfpType.set_async = 28
ofp_type OfpType.meter_mod = 29

-- `OFPHET_VERSIONBITMAP`
abbrev pub ofphet_versionbitmap : ℕ
ofphet_versionbitmap = ofp_hello_elem_type OfpHelloElemType.versionbitmap

pub data OfpConfigFlags : Type 0 where
  frag_normal frag_drop frag_reasm frag_mask : OfpConfigFlags

abbrev pub ofp_config_flags : OfpConfigFlags → ℕ
ofp_config_flags OfpConfigFlags.frag_normal = 0
ofp_config_flags OfpConfigFlags.frag_drop = 2 ^ 0
ofp_config_flags OfpConfigFlags.frag_reasm = 2 ^ 1
ofp_config_flags OfpConfigFlags.frag_mask = 3

pub data OfpPortConfig : Type 0 where
  port_down no_recv no_fwd no_packet_in : OfpPortConfig

abbrev pub ofp_port_config : OfpPortConfig → ℕ
ofp_port_config OfpPortConfig.port_down = 2 ^ 0
ofp_port_config OfpPortConfig.no_recv = 2 ^ 2
ofp_port_config OfpPortConfig.no_fwd = 2 ^ 5
ofp_port_config OfpPortConfig.no_packet_in = 2 ^ 6

pub data OfpMatchType : Type 0 where
  standard oxm : OfpMatchType

abbrev pub ofp_match_type : OfpMatchType → ℕ
ofp_match_type OfpMatchType.standard = 0
ofp_match_type OfpMatchType.oxm = 1

-- `OFPAT_OUTPUT`, the one action that the controller writes
abbrev pub ofpat_output : ℕ
ofpat_output = ofp_action_type OfpActionType.output

pub data OfpControllerMaxLen : Type 0 where
  max_len no_buffer : OfpControllerMaxLen

abbrev pub ofp_controller_max_len : OfpControllerMaxLen → ℕ
ofp_controller_max_len OfpControllerMaxLen.max_len = 0xffe5
ofp_controller_max_len OfpControllerMaxLen.no_buffer = 0xffff

pub data OfpInstructionType : Type 0 where
  goto_table write_metadata write_actions apply_actions clear_actions meter : OfpInstructionType
  experimenter : OfpInstructionType

abbrev pub ofp_instruction_type : OfpInstructionType → ℕ
ofp_instruction_type OfpInstructionType.goto_table = 1
ofp_instruction_type OfpInstructionType.write_metadata = 2
ofp_instruction_type OfpInstructionType.write_actions = 3
ofp_instruction_type OfpInstructionType.apply_actions = 4
ofp_instruction_type OfpInstructionType.clear_actions = 5
ofp_instruction_type OfpInstructionType.meter = 6
ofp_instruction_type OfpInstructionType.experimenter = 0xffff

pub data OfpFlowModCommand : Type 0 where
  add modify modify_strict delete delete_strict : OfpFlowModCommand

abbrev pub ofp_flow_mod_command : OfpFlowModCommand → ℕ
ofp_flow_mod_command OfpFlowModCommand.add = 0
ofp_flow_mod_command OfpFlowModCommand.modify = 1
ofp_flow_mod_command OfpFlowModCommand.modify_strict = 2
ofp_flow_mod_command OfpFlowModCommand.delete = 3
ofp_flow_mod_command OfpFlowModCommand.delete_strict = 4

pub data OfpFlowModFlags : Type 0 where
  send_flow_rem check_overlap reset_counts no_pkt_counts no_byt_counts : OfpFlowModFlags

abbrev pub ofp_flow_mod_flags : OfpFlowModFlags → ℕ
ofp_flow_mod_flags OfpFlowModFlags.send_flow_rem = 2 ^ 0
ofp_flow_mod_flags OfpFlowModFlags.check_overlap = 2 ^ 1
ofp_flow_mod_flags OfpFlowModFlags.reset_counts = 2 ^ 2
ofp_flow_mod_flags OfpFlowModFlags.no_pkt_counts = 2 ^ 3
ofp_flow_mod_flags OfpFlowModFlags.no_byt_counts = 2 ^ 4

-- `OFP_NO_BUFFER`
abbrev pub ofp_no_buffer : ℕ
ofp_no_buffer = 0xffffffff

pub data OfpPacketInReason : Type 0 where
  no_match action invalid_ttl : OfpPacketInReason

abbrev pub ofp_packet_in_reason : OfpPacketInReason → ℕ
ofp_packet_in_reason OfpPacketInReason.no_match = 0
ofp_packet_in_reason OfpPacketInReason.action = 1
ofp_packet_in_reason OfpPacketInReason.invalid_ttl = 2

-- `OFPMP_PORT_STATS` and `OFPMP_PORT_DESC`
abbrev pub ofpmp_port_stats : ℕ
ofpmp_port_stats = ofp_multipart_type OfpMultipartType.port_stats

abbrev pub ofpmp_port_desc : ℕ
ofpmp_port_desc = ofp_multipart_type OfpMultipartType.port_desc
