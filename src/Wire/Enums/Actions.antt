-- ===== src/Wire/Enums/Actions.antt =====
-- The actions, groups and meters of openflow.h, and why a flow was removed.
use openflow_controller.Prelude.{ℕ, ◌^◌}

pub data OfpActionType : Type 0 where
  output copy_ttl_out copy_ttl_in set_mpls_ttl dec_mpls_ttl push_vlan pop_vlan : OfpActionType
  push_mpls pop_mpls set_queue group set_nw_ttl dec_nw_ttl set_field push_pbb : OfpActionType
  pop_pbb experimenter : OfpActionType

abbrev pub ofp_action_type : OfpActionType → ℕ
ofp_action_type OfpActionType.output = 0
ofp_action_type OfpActionType.copy_ttl_out = 11
ofp_action_type OfpActionType.copy_ttl_in = 12
ofp_action_type OfpActionType.set_mpls_ttl = 15
ofp_action_type OfpActionType.dec_mpls_ttl = 16
ofp_action_type OfpActionType.push_vlan = 17
ofp_action_type OfpActionType.pop_vlan = 18
ofp_action_type OfpActionType.push_mpls = 19
ofp_action_type OfpActionType.pop_mpls = 20
ofp_action_type OfpActionType.set_queue = 21
ofp_action_type OfpActionType.group = 22
ofp_action_type OfpActionType.set_nw_ttl = 23
ofp_action_type OfpActionType.dec_nw_ttl = 24
ofp_action_type OfpActionType.set_field = 25
ofp_action_type OfpActionType.push_pbb = 26
ofp_action_type OfpActionType.pop_pbb = 27
ofp_action_type OfpActionType.experimenter = 0xffff

-- `OFP_FLOW_PERMANENT`
abbrev ofp_flow_permanent : ℕ
ofp_flow_permanent = 0

-- `OFP_DEFAULT_PRIORITY`
abbrev ofp_default_priority : ℕ
ofp_default_priority = 0x8000

pub data OfpGroup : Type 0 where
  max all any : OfpGroup

abbrev ofp_group : OfpGroup → ℕ
ofp_group OfpGroup.max = 0xffffff00
ofp_group OfpGroup.all = 0xfffffffc
ofp_group OfpGroup.any = 0xffffffff

pub data OfpGroupModCommand : Type 0 where
  add modify delete : OfpGroupModCommand

abbrev ofp_group_mod_command : OfpGroupModCommand → ℕ
ofp_group_mod_command OfpGroupModCommand.add = 0
ofp_group_mod_command OfpGroupModCommand.modify = 1
ofp_group_mod_command OfpGroupModCommand.delete = 2

pub data OfpGroupType : Type 0 where
  all select indirect ff : OfpGroupType

abbrev ofp_group_type : OfpGroupType → ℕ
ofp_group_type OfpGroupType.all = 0
ofp_group_type OfpGroupType.select = 1
ofp_group_type OfpGroupType.indirect = 2
ofp_group_type OfpGroupType.ff = 3

pub data OfpGroupCapabilities : Type 0 where
  select_weight select_liveness chaining chaining_checks : OfpGroupCapabilities

abbrev ofp_group_capabilities : OfpGroupCapabilities → ℕ
ofp_group_capabilities OfpGroupCapabilities.select_weight = 2 ^ 0
ofp_group_capabilities OfpGroupCapabilities.select_liveness = 2 ^ 1
ofp_group_capabilities OfpGroupCapabilities.chaining = 2 ^ 2
ofp_group_capabilities OfpGroupCapabilities.chaining_checks = 2 ^ 3

pub data OfpFlowRemovedReason : Type 0 where
  idle_timeout hard_timeout delete group_delete : OfpFlowRemovedReason

abbrev ofp_flow_removed_reason : OfpFlowRemovedReason → ℕ
ofp_flow_removed_reason OfpFlowRemovedReason.idle_timeout = 0
ofp_flow_removed_reason OfpFlowRemovedReason.hard_timeout = 1
ofp_flow_removed_reason OfpFlowRemovedReason.delete = 2
ofp_flow_removed_reason OfpFlowRemovedReason.group_delete = 3

pub data OfpMeter : Type 0 where
  max slowpath controller all : OfpMeter

abbrev ofp_meter : OfpMeter → ℕ
ofp_meter OfpMeter.max = 0xffff0000
ofp_meter OfpMeter.slowpath = 0xfffffffd
ofp_meter OfpMeter.controller = 0xfffffffe
ofp_meter OfpMeter.all = 0xffffffff

pub data OfpMeterBandType : Type 0 where
  drop dscp_remark experimenter : OfpMeterBandType

abbrev ofp_meter_band_type : OfpMeterBandType → ℕ
ofp_meter_band_type OfpMeterBandType.drop = 1
ofp_meter_band_type OfpMeterBandType.dscp_remark = 2
ofp_meter_band_type OfpMeterBandType.experimenter = 0xffff

pub data OfpMeterModCommand : Type 0 where
  add modify delete : OfpMeterModCommand

abbrev ofp_meter_mod_command : OfpMeterModCommand → ℕ
ofp_meter_mod_command OfpMeterModCommand.add = 0
ofp_meter_mod_command OfpMeterModCommand.modify = 1
ofp_meter_mod_command OfpMeterModCommand.delete = 2

pub data OfpMeterFlags : Type 0 where
  kbps pktps burst stats : OfpMeterFlags

abbrev ofp_meter_flags : OfpMeterFlags → ℕ
ofp_meter_flags OfpMeterFlags.kbps = 2 ^ 0
ofp_meter_flags OfpMeterFlags.pktps = 2 ^ 1
ofp_meter_flags OfpMeterFlags.burst = 2 ^ 2
ofp_meter_flags OfpMeterFlags.stats = 2 ^ 3
