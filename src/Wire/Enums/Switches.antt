-- ===== src/Wire/Enums/Switches.antt =====
-- What a switch says of itself and of its ports, openflow.h.
use openflow_controller.Prelude.{ℕ, ◌^◌}

-- `OFP_MAX_TABLE_NAME_LEN`
abbrev ofp_max_table_name_len : ℕ
ofp_max_table_name_len = 32

-- `OFP_MAX_PORT_NAME_LEN`
abbrev ofp_max_port_name_len : ℕ
ofp_max_port_name_len = 16

-- `OFP_TCP_PORT`
abbrev ofp_tcp_port : ℕ
ofp_tcp_port = 6653

-- `OFP_SSL_PORT`
abbrev ofp_ssl_port : ℕ
ofp_ssl_port = 6653

pub data OfpHelloElemType : Type 0 where
  versionbitmap : OfpHelloElemType

abbrev pub ofp_hello_elem_type : OfpHelloElemType → ℕ
ofp_hello_elem_type OfpHelloElemType.versionbitmap = 1

-- `OFP_DEFAULT_MISS_SEND_LEN`
abbrev ofp_default_miss_send_len : ℕ
ofp_default_miss_send_len = 128

pub data OfpTableConfig : Type 0 where
  deprecated_mask : OfpTableConfig

abbrev ofp_table_config : OfpTableConfig → ℕ
ofp_table_config OfpTableConfig.deprecated_mask = 3

pub data OfpTable : Type 0 where
  max all : OfpTable

abbrev ofp_table : OfpTable → ℕ
ofp_table OfpTable.max = 0xfe
ofp_table OfpTable.all = 0xff

pub data OfpCapabilities : Type 0 where
  flow_stats table_stats port_stats group_stats ip_reasm queue_stats : OfpCapabilities
  port_blocked : OfpCapabilities

abbrev ofp_capabilities : OfpCapabilities → ℕ
ofp_capabilities OfpCapabilities.flow_stats = 2 ^ 0
ofp_capabilities OfpCapabilities.table_stats = 2 ^ 1
ofp_capabilities OfpCapabilities.port_stats = 2 ^ 2
ofp_capabilities OfpCapabilities.group_stats = 2 ^ 3
ofp_capabilities OfpCapabilities.ip_reasm = 2 ^ 5
ofp_capabilities OfpCapabilities.queue_stats = 2 ^ 6
ofp_capabilities OfpCapabilities.port_blocked = 2 ^ 8

pub data OfpPortState : Type 0 where
  link_down blocked live : OfpPortState

abbrev ofp_port_state : OfpPortState → ℕ
ofp_port_state OfpPortState.link_down = 2 ^ 0
ofp_port_state OfpPortState.blocked = 2 ^ 1
ofp_port_state OfpPortState.live = 2 ^ 2

pub data OfpPortFeatures : Type 0 where
  rate_10mb_hd rate_10mb_fd rate_100mb_hd rate_100mb_fd rate_1gb_hd rate_1gb_fd : OfpPortFeatures
  rate_10gb_fd rate_40gb_fd rate_100gb_fd rate_1tb_fd other copper fiber autoneg : OfpPortFeatures
  pause pause_asym : OfpPortFeatures

abbrev ofp_port_features : OfpPortFeatures → ℕ
ofp_port_features OfpPortFeatures.rate_10mb_hd = 2 ^ 0
ofp_port_features OfpPortFeatures.rate_10mb_fd = 2 ^ 1
ofp_port_features OfpPortFeatures.rate_100mb_hd = 2 ^ 2
ofp_port_features OfpPortFeatures.rate_100mb_fd = 2 ^ 3
ofp_port_features OfpPortFeatures.rate_1gb_hd = 2 ^ 4
ofp_port_features OfpPortFeatures.rate_1gb_fd = 2 ^ 5
ofp_port_features OfpPortFeatures.rate_10gb_fd = 2 ^ 6
ofp_port_features OfpPortFeatures.rate_40gb_fd = 2 ^ 7
ofp_port_features OfpPortFeatures.rate_100gb_fd = 2 ^ 8
ofp_port_features OfpPortFeatures.rate_1tb_fd = 2 ^ 9
ofp_port_features OfpPortFeatures.other = 2 ^ 10
ofp_port_features OfpPortFeatures.copper = 2 ^ 11
ofp_port_features OfpPortFeatures.fiber = 2 ^ 12
ofp_port_features OfpPortFeatures.autoneg = 2 ^ 13
ofp_port_features OfpPortFeatures.pause = 2 ^ 14
ofp_port_features OfpPortFeatures.pause_asym = 2 ^ 15

pub data OfpPortReason : Type 0 where
  add delete modify : OfpPortReason

abbrev ofp_port_reason : OfpPortReason → ℕ
ofp_port_reason OfpPortReason.add = 0
ofp_port_reason OfpPortReason.delete = 1
ofp_port_reason OfpPortReason.modify = 2

pub data OfpControllerRole : Type 0 where
  role_nochange role_equal role_master role_slave : OfpControllerRole

abbrev ofp_controller_role : OfpControllerRole → ℕ
ofp_controller_role OfpControllerRole.role_nochange = 0
ofp_controller_role OfpControllerRole.role_equal = 1
ofp_controller_role OfpControllerRole.role_master = 2
ofp_controller_role OfpControllerRole.role_slave = 3
