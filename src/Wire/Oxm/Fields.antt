-- ===== src/Wire/Oxm/Fields.antt =====
-- The OXM headers of openflow.h that the controller does not write.
use openflow_controller.Prelude.{ℕ, ◌*◌, ◌-◌, ◌^◌}
use openflow_controller.Wire.Oxm.{
  OxmOfbMatchFields, oxm_ofb_match_fields, oxm_header, oxm_header_masked, oxm_class, oxm_field,
  oxm_length,
}

pub data OfpOxmClass : Type 0 where
  nxm_0 nxm_1 openflow_basic experimenter : OfpOxmClass

abbrev ofp_oxm_class : OfpOxmClass → ℕ
ofp_oxm_class OfpOxmClass.nxm_0 = 0x0000
ofp_oxm_class OfpOxmClass.nxm_1 = 0x0001
ofp_oxm_class OfpOxmClass.openflow_basic = 0x8000
ofp_oxm_class OfpOxmClass.experimenter = 0xffff

pub data OfpVlanId : Type 0 where
  present none : OfpVlanId

abbrev ofp_vlan_id : OfpVlanId → ℕ
ofp_vlan_id OfpVlanId.present = 0x1000
ofp_vlan_id OfpVlanId.none = 0x0000

pub data OfpIpv6ExthdrFlags : Type 0 where
  nonext esp auth dest frag router hop unrep unseq : OfpIpv6ExthdrFlags

abbrev ofp_ipv6_exthdr_flags : OfpIpv6ExthdrFlags → ℕ
ofp_ipv6_exthdr_flags OfpIpv6ExthdrFlags.nonext = 2 ^ 0
ofp_ipv6_exthdr_flags OfpIpv6ExthdrFlags.esp = 2 ^ 1
ofp_ipv6_exthdr_flags OfpIpv6ExthdrFlags.auth = 2 ^ 2
ofp_ipv6_exthdr_flags OfpIpv6ExthdrFlags.dest = 2 ^ 3
ofp_ipv6_exthdr_flags OfpIpv6ExthdrFlags.frag = 2 ^ 4
ofp_ipv6_exthdr_flags OfpIpv6ExthdrFlags.router = 2 ^ 5
ofp_ipv6_exthdr_flags OfpIpv6ExthdrFlags.hop = 2 ^ 6
ofp_ipv6_exthdr_flags OfpIpv6ExthdrFlags.unrep = 2 ^ 7
ofp_ipv6_exthdr_flags OfpIpv6ExthdrFlags.unseq = 2 ^ 8

-- `OFP_VLAN_NONE`
abbrev ofp_vlan_none : ℕ
ofp_vlan_none = ofp_vlan_id OfpVlanId.none

-- `OFPXMT_OFB_ALL`
abbrev ofpxmt_ofb_all : ℕ
ofpxmt_ofb_all = 2 ^ 40 - 1

-- `OXM_HEADER_W`: a header for a value and a mask of the same length.
abbrev pub oxm_header_w : ℕ → ℕ → ℕ → ℕ
oxm_header_w class field len = oxm_header_masked class field 1 (len * 2)

-- `OXM_MAKE_WILD_HEADER`
abbrev pub oxm_make_wild_header : ℕ → ℕ
oxm_make_wild_header header = oxm_header_w (oxm_class header) (oxm_field header) (oxm_length header)

abbrev oxm_of_in_phy_port : ℕ
oxm_of_in_phy_port = oxm_header 0x8000 (oxm_ofb_match_fields OxmOfbMatchFields.in_phy_port) 4

abbrev oxm_of_metadata : ℕ
oxm_of_metadata = oxm_header 0x8000 (oxm_ofb_match_fields OxmOfbMatchFields.metadata) 8

abbrev oxm_of_metadata_w : ℕ
oxm_of_metadata_w = oxm_header_w 0x8000 (oxm_ofb_match_fields OxmOfbMatchFields.metadata) 8

abbrev oxm_of_eth_dst_w : ℕ
oxm_of_eth_dst_w = oxm_header_w 0x8000 (oxm_ofb_match_fields OxmOfbMatchFields.eth_dst) 6

abbrev oxm_of_eth_src_w : ℕ
oxm_of_eth_src_w = oxm_header_w 0x8000 (oxm_ofb_match_fields OxmOfbMatchFields.eth_src) 6

abbrev oxm_of_eth_type : ℕ
oxm_of_eth_type = oxm_header 0x8000 (oxm_ofb_match_fields OxmOfbMatchFields.eth_type) 2

abbrev oxm_of_vlan_vid : ℕ
oxm_of_vlan_vid = oxm_header 0x8000 (oxm_ofb_match_fields OxmOfbMatchFields.vlan_vid) 2

abbrev oxm_of_vlan_vid_w : ℕ
oxm_of_vlan_vid_w = oxm_header_w 0x8000 (oxm_ofb_match_fields OxmOfbMatchFields.vlan_vid) 2

abbrev oxm_of_vlan_pcp : ℕ
oxm_of_vlan_pcp = oxm_header 0x8000 (oxm_ofb_match_fields OxmOfbMatchFields.vlan_pcp) 1

abbrev oxm_of_ip_dscp : ℕ
oxm_of_ip_dscp = oxm_header 0x8000 (oxm_ofb_match_fields OxmOfbMatchFields.ip_dscp) 1

abbrev oxm_of_ip_ecn : ℕ
oxm_of_ip_ecn = oxm_header 0x8000 (oxm_ofb_match_fields OxmOfbMatchFields.ip_ecn) 1

abbrev oxm_of_ip_proto : ℕ
oxm_of_ip_proto = oxm_header 0x8000 (oxm_ofb_match_fields OxmOfbMatchFields.ip_proto) 1

abbrev oxm_of_ipv4_src : ℕ
oxm_of_ipv4_src = oxm_header 0x8000 (oxm_ofb_match_fields OxmOfbMatchFields.ipv4_src) 4

abbrev oxm_of_ipv4_src_w : ℕ
oxm_of_ipv4_src_w = oxm_header_w 0x8000 (oxm_ofb_match_fields OxmOfbMatchFields.ipv4_src) 4

abbrev oxm_of_ipv4_dst : ℕ
oxm_of_ipv4_dst = oxm_header 0x8000 (oxm_ofb_match_fields OxmOfbMatchFields.ipv4_dst) 4

abbrev oxm_of_ipv4_dst_w : ℕ
oxm_of_ipv4_dst_w = oxm_header_w 0x8000 (oxm_ofb_match_fields OxmOfbMatchFields.ipv4_dst) 4

abbrev oxm_of_tcp_src : ℕ
oxm_of_tcp_src = oxm_header 0x8000 (oxm_ofb_match_fields OxmOfbMatchFields.tcp_src) 2

abbrev oxm_of_tcp_dst : ℕ
oxm_of_tcp_dst = oxm_header 0x8000 (oxm_ofb_match_fields OxmOfbMatchFields.tcp_dst) 2

abbrev oxm_of_udp_src : ℕ
oxm_of_udp_src = oxm_header 0x8000 (oxm_ofb_match_fields OxmOfbMatchFields.udp_src) 2

abbrev oxm_of_udp_dst : ℕ
oxm_of_udp_dst = oxm_header 0x8000 (oxm_ofb_match_fields OxmOfbMatchFields.udp_dst) 2

abbrev oxm_of_sctp_src : ℕ
oxm_of_sctp_src = oxm_header 0x8000 (oxm_ofb_match_fields OxmOfbMatchFields.sctp_src) 2

abbrev oxm_of_sctp_dst : ℕ
oxm_of_sctp_dst = oxm_header 0x8000 (oxm_ofb_match_fields OxmOfbMatchFields.sctp_dst) 2

abbrev oxm_of_icmpv4_type : ℕ
oxm_of_icmpv4_type = oxm_header 0x8000 (oxm_ofb_match_fields OxmOfbMatchFields.icmpv4_type) 1

abbrev oxm_of_icmpv4_code : ℕ
oxm_of_icmpv4_code = oxm_header 0x8000 (oxm_ofb_match_fields OxmOfbMatchFields.icmpv4_code) 1

abbrev oxm_of_arp_op : ℕ
oxm_of_arp_op = oxm_header 0x8000 (oxm_ofb_match_fields OxmOfbMatchFields.arp_op) 2

abbrev oxm_of_arp_spa : ℕ
oxm_of_arp_spa = oxm_header 0x8000 (oxm_ofb_match_fields OxmOfbMatchFields.arp_spa) 4

abbrev oxm_of_arp_spa_w : ℕ
oxm_of_arp_spa_w = oxm_header_w 0x8000 (oxm_ofb_match_fields OxmOfbMatchFields.arp_spa) 4

abbrev oxm_of_arp_tpa : ℕ
oxm_of_arp_tpa = oxm_header 0x8000 (oxm_ofb_match_fields OxmOfbMatchFields.arp_tpa) 4

abbrev oxm_of_arp_tpa_w : ℕ
oxm_of_arp_tpa_w = oxm_header_w 0x8000 (oxm_ofb_match_fields OxmOfbMatchFields.arp_tpa) 4

abbrev oxm_of_arp_sha : ℕ
oxm_of_arp_sha = oxm_header 0x8000 (oxm_ofb_match_fields OxmOfbMatchFields.arp_sha) 6

abbrev oxm_of_arp_tha : ℕ
oxm_of_arp_tha = oxm_header 0x8000 (oxm_ofb_match_fields OxmOfbMatchFields.arp_tha) 6

abbrev oxm_of_ipv6_src : ℕ
oxm_of_ipv6_src = oxm_header 0x8000 (oxm_ofb_match_fields OxmOfbMatchFields.ipv6_src) 16

abbrev oxm_of_ipv6_src_w : ℕ
oxm_of_ipv6_src_w = oxm_header_w 0x8000 (oxm_ofb_match_fields OxmOfbMatchFields.ipv6_src) 16

abbrev oxm_of_ipv6_dst : ℕ
oxm_of_ipv6_dst = oxm_header 0x8000 (oxm_ofb_match_fields OxmOfbMatchFields.ipv6_dst) 16

abbrev oxm_of_ipv6_dst_w : ℕ
oxm_of_ipv6_dst_w = oxm_header_w 0x8000 (oxm_ofb_match_fields OxmOfbMatchFields.ipv6_dst) 16

abbrev oxm_of_ipv6_flabel : ℕ
oxm_of_ipv6_flabel = oxm_header 0x8000 (oxm_ofb_match_fields OxmOfbMatchFields.ipv6_flabel) 4

abbrev oxm_of_ipv6_flabel_w : ℕ
oxm_of_ipv6_flabel_w = oxm_header_w 0x8000 (oxm_ofb_match_fields OxmOfbMatchFields.ipv6_flabel) 4

abbrev oxm_of_icmpv6_type : ℕ
oxm_of_icmpv6_type = oxm_header 0x8000 (oxm_ofb_match_fields OxmOfbMatchFields.icmpv6_type) 1

abbrev oxm_of_icmpv6_code : ℕ
oxm_of_icmpv6_code = oxm_header 0x8000 (oxm_ofb_match_fields OxmOfbMatchFields.icmpv6_code) 1

abbrev oxm_of_ipv6_nd_target : ℕ
oxm_of_ipv6_nd_target = oxm_header 0x8000 (oxm_ofb_match_fields OxmOfbMatchFields.ipv6_nd_target) 16

abbrev oxm_of_ipv6_nd_sll : ℕ
oxm_of_ipv6_nd_sll = oxm_header 0x8000 (oxm_ofb_match_fields OxmOfbMatchFields.ipv6_nd_sll) 6

abbrev oxm_of_ipv6_nd_tll : ℕ
oxm_of_ipv6_nd_tll = oxm_header 0x8000 (oxm_ofb_match_fields OxmOfbMatchFields.ipv6_nd_tll) 6

abbrev oxm_of_mpls_label : ℕ
oxm_of_mpls_label = oxm_header 0x8000 (oxm_ofb_match_fields OxmOfbMatchFields.mpls_label) 4

abbrev oxm_of_mpls_tc : ℕ
oxm_of_mpls_tc = oxm_header 0x8000 (oxm_ofb_match_fields OxmOfbMatchFields.mpls_tc) 1

abbrev oxm_of_mpls_bos : ℕ
oxm_of_mpls_bos = oxm_header 0x8000 (oxm_ofb_match_fields OxmOfbMatchFields.mpls_bos) 1

abbrev oxm_of_pbb_isid : ℕ
oxm_of_pbb_isid = oxm_header 0x8000 (oxm_ofb_match_fields OxmOfbMatchFields.pbb_isid) 3

abbrev oxm_of_pbb_isid_w : ℕ
oxm_of_pbb_isid_w = oxm_header_w 0x8000 (oxm_ofb_match_fields OxmOfbMatchFields.pbb_isid) 3

abbrev oxm_of_tunnel_id : ℕ
oxm_of_tunnel_id = oxm_header 0x8000 (oxm_ofb_match_fields OxmOfbMatchFields.tunnel_id) 8

abbrev oxm_of_tunnel_id_w : ℕ
oxm_of_tunnel_id_w = oxm_header_w 0x8000 (oxm_ofb_match_fields OxmOfbMatchFields.tunnel_id) 8

abbrev oxm_of_ipv6_exthdr : ℕ
oxm_of_ipv6_exthdr = oxm_header 0x8000 (oxm_ofb_match_fields OxmOfbMatchFields.ipv6_exthdr) 2

abbrev oxm_of_ipv6_exthdr_w : ℕ
oxm_of_ipv6_exthdr_w = oxm_header_w 0x8000 (oxm_ofb_match_fields OxmOfbMatchFields.ipv6_exthdr) 2
