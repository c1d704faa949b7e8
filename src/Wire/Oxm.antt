-- ===== src/Wire/Oxm.antt =====
-- OXM headers: the match fields of the basic class, and the macros that pack and unpack a header.
pub mod Fields
pub mod Packing
use openflow_controller.Prelude.{ℕ, ◌+◌, ltb, if◌then◌else◌, ◌*◌, ◌/◌, ◌%◌, ◌^◌, bit_or}

pub data OxmOfbMatchFields : Type 0 where
  in_port in_phy_port metadata eth_dst eth_src eth_type vlan_vid vlan_pcp : OxmOfbMatchFields
  ip_dscp ip_ecn ip_proto ipv4_src ipv4_dst tcp_src tcp_dst udp_src udp_dst : OxmOfbMatchFields
  sctp_src sctp_dst icmpv4_type icmpv4_code arp_op arp_spa arp_tpa arp_sha : OxmOfbMatchFields
  arp_tha ipv6_src ipv6_dst ipv6_flabel icmpv6_type icmpv6_code : OxmOfbMatchFields
  ipv6_nd_target ipv6_nd_sll ipv6_nd_tll mpls_label mpls_tc mpls_bos : OxmOfbMatchFields
  pbb_isid tunnel_id ipv6_exthdr : OxmOfbMatchFields

abbrev pub oxm_ofb_match_fields : OxmOfbMatchFields → ℕ
oxm_ofb_match_fields OxmOfbMatchFields.in_port = 0
oxm_ofb_match_fields OxmOfbMatchFields.in_phy_port = 1
oxm_ofb_match_fields OxmOfbMatchFields.metadata = 2
oxm_ofb_match_fields OxmOfbMatchFields.eth_dst = 3
oxm_ofb_match_fields OxmOfbMatchFields.eth_src = 4
oxm_ofb_match_fields OxmOfbMatchFields.eth_type = 5
oxm_ofb_match_fields OxmOfbMatchFields.vlan_vid = 6
oxm_ofb_match_fields OxmOfbMatchFields.vlan_pcp = 7
oxm_ofb_match_fields OxmOfbMatchFields.ip_dscp = 8
oxm_ofb_match_fields OxmOfbMatchFields.ip_ecn = 9
oxm_ofb_match_fields OxmOfbMatchFields.ip_proto = 10
oxm_ofb_match_fields OxmOfbMatchFields.ipv4_src = 11
oxm_ofb_match_fields OxmOfbMatchFields.ipv4_dst = 12
oxm_ofb_match_fields OxmOfbMatchFields.tcp_src = 13
oxm_ofb_match_fields OxmOfbMatchFields.tcp_dst = 14
oxm_ofb_match_fields OxmOfbMatchFields.udp_src = 15
oxm_ofb_match_fields OxmOfbMatchFields.udp_dst = 16
oxm_ofb_match_fields OxmOfbMatchFields.sctp_src = 17
oxm_ofb_match_fields OxmOfbMatchFields.sctp_dst = 18
oxm_ofb_match_fields OxmOfbMatchFields.icmpv4_type = 19
oxm_ofb_match_fields OxmOfbMatchFields.icmpv4_code = 20
oxm_ofb_match_fields OxmOfbMatchFields.arp_op = 21
oxm_ofb_match_fields OxmOfbMatchFields.arp_spa = 22
oxm_ofb_match_fields OxmOfbMatchFields.arp_tpa = 23
oxm_ofb_match_fields OxmOfbMatchFields.arp_sha = 24
oxm_ofb_match_fields OxmOfbMatchFields.arp_tha = 25
oxm_ofb_match_fields OxmOfbMatchFields.ipv6_src = 26
oxm_ofb_match_fields OxmOfbMatchFields.ipv6_dst = 27
oxm_ofb_match_fields OxmOfbMatchFields.ipv6_flabel = 28
oxm_ofb_match_fields OxmOfbMatchFields.icmpv6_type = 29
oxm_ofb_match_fields OxmOfbMatchFields.icmpv6_code = 30
oxm_ofb_match_fields OxmOfbMatchFields.ipv6_nd_target = 31
oxm_ofb_match_fields OxmOfbMatchFields.ipv6_nd_sll = 32
oxm_ofb_match_fields OxmOfbMatchFields.ipv6_nd_tll = 33
oxm_ofb_match_fields OxmOfbMatchFields.mpls_label = 34
oxm_ofb_match_fields OxmOfbMatchFields.mpls_tc = 35
oxm_ofb_match_fields OxmOfbMatchFields.mpls_bos = 36
oxm_ofb_match_fields OxmOfbMatchFields.pbb_isid = 37
oxm_ofb_match_fields OxmOfbMatchFields.tunnel_id = 38
oxm_ofb_match_fields OxmOfbMatchFields.ipv6_exthdr = 39

-- `OXM_HEADER__` and `OXM_HEADER`. The arithmetic is that of `int`, of which a number here is the 32 bits: the shift drops
-- what goes past them, which the C standard leaves undefined.
abbrev pub oxm_header_masked : ℕ → ℕ → ℕ → ℕ → ℕ
oxm_header_masked class field hasmask len =
    bit_or (bit_or (bit_or (class * 2 ^ 16 % 2 ^ 32) (field * 2 ^ 9)) (hasmask * 2 ^ 8)) len

abbrev pub oxm_header : ℕ → ℕ → ℕ → ℕ
oxm_header class field len = oxm_header_masked class field 0 len

-- `OXM_CLASS`, a shift that fills with the sign bit
abbrev pub oxm_class : ℕ → ℕ
oxm_class header = if ltb header (2 ^ 31) then header / 2 ^ 16 else header / 2 ^ 16 + 0xffff0000

-- `OXM_FIELD`, `OXM_TYPE`, `OXM_HASMASK` and `OXM_LENGTH`
abbrev pub oxm_field : ℕ → ℕ
oxm_field header = header / 2 ^ 9 % 2 ^ 7

abbrev pub oxm_type : ℕ → ℕ
oxm_type header = header / 2 ^ 9 % 2 ^ 23

abbrev pub oxm_hasmask : ℕ → ℕ
oxm_hasmask header = header / 2 ^ 8 % 2

abbrev pub oxm_length : ℕ → ℕ
oxm_length header = header % 2 ^ 8

-- `OFPXMC_OPENFLOW_BASIC`
abbrev ofpxmc_openflow_basic : ℕ
ofpxmc_openflow_basic = 0x8000

-- `OXM_OF_IN_PORT`, `OXM_OF_ETH_DST` and `OXM_OF_ETH_SRC`
abbrev pub oxm_of_in_port : ℕ
oxm_of_in_port = oxm_header 0x8000 (oxm_ofb_match_fields OxmOfbMatchFields.in_port) 4

abbrev pub oxm_of_eth_dst : ℕ
oxm_of_eth_dst = oxm_header 0x8000 (oxm_ofb_match_fields OxmOfbMatchFields.eth_dst) 6

abbrev pub oxm_of_eth_src : ℕ
oxm_of_eth_src = oxm_header 0x8000 (oxm_ofb_match_fields OxmOfbMatchFields.eth_src) 6
