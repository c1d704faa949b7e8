-- ===== src/Wire/Declared.antt =====
-- openflow.h: the structures that are asserted to have a size, and their layout on a host.
use openflow_controller.Prelude.{
  ℕ, zero, suc, ◌+◌, ◌-◌, ◌*◌, ◌/◌, ◌≡◌, refl, ap, ◌∙◌, List, [], ◌∷◌, Bool, true, and_both, ◌&&◌,
  ◌==◌, ==→eq, ◌<◌, subst, some, length, get_elem?, arith,
}
use mathlib.Core.Option.{some-injective}
use openflow_controller.Wire.Layout.{
  Struct, sizeof, offset, alignof, ofp_header, ofp_hello_elem_header, ofp_hello_elem_versionbitmap,
  ofp_hello, ofp_switch_config, ofp_port, ofp_switch_features, ofp_port_status, ofp_port_mod,
  ofp_match, ofp_action_header, ofp_action_output, ofp_instruction_goto_table,
  ofp_instruction_actions, ofp_flow_mod, ofp_packet_out, ofp_packet_in, ofp_multipart_request,
  ofp_multipart_reply,
}
use openflow_controller.Wire.Actions.{
  ofp_table_mod, ofp_oxm_experimenter_header, ofp_action_mpls_ttl, ofp_action_push,
  ofp_action_pop_mpls, ofp_action_group, ofp_action_nw_ttl, ofp_action_set_field,
  ofp_action_experimenter_header, ofp_instruction, ofp_instruction_write_metadata,
  ofp_instruction_meter, ofp_instruction_experimenter, ofp_bucket, ofp_group_mod,
  ofp_action_set_queue,
}
use openflow_controller.Wire.Messages.{
  ofp_flow_removed, ofp_meter_band_header, ofp_meter_band_drop, ofp_meter_band_dscp_remark,
  ofp_meter_band_experimenter, ofp_meter_mod, ofp_error_msg, ofp_error_experimenter_msg,
  ofp_experimenter_multipart_header, ofp_experimenter_header, ofp_queue_prop_header,
  ofp_queue_prop_min_rate, ofp_queue_prop_max_rate, ofp_queue_prop_experimenter, ofp_packet_queue,
  ofp_queue_get_config_request, ofp_queue_get_config_reply, ofp_queue_stats_request,
  ofp_queue_stats, ofp_role_request, ofp_async_config,
}
use openflow_controller.Wire.Multipart.{
  ofp_desc, ofp_flow_stats_request, ofp_flow_stats, ofp_aggregate_stats_request,
  ofp_aggregate_stats_reply, ofp_table_feature_prop_header, ofp_table_feature_prop_instructions,
  ofp_table_feature_prop_next_tables, ofp_table_feature_prop_actions, ofp_table_feature_prop_oxm,
  ofp_table_feature_prop_experimenter, ofp_table_features, ofp_table_stats, ofp_port_stats_request,
  ofp_port_stats, ofp_group_stats_request, ofp_bucket_counter, ofp_group_stats, ofp_group_desc,
  ofp_group_features, ofp_meter_multipart_request, ofp_meter_band_stats, ofp_meter_stats,
  ofp_meter_config, ofp_meter_features,
}

-- `OFP_ASSERT(sizeof(struct s) == n)`
abbrev Assertion : Type 0
Assertion = Struct × ℕ

abbrev assertions : List Assertion
assertions =
    (ofp_header, 8)
    ∷ (ofp_hello_elem_header, 4)
    ∷ (ofp_hello_elem_versionbitmap, 4)
    ∷ (ofp_hello, 8)
    ∷ (ofp_switch_config, 12)
    ∷ (ofp_table_mod, 16)
    ∷ (ofp_port, 64)
    ∷ (ofp_switch_features, 32)
    ∷ (ofp_port_status, 80)
    ∷ (ofp_port_mod, 40)
    ∷ (ofp_match, 8)
    ∷ (ofp_oxm_experimenter_header, 8)
    ∷ (ofp_action_header, 8)
    ∷ (ofp_action_output, 16)
    ∷ (ofp_action_mpls_ttl, 8)
    ∷ (ofp_action_push, 8)
    ∷ (ofp_action_pop_mpls, 8)
    ∷ (ofp_action_group, 8)
    ∷ (ofp_action_nw_ttl, 8)
    ∷ (ofp_action_set_field, 8)
    ∷ (ofp_action_experimenter_header, 8)
    ∷ (ofp_instruction, 4)
    ∷ (ofp_instruction_goto_table, 8)
    ∷ (ofp_instruction_write_metadata, 24)
    ∷ (ofp_instruction_actions, 8)
    ∷ (ofp_instruction_meter, 8)
    ∷ (ofp_instruction_experimenter, 8)
    ∷ (ofp_flow_mod, 56)
    ∷ (ofp_bucket, 16)
    ∷ (ofp_group_mod, 16)
    ∷ (ofp_packet_out, 24)
    ∷ (ofp_packet_in, 32)
    ∷ (ofp_flow_removed, 56)
    ∷ (ofp_meter_band_header, 12)
    ∷ (ofp_meter_band_drop, 16)
    ∷ (ofp_meter_band_dscp_remark, 16)
    ∷ (ofp_meter_band_experimenter, 16)
    ∷ (ofp_meter_mod, 16)
    ∷ (ofp_error_msg, 12)
    ∷ (ofp_error_experimenter_msg, 16)
    ∷ (ofp_multipart_request, 16)
    ∷ (ofp_multipart_reply, 16)
    ∷ (ofp_desc, 1056)
    ∷ (ofp_flow_stats_request, 40)
    ∷ (ofp_flow_stats, 56)
    ∷ (ofp_aggregate_stats_request, 40)
    ∷ (ofp_aggregate_stats_reply, 24)
    ∷ (ofp_table_feature_prop_header, 4)
    ∷ (ofp_table_feature_prop_instructions, 4)
    ∷ (ofp_table_feature_prop_next_tables, 4)
    ∷ (ofp_table_feature_prop_actions, 4)
    ∷ (ofp_table_feature_prop_oxm, 4)
    ∷ (ofp_table_feature_prop_experimenter, 12)
    ∷ (ofp_table_features, 64)
    ∷ (ofp_table_stats, 24)
    ∷ (ofp_port_stats_request, 8)
    ∷ (ofp_port_stats, 112)
    ∷ (ofp_group_stats_request, 8)
    ∷ (ofp_bucket_counter, 16)
    ∷ (ofp_group_stats, 40)
    ∷ (ofp_group_desc, 8)
    ∷ (ofp_group_features, 40)
    ∷ (ofp_meter_multipart_request, 8)
    ∷ (ofp_meter_band_stats, 16)
    ∷ (ofp_meter_stats, 40)
    ∷ (ofp_meter_config, 8)
    ∷ (ofp_meter_features, 16)
    ∷ (ofp_experimenter_multipart_header, 8)
    ∷ (ofp_experimenter_header, 16)
    ∷ (ofp_queue_prop_header, 8)
    ∷ (ofp_queue_prop_min_rate, 16)
    ∷ (ofp_queue_prop_max_rate, 16)
    ∷ (ofp_queue_prop_experimenter, 16)
    ∷ (ofp_packet_queue, 16)
    ∷ (ofp_queue_get_config_request, 16)
    ∷ (ofp_queue_get_config_reply, 16)
    ∷ (ofp_action_set_queue, 8)
    ∷ (ofp_queue_stats_request, 8)
    ∷ (ofp_queue_stats, 40)
    ∷ (ofp_role_request, 24)
    ∷ (ofp_async_config, 32)
    ∷ []

-- `n` rounded up to a multiple of `a`.
unfoldable aligned_up : ℕ → ℕ → ℕ
aligned_up a n = (n + (a - 1)) / a * a

-- The offset of the field of a given index where the host aligns each field, from offset `at` on.
pub host_offset : ℕ → Struct → ℕ → ℕ
host_offset at [] k = at
host_offset at (t ∷ s) zero = aligned_up t.align at
host_offset at (t ∷ s) (suc k) = host_offset (aligned_up t.align at + t.size) s k

-- The size of the structure there, with what is put behind the last field.
unfoldable host_end : ℕ → Struct → ℕ
host_end at [] = at
host_end at (t ∷ s) = host_end (aligned_up t.align at + t.size) s

pub host_sizeof : Struct → ℕ
host_sizeof s = aligned_up (alignof s) (host_end 0 s)

-- Each field stands at a multiple of its alignment from `at` on.
fits : ℕ → Struct → Bool
fits at [] = true
fits at (t ∷ s) = (aligned_up t.align at == at) && fits (at + t.size) s

fits_all : List Assertion → Bool
fits_all [] = true
fits_all (row ∷ rest) =
    (fits 0 row.0 && (aligned_up (alignof row.0) (sizeof row.0) == sizeof row.0))
    && ((sizeof row.0 == row.1) && fits_all rest)

assertions_fit : fits_all assertions ≡ true
unfolding fits_all fits aligned_up
assertions_fit = refl

fits-host_offset :
    (at : ℕ) (s : Struct) (k : ℕ)
    → fits at s ≡ true
    → k < length s
    → host_offset at s k ≡ at + offset s k
unfolding fits host_offset
fits-host_offset at [] k h low = absurd (omega (arith, low))
fits-host_offset at (t ∷ s) zero h low = ==→eq _ at (and_both _ _ h).0 ∙ omega arith
fits-host_offset at (t ∷ s) (suc k) h low =
    ap (λ i. host_offset (i + t.size) s k) (==→eq _ at (and_both _ _ h).0)
    ∙ fits-host_offset (at + t.size) s k (and_both _ _ h).1 (omega (arith, low))
    ∙ omega arith

fits-host_end : (at : ℕ) (s : Struct) → fits at s ≡ true → host_end at s ≡ at + sizeof s
unfolding fits host_end
fits-host_end at [] h = omega arith
fits-host_end at (t ∷ s) h =
    ap (λ i. host_end (i + t.size) s) (==→eq _ at (and_both _ _ h).0)
    ∙ fits-host_end (at + t.size) s (and_both _ _ h).1
    ∙ omega arith

IsLaidOut : Struct → ℕ → Type 0
IsLaidOut s n =
    (sizeof s ≡ n) × (host_sizeof s ≡ n) × ((k : ℕ) → k < length s → host_offset 0 s k ≡ offset s k)

laid_out :
    (s : Struct) (n : ℕ)
    → fits 0 s ≡ true
    → (aligned_up (alignof s) (sizeof s) == sizeof s) ≡ true
    → (sizeof s == n) ≡ true
    → IsLaidOut s n
unfolding IsLaidOut host_sizeof
laid_out s n placed closed size = (
  ==→eq (sizeof s) n size,
  ap (aligned_up (alignof s)) (fits-host_end 0 s placed ∙ omega arith)
      ∙ ==→eq _ (sizeof s) closed
      ∙ ==→eq (sizeof s) n size,
  λ k low. fits-host_offset 0 s k placed low ∙ omega arith,
)

fits_all-IsLaidOut :
    (rows : List Assertion) (i : ℕ) (s : Struct) (n : ℕ)
    → fits_all rows ≡ true
    → get_elem? rows i ≡ some (s, n)
    → IsLaidOut s n
unfolding fits_all
fits_all-IsLaidOut [] i s n h at = absurd cc
fits_all-IsLaidOut (row ∷ rows) zero s n h at =
    let (both, rest) = and_both _ _ h in
    let (placed, closed) = and_both _ _ both in
    subst (λ r. IsLaidOut r.0 r.1) (some-injective row (s, n) at)
      (laid_out row.0 row.1 placed closed (and_both _ _ rest).0)
fits_all-IsLaidOut (row ∷ rows) (suc i) s n h at =
    fits_all-IsLaidOut rows i s n (and_both _ _ (and_both _ _ h).1).1 at

-- Each structure that openflow.h asserts to have a size has that size, both with its fields one behind the
-- other and on a host that puts each field at a multiple of its size (of its elements' or fields', for
-- an array or a structure); and its fields stand at the same offsets in both: the host leaves no gap.
pub assertions-IsLaidOut :
    (i : ℕ) (s : Struct) (n : ℕ)
    → get_elem? assertions i ≡ some (s, n)
    → (sizeof s ≡ n)
      × (host_sizeof s ≡ n)
      × ((k : ℕ) → k < length s → host_offset 0 s k ≡ offset s k)
unfolding IsLaidOut
assertions-IsLaidOut i s n at = fits_all-IsLaidOut assertions i s n assertions_fit at
