-- ===== src/Controller/Write/Sound.antt =====
-- controller.c: the buffers of a switch while `handle_write_socket` serves it.
use openflow_controller.Prelude.{
  ℕ, ◌+◌, ◌<◌, ◌≤◌, ◌≡◌, refl, sym, ◌∙◌, subst, List, [], some, Bool, true, false, ◌==◌, ==→eq,
  arith, Bool-cases, inl, inr,
}
use openflow_controller.Memory.{Bytes, zero_fill}
use openflow_controller.Memory.Fields.{extent}
use openflow_controller.Memory.Safe.{IsSafe, IsSafe-weaken, store_fields-IsSafe, zero_fill-IsSafe}
use openflow_controller.Outcome.{done, Gives, Gives-bind}
use openflow_controller.Switch.{OfSwitch, RwStatus}
use openflow_controller.Transfer.{sent, slice}
use openflow_controller.Transfer.Chunks.{Pending, wrote, write_to_lem}
use openflow_controller.Packets.Requests.{request_features, set_config, get_port_info}
use openflow_controller.Packets.FlowMod.{
  write_default_miss, default_miss_fields, default_miss_length,
}
use openflow_controller.Packets.FlowMod.NewFlow.{write_flow_mod}
use openflow_controller.Packets.Sound.{IsSound, busy}
use openflow_controller.Controller.Write.{next_message, message_sent, handle_write_socket}
use openflow_controller.Controller.Write.Kept.{after}

-- What is written to the write buffer alone.
rewritten :
    (s t : OfSwitch)
    → IsSound s
    → t.read_buffer ≡ s.read_buffer
    → t.connected_ports ≡ s.connected_ports
    → t.read_buffer_size ≡ s.read_buffer_size
    → t.write_buffer_size ≡ s.write_buffer_size
    → IsSafe 1500 t.write_buffer
    → (t.rw ≡ RwStatus.write → t.bytes_written + t.bytes_expected ≤ 1500)
    → (t.rw ≡ RwStatus.read → t.bytes_written ≡ 0)
    → (t.rw ≡ RwStatus.read
        → (t.bytes_read + t.bytes_expected ≤ 1500)
          × (t.reading_header ≡ true → t.bytes_read + t.bytes_expected ≡ 8))
    → IsSound t
rewritten s t p r c n m w flight rest reads = record {
  read_safe = subst (IsSafe 1500) (sym r) p.read_safe;
  write_safe = w;
  ports_safe = subst (IsSafe 3200) (sym c) p.ports_safe;
  read_size = n ∙ p.read_size;
  write_size = m ∙ p.write_size;
  in_flight = flight;
  at_rest = rest;
  awaited = reads;
}

default_room : (xid : ℕ) (broadcast : Bool) → extent (default_miss_fields xid broadcast) ≤ 500
unfolding default_miss_fields extent
default_room xid true = omega arith
default_room xid false = omega arith

default_length : (broadcast : Bool) → default_miss_length broadcast ≤ 500
unfolding default_miss_length
default_length true = omega arith
default_length false = omega arith

write_default_miss-IsSound :
    (s : OfSwitch) (broadcast : Bool)
    → s.bytes_expected ≤ 1000
    → s.bytes_written ≡ 0
    → IsSound s
    → IsSound (write_default_miss s broadcast)
unfolding write_default_miss
write_default_miss-IsSound s broadcast room rest p =
    rewritten s _ p refl refl refl refl
      (store_fields-IsSafe p.write_safe (default_miss_fields s.xid broadcast) s.bytes_expected
        (omega (arith, room, default_room s.xid broadcast)))
      (λ _. omega (arith, rest, room, default_length broadcast)) (λ e. absurd (busy e))
      (λ e. absurd (busy e))

written-first : (s : OfSwitch) → (write_default_miss s false).bytes_written ≡ s.bytes_written
unfolding write_default_miss
written-first s = refl

first_rule :
    (s : OfSwitch) → s.bytes_expected ≡ 0 → (write_default_miss s false).bytes_expected ≤ 1000
unfolding write_default_miss default_miss_length
first_rule s idle = omega (arith, idle)

next_message-IsSound :
    (s : OfSwitch)
    → s.bytes_expected ≡ 0
    → s.bytes_written ≡ 0
    → IsSound s
    → Gives (next_message s) IsSound
unfolding next_message request_features set_config get_port_info write_flow_mod extent
next_message-IsSound s idle rest p = elim (Bool-cases s.features_requested) [
  | inr a ↦ rw a (
      rewritten s _ p refl refl refl refl (store_fields-IsSafe p.write_safe _ 0 (omega arith))
        (λ _. omega (arith, rest)) (λ e. absurd (busy e)) (λ e. absurd (busy e)))
  | inl a ↦ elim (Bool-cases s.config_set) [
    | inr b ↦
        rw (a, b)
          (rewritten s _ p refl refl refl refl (store_fields-IsSafe p.write_safe _ 0 (omega arith))
            (λ _. omega (arith, rest)) (λ e. absurd (busy e)) (λ e. absurd (busy e)))
    | inl b ↦ elim (Bool-cases s.ports_requested) [
      | inr c ↦
          rw (a, b, c)
            (rewritten s _ p refl refl refl refl
              (store_fields-IsSafe p.write_safe _ 0 (omega arith)) (λ _. omega (arith, rest))
              (λ e. absurd (busy e)) (λ e. absurd (busy e)))
      | inl c ↦ elim (Bool-cases s.default_flow_set) [
        | inr d ↦
            let one = write_default_miss-IsSound s false (omega (arith, idle)) rest p in
            let two =
              write_default_miss-IsSound (write_default_miss s false) true (first_rule s idle)
                (written-first s ∙ rest) one in
            simp (a, b, c, d)
              (rewritten (write_default_miss (write_default_miss s false) true) _ two refl refl refl
                refl two.write_safe two.in_flight two.at_rest two.awaited)
        | inl d ↦
            rw (a, b, c, d)
              (rewritten s _ p refl refl refl refl p.write_safe (λ e. absurd (busy (sym e)))
                (λ _. refl) (λ _. (omega arith, λ _. refl)))
      ]
    ]
  ]
]

message_sent-IsSound :
    (s : OfSwitch) → s.bytes_expected ≡ 0 → IsSound s → Gives (message_sent s) IsSound
unfolding message_sent
message_sent-IsSound s idle p = next_message-IsSound cleared idle refl (
    rewritten s cleared p refl refl refl refl
      (zero_fill-IsSafe p.write_safe s.write_buffer_size (omega (arith, p.write_size)))
      (λ _. omega (arith, idle)) (λ _. refl) p.awaited)
  where
    cleared : OfSwitch
    cleared = record s {
      bytes_written = 0;
      write_buffer = zero_fill s.write_buffer_size s.write_buffer;
    }

after-IsSound :
    (s s' : OfSwitch) (out : List ℕ) → IsSound s' → Gives (after s (s', out)) (λ r. IsSound r.0)
unfolding after
after-IsSound s s' out p = elim (Bool-cases (s'.bytes_expected == 0)) [
  | inl all_out ↦ rw all_out (
      Gives-bind IsSound (λ r. IsSound r.0) (message_sent s') (λ t. done (t, out))
        (message_sent-IsSound s' (==→eq s'.bytes_expected 0 all_out) p) (λ t q. q))
  | inr more ↦ rw more p
]

some_bytes : (n : ℕ) → (n == 0) ≡ false → 0 < n
some_bytes n h = ground arith

-- Where `send` takes at most the bytes that it is offered by a switch that writes, the call returns and the buffers stay
-- sound.
pub handle_write_socket-IsSound :
    (junk : Bytes) (n : ℕ) (s : OfSwitch)
    → IsSound s
    → s.rw ≡ RwStatus.write
    → n ≤ s.bytes_expected
    → Gives (handle_write_socket (some junk) (sent n) s) (λ r. IsSound r.0)
unfolding handle_write_socket after
handle_write_socket-IsSound junk n s p writing few = elim (Bool-cases (s.bytes_expected == 0)) [
  | inl none_left ↦ rw none_left (
      Gives-bind IsSound (λ r. IsSound r.0) (message_sent s) (λ t. done (t, []))
        (message_sent-IsSound s (==→eq s.bytes_expected 0 none_left) p) (λ t q. q))
  | inr some_left ↦
      rw
        (
          some_left,
          write_to_lem (some junk) n s pending few (some_bytes s.bytes_expected some_left),
        )
        (after-IsSound s (wrote n s) (slice n s.bytes_written s.write_buffer.byte) (
          rewritten s (wrote n s) p refl refl refl refl p.write_safe
            (λ _. omega (arith, p.in_flight writing, few)) (λ e. absurd (busy (sym writing ∙ e)))
            (λ e. absurd (busy (sym writing ∙ e)))))
]
  where
    pending : Pending s
    pending = record {
      safe = IsSafe-weaken p.write_safe s.write_buffer_size (omega (arith, p.write_size));
      inside = omega (arith, p.in_flight writing, p.write_size);
      word = omega (arith, p.write_size);
    }
