-- ===== src/Controller/Write/Kept.antt =====
-- What `handle_write_socket` keeps of a switch.
use openflow_controller.Prelude.{ℕ, refl, List, [], some, ◌==◌, if◌then◌else◌, Bool-cases, inl, inr}
use openflow_controller.Memory.{Bytes, zero_fill}
use openflow_controller.Memory.Words.{AreBytes}
use openflow_controller.Outcome.{Outcome, done, ◌>>=◌, Gives, Gives-bind, Gives-mono}
use openflow_controller.Switch.{OfSwitch}
use openflow_controller.Transfer.{Sent, write_to}
use openflow_controller.Transfer.Kept.{Kept, same_fd-Kept, write_to-Kept}
use openflow_controller.Packets.Requests.{request_features, set_config, get_port_info}
use openflow_controller.Packets.FlowMod.{write_default_miss}
use openflow_controller.Packets.FlowMod.NewFlow.{write_flow_mod}
use openflow_controller.Controller.Write.{next_message, message_sent, handle_write_socket}

next_message-Kept :
    (s : OfSwitch) → AreBytes s.read_buffer.byte → Gives (next_message s) (λ t. Kept s t)
unfolding next_message request_features set_config get_port_info write_flow_mod write_default_miss
next_message-Kept s h = elim (Bool-cases s.features_requested) [
  | inr a ↦ rw a (record { same_fd = refl; bytes = h })
  | inl a ↦ elim (Bool-cases s.config_set) [
    | inr b ↦ rw (a, b) (record { same_fd = refl; bytes = h })
    | inl b ↦ elim (Bool-cases s.ports_requested) [
      | inr c ↦ rw (a, b, c) (record { same_fd = refl; bytes = h })
      | inl c ↦ elim (Bool-cases s.default_flow_set) [
        | inr d ↦ rw (a, b, c, d) (record { same_fd = refl; bytes = h })
        | inl d ↦ rw (a, b, c, d) (record { same_fd = refl; bytes = h })
      ]
    ]
  ]
]

message_sent-Kept :
    (s : OfSwitch) → AreBytes s.read_buffer.byte → Gives (message_sent s) (λ t. Kept s t)
unfolding message_sent
message_sent-Kept s h =
    Gives-mono (λ t. Kept cleared t) (λ t. Kept s t) (next_message cleared)
      (next_message-Kept cleared h) (λ t k. same_fd-Kept k refl)
  where
    cleared : OfSwitch
    cleared = record s {
      bytes_written = 0;
      write_buffer = zero_fill s.write_buffer_size s.write_buffer;
    }

-- What follows `write_to`.
unfoldable pub after : OfSwitch → OfSwitch × List ℕ → Outcome (OfSwitch × List ℕ)
after s (s', out) =
    if s'.bytes_expected == 0 then (message_sent s' >>= λ t. done (t, out)) else done (s', out)

after-Kept :
    (s s' : OfSwitch) (out : List ℕ) → Kept s s' → Gives (after s (s', out)) (λ r. Kept s r.0)
unfolding after
after-Kept s s' out k = elim (Bool-cases (s'.bytes_expected == 0)) [
  | inl all_out ↦ rw all_out (
      Gives-bind (λ t. Kept s' t) (λ r. Kept s r.0) (message_sent s') (λ t. done (t, out))
        (message_sent-Kept s' k.bytes) (λ t k'. same_fd-Kept k' k.same_fd))
  | inr more ↦ rw more k
]

-- Whatever `send` answers, the call returns as long as memory can be had.
pub handle_write_socket-Kept :
    (junk : Bytes) (answer : Sent) (s : OfSwitch)
    → AreBytes s.read_buffer.byte
    → Gives (handle_write_socket (some junk) answer s) (λ r. Kept s r.0)
unfolding handle_write_socket after
handle_write_socket-Kept junk answer s h = elim (Bool-cases (s.bytes_expected == 0)) [
  | inl none_left ↦ rw none_left (
      Gives-bind (λ t. Kept s t) (λ r. Kept s r.0) (message_sent s) (λ t. done (t, []))
        (message_sent-Kept s h) (λ t k. k))
  | inr some_left ↦ rw some_left (
      Gives-bind (λ r. Kept s r.0) (λ r. Kept s r.0) (write_to (some junk) answer s) (after s)
        (write_to-Kept junk answer s h) (λ r k. after-Kept s r.0 r.1 k))
]
