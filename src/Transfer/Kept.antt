-- ===== src/Transfer/Kept.antt =====
-- What a transfer keeps of a switch, whatever the kernel answers.
use openflow_controller.Prelude.{ℕ, ◌≡◌, refl, ◌∙◌, some, arith, ◌==◌, Bool-cases, inl, inr}
use openflow_controller.Memory.{Bytes, Buffer, reallocate, touch}
use openflow_controller.Memory.Words.{AreBytes, AreBytes-deliver}
use openflow_controller.Outcome.{Gives}
use openflow_controller.Switch.{OfSwitch}
use openflow_controller.Transfer.{
  Sent, sent, send_failed, Received, received, recv_failed, after_send, after_recv, write_to,
  read_from, resize_buffer,
}

-- The descriptor, and that the read buffer holds bytes.
pub record Kept (s t : OfSwitch) : Type 0 where
  pub same_fd : t.socket_fd ≡ s.socket_fd
  pub bytes : AreBytes t.read_buffer.byte

AreBytes-reallocate :
    (n : ℕ) (junk : Bytes) (b : Buffer)
    → AreBytes junk
    → AreBytes b.byte
    → AreBytes (reallocate n junk b).byte
unfolding reallocate
AreBytes-reallocate n junk b hj hb j = ground (arith, hj j, hb j)

after_send-Kept :
    (answer : Sent) (s : OfSwitch) → AreBytes s.read_buffer.byte → Kept s (after_send answer s).0
unfolding after_send
after_send-Kept (sent n) s h = record { same_fd = refl; bytes = h }
after_send-Kept send_failed s h = record { same_fd = refl; bytes = h }

after_recv-Kept :
    (answer : Received) (s : OfSwitch) → AreBytes s.read_buffer.byte → Kept s (after_recv answer s)
unfolding after_recv touch
after_recv-Kept (received xs) s h = record {
  same_fd = refl;
  bytes = AreBytes-deliver xs s.bytes_read s.read_buffer.byte h;
}
after_recv-Kept recv_failed s h = record { same_fd = refl; bytes = h }

pub same_fd-Kept : {s s' t : OfSwitch} → Kept s' t → s'.socket_fd ≡ s.socket_fd → Kept s t
same_fd-Kept k e = record { same_fd = k.same_fd ∙ e; bytes = k.bytes }

pub write_to-Kept :
    (junk : Bytes) (answer : Sent) (s : OfSwitch)
    → AreBytes s.read_buffer.byte
    → Gives (write_to (some junk) answer s) (λ r. Kept s r.0)
unfolding write_to resize_buffer
write_to-Kept junk answer s h = elim (Bool-cases (s.write_buffer_size == s.bytes_written)) [
  | inl full ↦ rw full (same_fd-Kept (after_send-Kept answer _ h) refl)
  | inr room ↦ rw room (after_send-Kept answer s h)
]

pub read_from-Kept :
    (junk : Bytes) (answer : Received) (s : OfSwitch)
    → AreBytes junk
    → AreBytes s.read_buffer.byte
    → Gives (read_from (some junk) answer s) (λ t. Kept s t)
unfolding read_from resize_buffer
read_from-Kept junk answer s hj h = elim (Bool-cases (s.read_buffer_size == s.bytes_read)) [
  | inl full ↦
      rw full (
        same_fd-Kept (after_recv-Kept answer _ (AreBytes-reallocate _ junk s.read_buffer hj h))
          refl)
  | inr room ↦ rw room (after_recv-Kept answer s h)
]
