-- ===== src/Controller/Read/Kept.antt =====
-- What the receipt of bytes keeps of a switch.
use openflow_controller.Prelude.{
  refl, some, arith, ◌==◌, if◌then◌else◌, Bool, true, false, Bool-cases, inl, inr,
}
use openflow_controller.Memory.{Bytes, zero_fill, touch}
use openflow_controller.Memory.Words.{AreBytes}
use openflow_controller.Outcome.{Outcome, done, Gives, Gives-bind}
use openflow_controller.Switch.{OfSwitch}
use openflow_controller.Transfer.{Received, read_from}
use openflow_controller.Transfer.Kept.{Kept, read_from-Kept}
use openflow_controller.Controller.Read.{read_header, receive, reset_read}

-- What follows `read_from`.
unfoldable pub judged : OfSwitch → Outcome (OfSwitch × Bool)
judged s =
    if s.bytes_expected == 0
    then (if s.reading_header
        then done (read_header s, (read_header s).bytes_expected == 0)
        else done (s, true))
    else done (s, false)

judged-Kept : (s s' : OfSwitch) → Kept s s' → Gives (judged s') (λ r. Kept s r.0)
unfolding judged read_header
judged-Kept s s' k = elim (Bool-cases (s'.bytes_expected == 0)) [
  | inr more ↦ rw more k
  | inl all_in ↦ elim (Bool-cases s'.reading_header) [
    | inl header ↦ rw (all_in, header) (record { same_fd = k.same_fd; bytes = k.bytes })
    | inr body ↦ rw (all_in, body) (record { same_fd = k.same_fd; bytes = k.bytes })
  ]
]

-- Whatever `recv` answers, the call returns as long as memory can be had.
pub receive-Kept :
    (junk : Bytes) (answer : Received) (s : OfSwitch)
    → AreBytes junk
    → AreBytes s.read_buffer.byte
    → Gives (receive (some junk) answer s) (λ r. Kept s r.0)
unfolding receive judged
receive-Kept junk answer s hj h = elim (Bool-cases (s.bytes_expected == 0)) [
  | inl none_left ↦ rw none_left (judged-Kept s s (record { same_fd = refl; bytes = h }))
  | inr some_left ↦ rw some_left (
      Gives-bind (λ t. Kept s t) (λ r. Kept s r.0) (read_from (some junk) answer s) judged
        (read_from-Kept junk answer s hj h) (λ t k. judged-Kept s t k))
]

pub reset_read-Kept : (s : OfSwitch) → AreBytes s.read_buffer.byte → Kept s (reset_read s)
unfolding reset_read zero_fill touch
reset_read-Kept s h = record { same_fd = ground arith; bytes = λ j. ground (arith, h j) }
