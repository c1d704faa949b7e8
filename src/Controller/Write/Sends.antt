-- ===== src/Controller/Write/Sends.antt =====
-- A message goes out whole and once, however `send` splits it.
use mathlib.Core.List.{append-nil}
use openflow_controller.Prelude.{
  ℕ, ◌+◌, ◌-◌, ◌<◌, ◌≡◌, sym, ap, ◌∙◌, List, [], ◌∷◌, ◌++◌, Option, arith, ne→==, eq→==,
}
use openflow_controller.Memory.{Bytes}
use openflow_controller.Outcome.{Outcome, done, ◌>>=◌}
use openflow_controller.Switch.{OfSwitch}
use openflow_controller.Transfer.{sent, slice}
use openflow_controller.Transfer.Chunks.{wrote, Pending, write_to_lem, Splits, slice-append}
use openflow_controller.Controller.Write.{handle_write_socket, message_sent}

-- Calls of `handle_write_socket`, with the numbers that `send` answers, and all that goes out.
pub sends : Option Bytes → List ℕ → OfSwitch → Outcome (OfSwitch × List ℕ)
unfolding handle_write_socket
sends junk [] s = done (s, [])
sends junk (n ∷ ns) s = do
  (s', out) ← handle_write_socket junk (sent n) s
  (t, rest) ← sends junk ns s'
  done (t, out ++ rest)

wrote-wrote : (n k : ℕ) (s : OfSwitch) → wrote k (wrote n s) ≡ wrote (n + k) s
wrote-wrote n k s = ground arith

module _ (junk : Option Bytes) where
  last_send :
      (s t : OfSwitch)
      → Pending s
      → 0 < s.bytes_expected
      → message_sent (wrote s.bytes_expected s) ≡ done t
      → handle_write_socket junk (sent s.bytes_expected) s
        ≡ done (t, slice s.bytes_expected s.bytes_written s.write_buffer.byte)
  unfolding handle_write_socket
  last_send s t p pos h = rw (
    ne→== s.bytes_expected 0 (omega arith),
    write_to_lem junk s.bytes_expected s p (omega arith) pos,
    eq→== (s.bytes_expected - s.bytes_expected) 0 (omega arith),
    h,
  )

  part_send :
      (n : ℕ) (s : OfSwitch)
      → Pending s
      → n < s.bytes_expected
      → handle_write_socket junk (sent n) s
        ≡ done (wrote n s, slice n s.bytes_written s.write_buffer.byte)
  unfolding handle_write_socket
  part_send n s p h = rw (
    ne→== s.bytes_expected 0 (omega arith),
    write_to_lem junk n s p (omega arith) (omega arith),
    ne→== (s.bytes_expected - n) 0 (omega arith),
  )

  -- However `send` splits a pending message, exactly its bytes go out, in order and once, and the code
  -- goes on as behind a message that is sent in one piece.
  pub sends-message :
      (ns : List ℕ) (s t : OfSwitch)
      → Pending s
      → Splits s.bytes_expected ns
      → message_sent (wrote s.bytes_expected s) ≡ done t
      → sends junk ns s ≡ done (t, slice s.bytes_expected s.bytes_written s.write_buffer.byte)
  unfolding sends
  sends-message [] s t p split h = absurd split
  sends-message (n ∷ []) s t p split h =
      rw (split.0, last_send s t p split.1 h) (ap (λ xs. done (t, xs)) (append-nil _))
  sends-message (n ∷ k ∷ ns) s t p (small, split) h =
      rw (part_send n s p small, sends-message (k ∷ ns) (wrote n s) t rest_pending split rest_sent)
        (ap (λ xs. done (t, xs)) whole)
    where
      e : ℕ
      e = s.bytes_expected

      sum : n + (e - n) ≡ e
      sum = omega arith

      rest_pending : Pending (wrote n s)
      rest_pending = record { safe = p.safe; inside = omega (arith, p.inside); word = p.word }

      rest_sent : message_sent (wrote (e - n) (wrote n s)) ≡ done t
      rest_sent = ap message_sent (wrote-wrote n (e - n) s ∙ ap (λ j. wrote j s) sum) ∙ h

      m : Bytes
      m = s.write_buffer.byte

      whole :
          slice n s.bytes_written m ++ slice (e - n) (s.bytes_written + n) m
          ≡ slice e s.bytes_written m
      whole =
          sym (slice-append n (e - n) s.bytes_written m) ∙ ap (λ j. slice j s.bytes_written m) sum
