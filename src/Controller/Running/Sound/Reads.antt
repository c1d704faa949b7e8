-- ===== src/Controller/Running/Sound/Reads.antt =====
-- controller.c: the buffers of the connected switches while `handle_read_socket` serves one of them.
use openflow_controller.Prelude.{
  ℕ, ◌+◌, ◌<◌, ◌≤◌, ◌≡◌, ◌⊎◌, refl, sym, ap, ◌∙◌, List, some, Bool, true, false, ◌==◌, ==→eq, arith,
  get_elem?, length, length-set, get_elem?-set_self, Bool-cases, inl, inr,
}
use openflow_controller.Memory.{Bytes, zero_fill}
use openflow_controller.Memory.Safe.{IsSafe-weaken, zero_fill-IsSafe}
use openflow_controller.Memory.Words.{AreBytes}
use openflow_controller.Outcome.{done, Gives, Gives-bind, Gives-both, Gives-done}
use openflow_controller.Switch.{OfSwitch, RwStatus}
use openflow_controller.Transfer.{received}
use openflow_controller.Transfer.Chunks.{Awaiting, got, read_from_lem}
use openflow_controller.Transfer.Kept.{Kept}
use openflow_controller.Packets.Echo.{received_length}
use openflow_controller.Packets.Sound.{IsSound, busy}
use openflow_controller.Controller.{Controller, put_switch}
use openflow_controller.Controller.Links.{switch_at-some}
use openflow_controller.Controller.Tracking.Sockets.{entry}
use openflow_controller.Controller.Read.{
  read_header, receive, dispatch, reset_read, handle_read_socket,
}
use openflow_controller.Controller.Read.Kept.{judged, receive-Kept}
use openflow_controller.Controller.Running.{IsRunning, IsBenign, Runs}
use openflow_controller.Controller.Running.Put.{put-IsRunning}
use openflow_controller.Controller.Running.Dispatch.{dispatch-Runs}
use openflow_controller.Controller.Running.Safety.{settle, framed}
use openflow_controller.Controller.Running.Sound.{
  AllSound, IsFit, IsCalm, put-IsCalm, set-AllSound, dispatch-AllSound,
}

-- The buffers are sound, the switch reads, and a message that is whole leaves nothing to be read.
IsReceived : OfSwitch × Bool → Type 0
IsReceived (s, whole) = IsSound s × (s.rw ≡ RwStatus.read) × (whole ≡ true → s.bytes_expected ≡ 0)

-- A header that is complete announces a message that the read buffer holds.
abbrev pub IsAnnounced : OfSwitch → Type 0
IsAnnounced s =
    s.bytes_expected ≡ 0
    → s.reading_header ≡ true
    → (8 ≤ received_length s) × (received_length s ≤ 1500)

read_header-room :
    (s : OfSwitch)
    → s.bytes_expected ≡ 0
    → s.bytes_read + s.bytes_expected ≡ 8
    → (8 ≤ received_length s) × (received_length s ≤ 1500)
    → (read_header s).bytes_read + (read_header s).bytes_expected ≤ 1500
unfolding read_header received_length
read_header-room s done_reading eight (low, high) = omega (arith, done_reading, eight, low, high)

judged-IsReceived :
    (s : OfSwitch) → s.rw ≡ RwStatus.read → IsAnnounced s → IsSound s → Gives (judged s) IsReceived
unfolding judged read_header IsReceived
judged-IsReceived s reads headed p = elim (Bool-cases (s.bytes_expected == 0)) [
  | inr more ↦ rw more (p, reads, λ e. absurd cc)
  | inl all_in ↦ elim (Bool-cases s.reading_header) [
    | inl header ↦
        rw (all_in, header)
          (
            record {
              read_safe = p.read_safe;
              write_safe = p.write_safe;
              ports_safe = p.ports_safe;
              read_size = p.read_size;
              write_size = p.write_size;
              in_flight = λ h. absurd (busy (sym h ∙ reads));
              at_rest = p.at_rest;
              awaited = λ e. (
                read_header-room s (==→eq s.bytes_expected 0 all_in) ((p.awaited e).1 header)
                    (headed (==→eq s.bytes_expected 0 all_in) header),
                λ h. absurd cc,
              );
            },
            reads,
            λ e. ==→eq _ 0 e,
          )
    | inr body ↦
        rw (all_in, body)
          (
            record {
              read_safe = p.read_safe;
              write_safe = p.write_safe;
              ports_safe = p.ports_safe;
              read_size = p.read_size;
              write_size = p.write_size;
              in_flight = p.in_flight;
              at_rest = p.at_rest;
              awaited = λ e. ((p.awaited e).0, λ h. absurd cc);
            },
            reads,
            λ e. ==→eq s.bytes_expected 0 all_in,
          )
  ]
]

got-IsSound :
    (xs : List ℕ) (s : OfSwitch) → length xs ≤ s.bytes_expected → IsSound s → IsSound (got xs s)
got-IsSound xs s few p = record {
  read_safe = record {
    alive = p.read_safe.alive;
    sound = p.read_safe.sound;
    room = p.read_safe.room;
  };
  write_safe = p.write_safe;
  ports_safe = p.ports_safe;
  read_size = p.read_size;
  write_size = p.write_size;
  in_flight = λ h. omega (arith, p.in_flight h);
  at_rest = p.at_rest;
  awaited = λ e. (omega (arith, (p.awaited e).0, few), λ h. omega (arith, (p.awaited e).1 h, few));
}

some_bytes : (n : ℕ) → (n == 0) ≡ false → 0 < n
some_bytes n h = ground arith

receive-IsReceived :
    (junk : Bytes) (xs : List ℕ) (s : OfSwitch)
    → IsSound s
    → s.rw ≡ RwStatus.read
    → ((t : OfSwitch) → (t ≡ s) ⊎ (t ≡ got xs s) → IsAnnounced t)
    → length xs ≤ s.bytes_expected
    → Gives (receive (some junk) (received xs) s) IsReceived
unfolding receive judged
receive-IsReceived junk xs s p reads announced few = elim (Bool-cases (s.bytes_expected == 0)) [
  | inl none_left ↦ rw none_left (judged-IsReceived s reads (announced s (inl refl)) p)
  | inr some_left ↦
      rw
        (
          some_left,
          read_from_lem (some junk) xs s awaiting few (some_bytes s.bytes_expected some_left),
        )
        (judged-IsReceived (got xs s) reads (announced (got xs s) (inr refl))
          (got-IsSound xs s few p))
]
  where
    awaiting : Awaiting s
    awaiting = record {
      safe = IsSafe-weaken p.read_safe s.read_buffer_size (omega (arith, p.read_size));
      inside = omega (arith, (p.awaited reads).0, p.read_size);
      word = omega (arith, p.read_size);
    }

abbrev header_next : OfSwitch → OfSwitch
header_next s = record s {
  bytes_expected = 8;
  reading_header = true;
  bytes_read = 0;
  read_buffer = zero_fill s.read_buffer_size s.read_buffer;
}

gone : ¬ (RwStatus.write ≡ RwStatus.disconnected)
gone e = absurd cc

header_next-IsSound :
    (s : OfSwitch) → ¬ (s.rw ≡ RwStatus.write) → IsSound s → IsSound (header_next s)
header_next-IsSound s idle p = record {
  read_safe = zero_fill-IsSafe p.read_safe s.read_buffer_size (omega (arith, p.read_size));
  write_safe = p.write_safe;
  ports_safe = p.ports_safe;
  read_size = p.read_size;
  write_size = p.write_size;
  in_flight = λ h. absurd (idle h);
  at_rest = p.at_rest;
  awaited = λ _. (omega arith, λ _. refl);
}

reset_read-IsSound : (s : OfSwitch) → IsSound s → IsSound (reset_read s)
unfolding reset_read
reset_read-IsSound s p = go s.rw refl
  where
    go : (w : RwStatus) → s.rw ≡ w → IsSound (elim w [ RwStatus.write ↦ s | _ ↦ header_next s ])
    go RwStatus.write e = p
    go RwStatus.read e = header_next-IsSound s (λ h. busy (sym h ∙ e)) p
    go RwStatus.disconnected e = header_next-IsSound s (λ h. gone (sym h ∙ e)) p

-- The connected switches are as many as before, and sound.
abbrev pub Settled : ℕ → Controller → Type 0
Settled n c = Runs n c × AllSound n c.switch_list

settle-AllSound :
    (n k : ℕ) (c : Controller)
    → k < n
    → Settled n c
    → Gives (settle k c) (λ c'. AllSound n c'.switch_list)
unfolding settle
settle-AllSound n k c inside (runs, all) =
    let k_inside : k < length c.switch_list =
      omega (arith, runs.running.room, runs.count, inside) in
    let (s, at) = entry c.switch_list k k_inside in
    rw (switch_at-some k s c.switch_list at) (
      set-AllSound n k (reset_read s) c.switch_list all k_inside
        (let q = reset_read-IsSound s ((all k s at).1 inside) in (q.ports_safe, λ _. q)))

framed-AllSound :
    (k : ℕ) (c : Controller) (s t : OfSwitch) (whole : Bool)
    → IsRunning c
    → k < c.num_connected_switches
    → get_elem? c.switch_list k ≡ some s
    → AllSound c.num_connected_switches c.switch_list
    → Kept s t
    → IsReceived (t, whole)
    → (whole ≡ true → IsBenign c k t × (IsFit t × IsCalm k c t))
    → Gives (framed k c (t, whole)) (λ c'. AllSound c.num_connected_switches c'.switch_list)
unfolding framed IsReceived
framed-AllSound k c s t false p inside at all kept (sound, _, _) fit =
    set-AllSound c.num_connected_switches k t c.switch_list all (omega (arith, p.room, inside))
      (sound.ports_safe, λ _. sound)
framed-AllSound k c s t true p inside at all kept (sound, reads, idle) fit =
    let c₁ = put_switch k t c in
    let n = c.num_connected_switches in
    let (b, (f, calm)) = fit refl in
    let k_inside : k < length c.switch_list = omega (arith, p.room, inside) in
    let benign : IsBenign c₁ k t = record {
      heard = b.heard;
      understood = λ h. omega (arith, b.understood h, length-set c.switch_list k t);
    } in
    let p₁ = put-IsRunning c k s t p at kept in
    let at₁ = get_elem?-set_self c.switch_list k t k_inside in
    Gives-bind (λ c'. Settled n c') (λ c'. AllSound n c'.switch_list) (dispatch k t c₁) (settle k)
      (Gives-both (λ c'. Runs n c') (λ c'. AllSound n c'.switch_list) (dispatch k t c₁)
        (dispatch-Runs k t c₁ p₁ inside at₁ benign)
        (dispatch-AllSound k t c₁ p₁ inside at₁
          (set-AllSound n k t c.switch_list all k_inside (sound.ports_safe, λ _. sound)) benign
          (idle refl) (sound.at_rest reads) f (put-IsCalm k t c calm)))
      (λ c' q. settle-AllSound n k c' inside q)

-- A running controller whose connected switches have sound buffers serves the socket of one of them that reads, where `recv`
-- delivers at most the bytes that the switch waits for, a header that is complete announces 8 to 1500 bytes, and a
-- message that they complete is of a known type and as long as its type wants, and names only ports of the table and known
-- devices. It does so without an exit or a crash, and without an access out of the bounds of any buffer: all
-- connected switches have sound buffers afterwards.
pub handle_read_socket-AllSound :
    (junk : Bytes) (xs : List ℕ) (k : ℕ) (s : OfSwitch) (c : Controller)
    → IsRunning c
    → AllSound c.num_connected_switches c.switch_list
    → AreBytes junk
    → k < c.num_connected_switches
    → get_elem? c.switch_list k ≡ some s
    → s.rw ≡ RwStatus.read
    → ((t : OfSwitch) → (t ≡ s) ⊎ (t ≡ got xs s) → IsAnnounced t)
    → length xs ≤ s.bytes_expected
    → ((t : OfSwitch)
        → receive (some junk) (received xs) s ≡ done (t, true)
        → IsBenign c k t × (IsFit t × IsCalm k c t))
    → Gives
        (handle_read_socket (some junk) (received xs) k c)
        (λ c'. AllSound c.num_connected_switches c'.switch_list)
unfolding handle_read_socket framed settle IsReceived
handle_read_socket-AllSound junk xs k s c p all hj inside at reads announced few fit =
    let ((t, whole), e, (kept, got)) =
      Gives-done (λ r. Kept s r.0 × IsReceived r) (receive (some junk) (received xs) s)
        (Gives-both (λ r. Kept s r.0) IsReceived (receive (some junk) (received xs) s)
          (receive-Kept junk (received xs) s hj (p.switches k s inside at).bytes)
          (receive-IsReceived junk xs s ((all k s at).1 inside) reads announced few)) in
    rw (switch_at-some k s c.switch_list at, e)
      (framed-AllSound k c s t whole p inside at all kept got
        (λ yes. fit t (e ∙ ap (λ b. done (t, b)) yes)))
