-- ===== src/Controller/Read/Frames.antt =====
-- The framing of a stream of bytes: a header of 8 bytes, then as many bytes as it announces.
use mathlib.Core.List.{append-nil}
use openflow_controller.Prelude.{
  ◌⊎◌, inl, inr, ℕ, ◌+◌, ◌-◌, ◌^◌, ◌<◌, ◌≤◌, ◌≡◌, ◌≢◌, refl, sym, subst, ap, ◌∙◌, List, [], ◌∷◌,
  ◌++◌, Option, true, false, arith, ne→==, eq→==, length,
}
use openflow_controller.Memory.{deliver, Bytes, peek_be}
use openflow_controller.Outcome.{done}
use openflow_controller.Switch.{OfSwitch}
use openflow_controller.Transfer.{received}
use openflow_controller.Transfer.Chunks.{got, Awaiting, read_from_lem}
use openflow_controller.Controller.Read.{receive, read_header}
use openflow_controller.Controller.Read.Receives.{
  receives, concat, Pieces, got-got, part_recv, receives-body, length-concat, Pieces-pos,
}

-- What the header in the read buffer announces: a length of 8 or more leaves the bytes behind the header
-- to come; a smaller one makes the 16-bit count wrap, and 65528 bytes or more are waited for.
pub read_header-bytes_expected :
    (s : OfSwitch)
    → let len = peek_be 2 2 s.read_buffer.byte in
      len < 2 ^ 16
      → (8 ≤ len → (read_header s).bytes_expected ≡ len - 8)
        × (len < 8 → (read_header s).bytes_expected ≡ 65528 + len)
unfolding read_header
read_header-bytes_expected s small = (λ h. omega arith, λ h. omega arith)

-- The pieces of what stands behind a header: none, or `n` bytes in all.
abbrev pub Body : ℕ → List (List ℕ) → Type 0
Body n bss = ((n ≡ 0) × (bss ≡ [])) ⊎ Pieces n bss

got-nil : (s : OfSwitch) → s ≡ got (concat []) s
unfolding concat deliver
got-nil s = ground arith

module _ (junk : Option Bytes) where
  header_recv :
      (xs : List ℕ) (s : OfSwitch)
      → Awaiting s
      → length xs ≡ s.bytes_expected
      → 0 < s.bytes_expected
      → s.reading_header ≡ true
      → (read_header (got xs s)).bytes_expected ≢ 0
      → receive junk (received xs) s ≡ done (read_header (got xs s), false)
  unfolding receive
  header_recv xs s p e pos header more = rw (
    ne→== s.bytes_expected 0 (omega arith),
    read_from_lem junk xs s p (omega arith) pos,
    eq→== (s.bytes_expected - length xs) 0 (omega arith),
    header,
    ne→== (read_header (got xs s)).bytes_expected 0 more,
  )

  receives-header :
      (hss bss : List (List ℕ)) (s : OfSwitch)
      → Awaiting s
      → Pieces s.bytes_expected hss
      → s.reading_header ≡ true
      → (read_header (got (concat hss) s)).bytes_expected ≢ 0
      → receives junk (hss ++ bss) s ≡ receives junk bss (read_header (got (concat hss) s))
  unfolding receives concat
  receives-header [] bss s p pieces header more = absurd pieces
  receives-header (xs ∷ []) bss s p pieces header more =
      let e = append-nil xs in rw (header_recv xs s p pieces.0 pieces.1 header (rw e at more), e)
  receives-header (xs ∷ ys ∷ hss) bss s p (small, pieces) header more =
      rw (part_recv junk xs s p small) (
        receives-header (ys ∷ hss) bss (got xs s)
          (record {
            safe = record { alive = p.safe.alive; sound = p.safe.sound; room = p.safe.room };
            inside = omega (arith, p.inside);
            word = p.word;
          })
          pieces header
          (subst (λ t. (read_header t).bytes_expected ≢ 0) (sym (got-got xs (ys ++ concat hss) s))
            more)
        ∙ ap (λ t. receives junk bss (read_header t)) (got-got xs (ys ++ concat hss) s))

  -- However `recv` splits a message of `n` bytes behind its header, as long as no piece spans the two: once
  -- the last piece is in, the message is reported as whole, with its type from the header, its bytes
  -- from the start of the read buffer on, and nothing left to come.
  pub receives-message :
      (hss bss : List (List ℕ)) (n : ℕ) (s : OfSwitch)
      → Awaiting s
      → s.bytes_expected ≡ 8
      → s.bytes_read ≡ 0
      → s.reading_header ≡ true
      → Pieces 8 hss
      → Pieces n bss
      → 8 + n ≤ s.read_buffer_size
      → let h = read_header (got (concat hss) s) in
        h.bytes_expected ≡ n → (receives junk (hss ++ bss) s ≡ done (got (concat bss) h, true))
  unfolding read_header
  receives-message hss bss n s p e z header hp bp room count =
      rw (receives-header hss bss s p (rw e hp) header more) (
        receives-body junk bss (read_header (got (concat hss) s))
          (record {
            safe = record { alive = p.safe.alive; sound = p.safe.sound; room = p.safe.room };
            inside = omega (arith, count, length-concat 8 hss hp, z, room);
            word = p.word;
          })
          (rw count bp) refl)
    where
      more : (read_header (got (concat hss) s)).bytes_expected ≢ 0
      more = omega (arith, count, Pieces-pos n bss bp)

  bare_recv :
      (xs : List ℕ) (s : OfSwitch)
      → Awaiting s
      → length xs ≡ s.bytes_expected
      → 0 < s.bytes_expected
      → s.reading_header ≡ true
      → (read_header (got xs s)).bytes_expected ≡ 0
      → receive junk (received xs) s ≡ done (read_header (got xs s), true)
  unfolding receive
  bare_recv xs s p e pos header none_more = rw (
    ne→== s.bytes_expected 0 (omega arith),
    read_from_lem junk xs s p (omega arith) pos,
    eq→== (s.bytes_expected - length xs) 0 (omega arith),
    header,
    eq→== (read_header (got xs s)).bytes_expected 0 none_more,
  )

  got-Awaiting :
      (xs : List ℕ) (s : OfSwitch) → Awaiting s → length xs ≤ s.bytes_expected → Awaiting (got xs s)
  got-Awaiting xs s p h = record {
    safe = record { alive = p.safe.alive; sound = p.safe.sound; room = p.safe.room };
    inside = omega (arith, p.inside);
    word = p.word;
  }

  -- A header that announces nothing behind it is a whole message.
  receives-bare :
      (hss : List (List ℕ)) (s : OfSwitch)
      → Awaiting s
      → Pieces s.bytes_expected hss
      → s.reading_header ≡ true
      → (read_header (got (concat hss) s)).bytes_expected ≡ 0
      → receives junk hss s ≡ done (read_header (got (concat hss) s), true)
  unfolding receives concat
  receives-bare [] s p pieces header none_more = absurd pieces
  receives-bare (xs ∷ []) s p pieces header none_more =
      let e = append-nil xs in rw (bare_recv xs s p pieces.0 pieces.1 header (rw e at none_more), e)
  receives-bare (xs ∷ ys ∷ hss) s p (small, pieces) header none_more =
      let e = got-got xs (ys ++ concat hss) s in
      rw (part_recv junk xs s p small) (
        receives-bare (ys ∷ hss) (got xs s) (got-Awaiting xs s p (omega arith)) pieces header
          (subst (λ t. (read_header t).bytes_expected ≡ 0) (sym e) none_more)
        ∙ ap (λ t. done (read_header t, true)) e)

  -- A header of 8 bytes and the `n` bytes that it announces, if any, are reported as one whole message.
  pub receives-whole :
      (hss bss : List (List ℕ)) (n : ℕ) (s : OfSwitch)
      → Awaiting s
      → s.bytes_expected ≡ 8
      → s.bytes_read ≡ 0
      → s.reading_header ≡ true
      → Pieces 8 hss
      → Body n bss
      → 8 + n ≤ s.read_buffer_size
      → (read_header (got (concat hss) s)).bytes_expected ≡ n
      → receives junk (hss ++ bss) s
        ≡ done (got (concat bss) (read_header (got (concat hss) s)), true)
  receives-whole hss bss n s p e z header hp (inr bp) room count =
      receives-message hss bss n s p e z header hp bp room count
  receives-whole hss bss n s p e z header hp (inl (none_more, empty)) room count =
      rw (empty, append-nil hss)
        (receives-bare hss s p (rw e hp) header (count ∙ none_more)
          ∙ ap (λ t. done (t, true)) (got-nil (read_header (got (concat hss) s))))
