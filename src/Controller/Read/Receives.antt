-- ===== src/Controller/Read/Receives.antt =====
-- A message comes in whole, however `recv` splits it.
use mathlib.Core.List.{append-nil}
use openflow_controller.Prelude.{
  ℕ, ◌-◌, ◌<◌, ◌≡◌, sym, ap, ◌∙◌, List, [], ◌∷◌, ◌++◌, Option, Bool, true, false, arith, ne→==,
  eq→==, if◌then◌else◌, length, length-append,
}
use openflow_controller.Memory.{Bytes}
use openflow_controller.Outcome.{Outcome, done, ◌>>=◌}
use openflow_controller.Switch.{OfSwitch}
use openflow_controller.Transfer.{received}
use openflow_controller.Transfer.Chunks.{got, Awaiting, read_from_lem, deliver-append}
use openflow_controller.Controller.Read.{receive}

-- Calls of `receive` until it reports a whole message: the switch, and the answers left.
unfoldable pub receives : Option Bytes → List (List ℕ) → OfSwitch → Outcome (OfSwitch × Bool)
unfolding receive
receives junk [] s = done (s, false)
receives junk (xs ∷ xss) s = do
  (s', whole) ← receive junk (received xs) s
  let rest = receives junk xss s'
  if whole then done (s', true) else rest

unfoldable pub concat : List (List ℕ) → List ℕ
concat [] = []
concat (xs ∷ xss) = xs ++ concat xss

-- Pieces of `m` bytes in all, the last one the last of them.
abbrev pub Pieces : ℕ → List (List ℕ) → Type 0
Pieces m [] = ⊥
Pieces m (xs ∷ []) = (length xs ≡ m) × (0 < m)
Pieces m (xs ∷ xss) = (length xs < m) × Pieces (m - length xs) xss

pub length-concat : (m : ℕ) (xss : List (List ℕ)) → Pieces m xss → length (concat xss) ≡ m
unfolding concat
length-concat m [] p = absurd p
length-concat m (xs ∷ []) p = omega (arith, length-append xs [], p.0)
length-concat m (xs ∷ ys ∷ xss) (small, p) =
    omega (
      arith,
      length-append xs (ys ++ concat xss),
      length-concat (m - length xs) (ys ∷ xss) p,
      small,
    )

pub Pieces-pos : (m : ℕ) (xss : List (List ℕ)) → Pieces m xss → 0 < m
Pieces-pos m [] p = absurd p
Pieces-pos m (xs ∷ []) p = p.1
Pieces-pos m (xs ∷ ys ∷ xss) (small, p) = omega arith

pub got-got : (xs ys : List ℕ) (s : OfSwitch) → got ys (got xs s) ≡ got (xs ++ ys) s
got-got xs ys s =
    ground (arith, length-append xs ys, deliver-append xs ys s.bytes_read s.read_buffer.byte)

module _ (junk : Option Bytes) where
  last_recv :
      (xs : List ℕ) (s : OfSwitch)
      → Awaiting s
      → length xs ≡ s.bytes_expected
      → 0 < s.bytes_expected
      → s.reading_header ≡ false
      → receive junk (received xs) s ≡ done (got xs s, true)
  unfolding receive
  last_recv xs s p e pos body = rw (
    ne→== s.bytes_expected 0 (omega arith),
    read_from_lem junk xs s p (omega arith) pos,
    eq→== (s.bytes_expected - length xs) 0 (omega arith),
    body,
  )

  pub part_recv :
      (xs : List ℕ) (s : OfSwitch)
      → Awaiting s
      → length xs < s.bytes_expected
      → receive junk (received xs) s ≡ done (got xs s, false)
  unfolding receive
  part_recv xs s p h = rw (
    ne→== s.bytes_expected 0 (omega arith),
    read_from_lem junk xs s p (omega arith) (omega arith),
    ne→== (s.bytes_expected - length xs) 0 (omega arith),
  )

  -- However `recv` splits the body of a message, the read buffer ends up with all its bytes behind those
  -- already read, nothing is left to come, and the message is reported as whole, at the last piece.
  pub receives-body :
      (xss : List (List ℕ)) (s : OfSwitch)
      → Awaiting s
      → Pieces s.bytes_expected xss
      → s.reading_header ≡ false
      → receives junk xss s ≡ done (got (concat xss) s, true)
  unfolding receives concat
  receives-body [] s p pieces body = absurd pieces
  receives-body (xs ∷ []) s p pieces body =
      rw (last_recv xs s p pieces.0 pieces.1 body)
        (ap (λ ys. done (got ys s, true)) (sym (append-nil xs)))
  receives-body (xs ∷ ys ∷ xss) s p (small, pieces) body = rw (part_recv xs s p small) (
      receives-body (ys ∷ xss) (got xs s)
        (record {
          safe = record { alive = p.safe.alive; sound = p.safe.sound; room = p.safe.room };
          inside = omega (arith, p.inside);
          word = p.word;
        })
        pieces body
      ∙ ap (λ t. done (t, true)) (got-got xs (ys ++ concat xss) s))
