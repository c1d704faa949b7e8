-- ===== src/Controller/Read/Failure.antt =====
-- What happens to the other connections when one of them sends a message that is not understood.
use openflow_controller.Prelude.{
  ℕ, zero, suc, ◌+◌, ◌<◌, ◌≤◌, ◌≡◌, ◌≢◌, refl, sym, ap, ◌∙◌, List, [], ◌∷◌, some, Bool, false, ◌&&◌,
  ◌||◌, arith, ◌==◌, ltb, leb, if◌then◌else◌, length, get_elem?, set, length-set,
  get_elem?-set_self, get_elem?-set_ne,
}
use mathlib.Core.Option
use openflow_controller.Outcome.{done, crashed}
use openflow_controller.Switch.{OfSwitch, RwStatus}
use openflow_controller.Controller.Read.{dispatch}
use openflow_controller.Controller.{
  Controller, put_switch, free_buffers, free_from, free_switch_buffers,
}

-- The list with `n` entries from `k` on freed.
unfoldable pub freed : ℕ → ℕ → List OfSwitch → List OfSwitch
freed zero k ss = ss
freed (suc n) k [] = []
freed (suc n) zero (s ∷ ss) = free_buffers s ∷ freed n zero ss
freed (suc n) (suc k) (s ∷ ss) = s ∷ freed (suc n) k ss

pub free_from_lem :
    (n k : ℕ) (ss : List OfSwitch) → k + n ≤ length ss → free_from n k ss ≡ done (freed n k ss)
unfolding free_from freed
free_from_lem zero k ss h = refl
free_from_lem (suc n) k [] h = absurd (omega arith)
free_from_lem (suc n) zero (s ∷ ss) h = rw (free_from_lem n zero ss (omega arith))
free_from_lem (suc n) (suc k) (s ∷ ss) h = rw (free_from_lem (suc n) k ss (omega arith))

free_from-crashed :
    (n k : ℕ) (ss : List OfSwitch) → length ss < k + n → k ≤ length ss → free_from n k ss ≡ crashed
unfolding free_from
free_from-crashed zero k ss h l = absurd (omega arith)
free_from-crashed (suc n) k [] h l = refl
free_from-crashed (suc n) zero (s ∷ ss) h l =
    rw (free_from-crashed n zero ss (omega arith) (omega arith))
free_from-crashed (suc n) (suc k) (s ∷ ss) h l =
    rw (free_from-crashed (suc n) k ss (omega arith) (omega arith))

pub get_elem?-freed :
    (n k j : ℕ) (ss : List OfSwitch)
    → get_elem? (freed n k ss) j ≡ (
        if leb k j && ltb j (k + n)
        then Option.map free_buffers (get_elem? ss j)
        else get_elem? ss j)
unfolding freed
get_elem?-freed zero k j ss = ground arith
get_elem?-freed (suc n) k j [] = ground arith
get_elem?-freed (suc n) zero zero (s ∷ ss) = ground arith
get_elem?-freed (suc n) zero (suc j) (s ∷ ss) = ground (arith, get_elem?-freed n zero j ss)
get_elem?-freed (suc n) (suc k) zero (s ∷ ss) = ground arith
get_elem?-freed (suc n) (suc k) (suc j) (s ∷ ss) = ground (arith, get_elem?-freed (suc n) k j ss)

pub length-freed : (n k : ℕ) (ss : List OfSwitch) → length (freed n k ss) ≡ length ss
unfolding freed
length-freed zero k ss = refl
length-freed (suc n) k [] = refl
length-freed (suc n) zero (s ∷ ss) = ap suc (length-freed n zero ss)
length-freed (suc n) (suc k) (s ∷ ss) = ap suc (length-freed (suc n) k ss)

-- The types that `handle_read_socket` dispatches on.
abbrev pub is_known : ℕ → Bool
is_known type =
    (type == 2)
    || ((type == 0)
        || ((type == 6) || ((type == 10) || ((type == 19) || ((type == 12) || (type == 11))))))

module _ (k : ℕ) (s : OfSwitch) (c : Controller) where
  failed : OfSwitch
  failed = record s { rw = RwStatus.disconnected }

  dispatch-default :
      is_known s.of_status ≡ false → dispatch k s c ≡ free_switch_buffers k (put_switch k failed c)
  unfolding dispatch failed
  dispatch-default unknown = ground arith

  left : List OfSwitch
  left = freed c.num_connected_switches k (set c.switch_list k failed)

  left-other :
      (j : ℕ)
      → j ≢ k
      → get_elem? left j ≡ (
          if leb k j && ltb j (k + c.num_connected_switches)
          then Option.map free_buffers (get_elem? c.switch_list j)
          else get_elem? c.switch_list j)
  unfolding left
  left-other j ne =
      get_elem?-freed c.num_connected_switches k j (set c.switch_list k failed)
      ∙ rw (get_elem?-set_ne c.switch_list {i = k} {j = j} failed (λ e. ne (sym e)))

  left_self : k < length c.switch_list → get_elem? left k ≡ some failed
  unfolding left failed
  left_self inside =
      get_elem?-freed c.num_connected_switches k k (set c.switch_list k failed)
      ∙ rw (get_elem?-set_self c.switch_list k failed inside) (ground arith)

  -- A message of any other type, an error message of the switch among them, disconnects the switch it
  -- came from and keeps that one's buffers. Where the list has, from the failed entry on, as many entries
  -- as switches are connected, that many are gone through: the buffers of the others among them that are
  -- not disconnected are freed. All other entries, the length of the
  -- list and the count of the connected switches stay as they are.
  pub dispatch-unknown :
      is_known s.of_status ≡ false
      → k < length c.switch_list
      → k + c.num_connected_switches ≤ length c.switch_list
      → (c' : Controller) × (dispatch k s c ≡ done c')
        × ((j : ℕ)
            → j ≢ k
            → get_elem? c'.switch_list j ≡ (
                if leb k j && ltb j (k + c.num_connected_switches)
                then Option.map free_buffers (get_elem? c.switch_list j)
                else get_elem? c.switch_list j))
        × (get_elem? c'.switch_list k ≡ some (record s { rw = RwStatus.disconnected }))
        × (c'.num_connected_switches ≡ c.num_connected_switches)
        × (length c'.switch_list ≡ length c.switch_list)
  unfolding free_switch_buffers failed left
  dispatch-unknown unknown inside room = (
    record (put_switch k failed c) { switch_list = left },
    dispatch-default unknown
        ∙ rw (
            free_from_lem c.num_connected_switches k (set c.switch_list k failed)
              (rw length-set room)),
    left-other,
    left_self inside,
    refl,
    length-freed c.num_connected_switches k (set c.switch_list k failed)
        ∙ length-set c.switch_list k failed,
  )
