-- ===== src/Program/Listening.antt =====
-- controller.c: `create_listening_socket`.
pub mod First
use openflow_controller.Prelude.{
  ℕ, List, [], ◌∷◌, Option, none, some, Bool, true, false, if◌then◌else◌,
}
use openflow_controller.Outcome.{Outcome, done, exited}

-- An address that `getaddrinfo` found, with what `socket` and `bind` answer for it.
pub record Candidate : Type 0 where
  pub socket : Option ℕ
  pub binds : Bool

-- The socket that is bound, the descriptors closed on the way, latest first, and the rest of the list from the
-- address that was bound on: the pointer `server`.
pub record Bound : Type 0 where
  pub listening_socket_fd : ℕ
  pub closed : List ℕ
  pub server : List Candidate

unfoldable pub create_listening_socket : List Candidate → (closed : List ℕ) → Outcome Bound
create_listening_socket [] closed = exited
create_listening_socket (c ∷ cs) closed = elim c.socket [
  | none ↦ create_listening_socket cs closed
  | some fd ↦
      let next = create_listening_socket cs (fd ∷ closed) in
      if c.binds
      then done (record { listening_socket_fd = fd; closed = closed; server = c ∷ cs })
      else next
]
