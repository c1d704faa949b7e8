-- ===== src/Program/Listening/First.antt =====
-- Which address is bound, and what becomes of the sockets opened for the others.
use openflow_controller.Prelude.{
  ℕ, ◌≡◌, ◌⊎◌, inl, inr, refl, sym, ap, ◌∙◌, List, [], ◌∷◌, ◌++◌, Option, none, some, Bool, true,
  false, if◌then◌else◌,
}
use openflow_controller.Outcome.{Outcome, done, exited}
use openflow_controller.Program.Listening.{Candidate, Bound, create_listening_socket}

-- No socket, or one that does not bind.
abbrev Fails : Candidate → Type 0
Fails c = (c.socket ≡ none) ⊎ (c.binds ≡ false)

abbrev pub AllFail : List Candidate → Type 0
AllFail [] = Unit {0}
AllFail (c ∷ cs) = Fails c × AllFail cs

-- The sockets opened for addresses, latest first, before others.
abbrev opened : List Candidate → List ℕ → List ℕ
opened [] closed = closed
opened (c ∷ cs) closed = opened cs (elim c.socket [ none ↦ closed | some fd ↦ fd ∷ closed ])

-- The first address that gives a socket that binds.
pub record IsFirst (cs : List Candidate) (closed : List ℕ) (l : Bound) : Type 0 where
  pub before : List Candidate
  pub bound : Candidate
  pub rest : List Candidate
  pub split : cs ≡ before ++ bound ∷ rest
  pub failed : AllFail before
  pub socket : bound.socket ≡ some l.listening_socket_fd
  pub binds : bound.binds ≡ true
  pub closed_before : l.closed ≡ opened before closed
  pub server : l.server ≡ bound ∷ rest

tried : Option ℕ → Bool → List Candidate → List Candidate → List ℕ → Outcome Bound
tried o binds all cs closed = elim o [
  | none ↦ create_listening_socket cs closed
  | some fd ↦
      let next = create_listening_socket cs (fd ∷ closed) in
      if binds
      then done (record { listening_socket_fd = fd; closed = closed; server = all })
      else next
]

-- What `socket` answered, as the list of the closed ones takes it.
after : Option ℕ → List ℕ → List ℕ
after o closed = elim o [ none ↦ closed | some fd ↦ fd ∷ closed ]

behind :
    (c : Candidate) (cs : List Candidate) (closed : List ℕ) (l : Bound) (o : Option ℕ)
    → c.socket ≡ o
    → Fails c
    → IsFirst cs (after o closed) l
    → IsFirst (c ∷ cs) closed l
unfolding after
behind c cs closed l o e fail p = record {
  before = c ∷ p.before;
  bound = p.bound;
  rest = p.rest;
  split = ap (λ x. c ∷ x) p.split;
  failed = (fail, p.failed);
  socket = p.socket;
  binds = p.binds;
  closed_before = p.closed_before ∙ ap (λ x. opened p.before (after x closed)) (sym e);
  server = p.server;
}

Result : Outcome Bound → List Candidate → List ℕ → Type 0
Result m cs closed =
    ((m ≡ exited) × AllFail cs) ⊎ ((l : Bound) × (m ≡ done l) × IsFirst cs closed l)

one_more :
    (c : Candidate) (cs : List Candidate) (closed : List ℕ) (o : Option ℕ)
    → c.socket ≡ o
    → Fails c
    → Result (create_listening_socket cs (after o closed)) cs (after o closed)
    → Result (create_listening_socket cs (after o closed)) (c ∷ cs) closed
unfolding Result
one_more c cs closed o e fail (inl (x, f)) = inl (x, (fail, f))
one_more c cs closed o e fail (inr (l, x, p)) = inr (l, x, behind c cs closed l o e fail p)

one_tried :
    (c : Candidate) (cs : List Candidate) (closed : List ℕ) (o : Option ℕ) (b : Bool)
    → c.socket ≡ o
    → c.binds ≡ b
    → Result (create_listening_socket cs (after o closed)) cs (after o closed)
    → Result (tried o b (c ∷ cs) cs closed) (c ∷ cs) closed
unfolding tried after Result
one_tried c cs closed none b e f ih = one_more c cs closed none e (inl e) ih
one_tried c cs closed (some fd) false e f ih = one_more c cs closed (some fd) e (inr f) ih
one_tried c cs closed (some fd) true e f ih = inr (
  record { listening_socket_fd = fd; closed = closed; server = c ∷ cs },
  refl,
  record {
    before = [];
    bound = c;
    rest = cs;
    split = refl;
    failed = tt;
    socket = e;
    binds = f;
    closed_before = refl;
    server = refl;
  },
)

-- Either every address fails, and the program exits; or the first address that does not fail is
-- listened on, with the pointer `server` at it, and each socket opened for an address before it is
-- closed, in the order of the list.
pub create_listening_socket_lem :
    (cs : List Candidate) (closed : List ℕ)
    → ((create_listening_socket cs closed ≡ exited) × AllFail cs)
      ⊎ ((l : Bound) × (create_listening_socket cs closed ≡ done l) × IsFirst cs closed l)
unfolding create_listening_socket tried after Result
create_listening_socket_lem [] closed = inl (refl, tt)
create_listening_socket_lem (c ∷ cs) closed =
    one_tried c cs closed c.socket c.binds refl refl
      (create_listening_socket_lem cs (after c.socket closed))
