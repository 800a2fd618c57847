-- ===== src/Async/Sessions.antt =====
-- What the IO tasks do with the broadcasts of several components, in every order in which the messages are found.
use parallel_io.Base.{
  ℕ, zero, suc, ◌+◌, ◌<◌, ◌≡◌, true, false, some, List, [], ◌∷◌, map, arith, ◌==◌, if◌then◌else◌,
  get_elem?, set, get_or,
}
use parallel_io.Async.Wire.{Datum}
use parallel_io.Async.Calls.{Call, Inquired, Env}
use parallel_io.Async.Send.All.{send, Served}
use parallel_io.Async.Service.{Ending, is_exit}

-- The calls of a component, each with what it has found out before; the last one closes the IO system.
abbrev pub Session : Type 0
Session = List (Inquired × Call)

abbrev pub broadcasts : Session → List Datum
broadcasts [] = []
broadcasts ((k, c) ∷ rest) = send k c (broadcasts rest)

abbrev pub calls : Session → List Call
calls [] = []
calls ((k, c) ∷ rest) = c ∷ calls rest

abbrev pub IsSession : Env → Session → Type 0
IsSession e [] = Unit {0}
IsSession e ((k, c) ∷ []) = Served e k c × (is_exit c ≡ true)
IsSession e ((k, c) ∷ kc ∷ rest) = Served e k c × (is_exit c ≡ false) × IsSession e (kc ∷ rest)

abbrev pub AllSessions : Env → List Session → Type 0
AllSessions e [] = Unit {0}
AllSessions e (s ∷ ss) = IsSession e s × AllSessions e ss

-- The components that have not sent PIO_MSG_EXIT.
abbrev pub open_count : List Session → ℕ
open_count [] = 0
open_count ([] ∷ ss) = open_count ss
open_count ((kc ∷ s) ∷ ss) = open_count ss + 1

-- An order in which the messages of all components can be found: those of one component in the order in which they
-- are sent.
pub data Order : List Session → List ℕ → Type 0 where
  nothing_left : {ss : List Session} → open_count ss ≡ 0 → Order ss []
  found :
      {ss : List Session} {idx : ℕ} {kc : Inquired × Call} {s : Session} {order : List ℕ}
      → get_elem? ss idx ≡ some (kc ∷ s)
      → Order (set ss idx s) order
      → Order ss (idx ∷ order)

-- The calls made for one component.
abbrev pub calls_for : ℕ → List (ℕ × Call) → List Call
calls_for i [] = []
calls_for i ((j, c) ∷ made) = if i == j then c ∷ calls_for i made else calls_for i made

pub get_elem?-map :
    (ss : List Session) (i : ℕ) {s : Session}
    → get_elem? ss i ≡ some s
    → get_elem? (map broadcasts ss) i ≡ some (broadcasts s)
get_elem?-map [] i h = cc
get_elem?-map (s ∷ ss) zero h = cc
get_elem?-map (s ∷ ss) (suc i) h = get_elem?-map ss i h

-- A message is found only where something is left.
open_count-found :
    (ss : List Session) (i : ℕ) {kc : Inquired × Call} {s : Session}
    → get_elem? ss i ≡ some (kc ∷ s)
    → 0 < open_count ss
open_count-found [] i h = cc
open_count-found ([] ∷ ss) zero h = cc
open_count-found ((kc ∷ s) ∷ ss) zero h = omega arith
open_count-found ([] ∷ ss) (suc i) h = open_count-found ss i h
open_count-found ((kc ∷ s) ∷ ss) (suc i) h = omega arith

-- The loop has ended in order, and made the calls of every session, in the order of the session.
abbrev pub Serves : List Session → List (ℕ × Call) × Ending → Type 0
Serves ss r = (r.1 ≡ Ending.finalized) × ((i : ℕ) → calls_for i r.0 ≡ calls (get_or ss i []))
