-- ===== src/Async/Service.antt =====
-- The loop of pio_msg_handler2, src/clib/pio_msg.c: several computation components, each with its own broadcasts.
-- The order in which MPI_Waitsome finds their messages is an argument.
use parallel_io.Base.{
  ℕ, ◌-◌, Bool, true, false, ◌&&◌, none, some, List, [], ◌∷◌, ◌==◌, if◌then◌else◌, get_elem?, set,
}
use parallel_io.Async.Wire.{Datum}
use parallel_io.Async.Calls.{Call, Env}
use parallel_io.Async.Dispatch.{handle_message}

-- How the loop ends. `waiting` stands for a loop that waits for a message, and `out_of_step` for a handler
-- that fails or whose MPI_Bcast does not match what was sent.
pub data Ending : Type 0 where
  finalized unknown_message out_of_step waiting : Ending

-- PIO_MSG_EXIT.
abbrev pub is_exit : Call → Bool
is_exit (Call.free_iosystem iosysid) = true
is_exit c = false

abbrev pub note : ℕ → Call → List (ℕ × Call) × Ending → List (ℕ × Call) × Ending
note idx c (made, ending) = ((idx, c) ∷ made, ending)

-- After a message from component `idx`: `finalize` and `open_components`.
abbrev pub after_call : ℕ → Call → ℕ → (ℕ → List (ℕ × Call) × Ending) → List (ℕ × Call) × Ending
after_call idx c open_components next =
    let left = if is_exit c then open_components - 1 else open_components in
    if is_exit c && left == 0 then ((idx, c) ∷ [], Ending.finalized) else note idx c (next left)

-- The calls that are made, with the component of each.
unfoldable pub service : Env → List ℕ → ℕ → List (List Datum) → List (ℕ × Call) × Ending
service e [] open_components streams = ([], Ending.waiting)
service e (idx ∷ order) open_components streams = elim (get_elem? streams idx) [
  | none ↦ ([], Ending.out_of_step)
  | some ds ↦ elim (handle_message e ds) [
    | none ↦ ([], Ending.out_of_step)
    | some (none, ds') ↦ ([], Ending.unknown_message)
    | some (some c, ds') ↦
        after_call idx c open_components (λ left. service e order left (set streams idx ds'))
  ]
]
