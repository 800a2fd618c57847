-- ===== src/Examples/Darray.antt =====
-- Tests and instances for the write buffers of src/clib/pio_darray.c.
use parallel_io.Base.{
  ℕ, ◌<◌, ◌≡◌, refl, inr, Bool, true, false, Option, none, some, [], ◌∷◌, ◌++◌, arith, ◌==◌,
  if◌then◌else◌,
}
use mathlib.Core.Option
use parallel_io.Base.Int.{ℤ, pos, ◌==ℤ◌, ◌*ℤ◌, ◌+ℤ◌}
use parallel_io.Base.Error.{Error, Result, ok, err, eperm}
use parallel_io.Darray.{
  FileState, WriteArgs, write_darray, write_var, find_buffer, write_buffer, sync_buffers, hashid_of,
}
use parallel_io.Darray.Buffer.{
  VarDesc, IoDesc, MultiWrite, Surroundings, known_fill, fill_refused, fill_buffer, new_buffer,
  grow_data, needs_flush, flush_buffer, after_flush, add_array, grow_again, grow_vid, grow_frame,
  add_fill, add_data, add_frame,
}
use parallel_io.Darray.Items.{Item}
use parallel_io.Darray.Append.{Shape, Conforms, new_item}
use parallel_io.Darray.History.{handed_for, history, Listed}
use parallel_io.Darray.Write.{Accepted}
use parallel_io.Darray.Sync.{sync_buffers-history}
use parallel_io.Darray.Runs.{Run, start, write, given_for, Run-history, Run-sync}
use parallel_io.Examples.HashList.{hash_list, find, size, del}

-- Variables 0 and 1 have records and a fill value; each call gives two elements.
abbrev a_var : ℤ → VarDesc ℕ
a_var f = record { rec_var = pos 1; frame = f; fillvalue = some 9; use_fill = false }

abbrev a_file : FileState hash_list ℕ
a_file = record {
  writable = true;
  gdal = false;
  buffers = λ p. none;
  buffer = [];
  vars = λ k.
      if pos 0 ==ℤ k
      then some (a_var (pos 3))
      else if pos 1 ==ℤ k
      then some (a_var (pos 4))
      else none;
  writes = [];
}

abbrev two_each : ℤ → Shape
two_each k = record { len = 2; framed = true; filled = true }

abbrev desc : IoDesc
desc = record { readonly = false; ndof = 2; maxiobuflen = 4; mpitype_size = 4; needsfill = true }

abbrev calm : ℕ → Surroundings
calm p = record {
  fresh = some p;
  grows = true;
  grows_again = true;
  vid_grows = true;
  frame_grows = true;
  fill_grows = true;
  others = 0;
}

abbrev first_args : WriteArgs ℕ
first_args = record { varid = pos 0; ioid = pos 512; array = 5 ∷ 6 ∷ []; fillvalue = none }

abbrev second_args : WriteArgs ℕ
second_args = record { varid = pos 1; ioid = pos 512; array = 7 ∷ 8 ∷ []; fillvalue = none }

abbrev never_fails : MultiWrite ℕ → Option Error
never_fails w = none

abbrev nat_same : ℕ → ℕ → Bool
nat_same a b = a == b

abbrev call :
    ℕ → FileState hash_list ℕ → WriteArgs ℕ → Option (FileState hash_list ℕ × Result (Unit {0}))
call p s args = write_darray hash_list never_fails nat_same (calm p) s (some desc) none args

-- The file after both calls, and what PIOc_sync then hands over.
abbrev both : Option (FileState hash_list ℕ)
both = elim (call 1 a_file first_args) [
  | none ↦ none
  | some (s, r) ↦ elim (call 2 s second_args) [
    | none ↦ none
    | some (t, q) ↦ sync_buffers hash_list never_fails nat_same 2 t
  ]
]

both_in_one_call :
    Option.map (λ s. s.writes) both
    ≡ some (
        (
          pos 5121,
          record {
            varids = some (pos 0) ∷ some (pos 1) ∷ [];
            ioid = pos 512;
            nvars = 2;
            arraylen = 2;
            array = some 5 ∷ some 6 ∷ some 7 ∷ some 8 ∷ [];
            frame = some (some (pos 3) ∷ some (pos 4) ∷ []);
            fillvalue = some (some 9 ∷ some 9 ∷ []);
            flushtodisk = true;
          },
        )
        ∷ [])
unfolding write_darray write_var find_buffer write_buffer sync_buffers known_fill fill_refused
    fill_buffer new_buffer grow_data needs_flush flush_buffer after_flush add_array grow_again
    grow_vid grow_frame add_fill add_data add_frame find size del ◌*ℤ◌ ◌+ℤ◌
both_in_one_call = refl

not_writable :
    write_darray hash_list never_fails nat_same
      (calm 1)
      (record a_file { writable = false })
      (some desc)
      none
      first_args
    ≡ some (record a_file { writable = false }, err eperm)
unfolding write_darray
not_writable = refl

no_buffer : Listed hash_list two_each a_file.buffers []
unfolding find
no_buffer k p e = cc

first_shape : Conforms {V = ℕ} (two_each (pos 5121)) desc (a_var (pos 3)) (5 ∷ 6 ∷ [])
first_shape = record { length = refl; framed = refl; filled = refl; fill_known = inr (9, refl) }

first-Accepted :
    Accepted hash_list never_fails
      (λ w. refl)
      nat_same
      two_each
      (calm 1)
      a_file
      desc
      none
      first_args
      (a_var (pos 3))
      (a_var (pos 3))
unfolding known_fill fill_refused ◌*ℤ◌ ◌+ℤ◌
first-Accepted = record {
  writable = refl;
  sources = refl;
  long_enough = omega arith;
  listed = refl;
  fill_found = refl;
  fill_accepted = refl;
  shape = first_shape;
  memory = record { again = refl; vid = refl; frame = refl; fill = refl };
  address = (1, refl, refl);
}

abbrev first_item : Item ℕ
first_item = new_item (two_each (pos 0)) (a_var (pos 3)) (pos 0) (5 ∷ 6 ∷ [])

abbrev first_key : ℤ
first_key = hashid_of (pos 512) (pos 1)

abbrev file_of : Option (FileState hash_list ℕ × Result (Unit {0})) → FileState hash_list ℕ
file_of none = a_file
file_of (some (s, r)) = s

-- The file after the first call.
abbrev one_call : FileState hash_list ℕ
one_call = file_of (call 1 a_file first_args)

one_call_done : call 1 a_file first_args ≡ some (one_call, ok tt)
unfolding write_darray write_var find_buffer write_buffer known_fill fill_refused fill_buffer
    new_buffer grow_data needs_flush flush_buffer after_flush add_array grow_again grow_vid
    grow_frame add_fill add_data add_frame find size ◌*ℤ◌ ◌+ℤ◌
one_call_done = refl

one_call_size : size one_call.buffer < 2
unfolding write_darray write_var find_buffer write_buffer known_fill fill_refused fill_buffer
    new_buffer grow_data needs_flush flush_buffer after_flush add_array grow_again grow_vid
    grow_frame add_fill add_data add_frame find size ◌*ℤ◌ ◌+ℤ◌
one_call_size = omega arith

one_run :
    Run hash_list never_fails
      (λ w. refl)
      nat_same
      two_each
      a_file
      one_call
      ((first_key, first_item) ∷ [])
one_run =
    write start (calm 1) desc none first_args (a_var (pos 3)) (a_var (pos 3)) one_call
      first-Accepted one_call_done

Run-history_example :
    Listed hash_list two_each one_call.buffers one_call.buffer
    × ((k : ℤ)
        → history hash_list one_call k
          ≡ history hash_list a_file k ++ given_for k ((first_key, first_item) ∷ []))
Run-history_example =
    Run-history hash_list never_fails (λ w. refl) nat_same two_each no_buffer one_run

one_call-Listed : Listed hash_list two_each one_call.buffers one_call.buffer
one_call-Listed =
    (Run-history hash_list never_fails (λ w. refl) nat_same two_each no_buffer one_run).0

sync_buffers-history_example :
    (t : FileState hash_list ℕ) × (sync_buffers hash_list never_fails nat_same 2 one_call ≡ some t)
    × ((k : ℤ) → find t.buffer k ≡ none)
    × ((k : ℤ) → handed_for k t.writes ≡ history hash_list one_call k)
sync_buffers-history_example =
    sync_buffers-history hash_list never_fails nat_same two_each 2 one_call one_call-Listed
      one_call_size

Run-sync_example :
    (u : FileState hash_list ℕ) × (sync_buffers hash_list never_fails nat_same 2 one_call ≡ some u)
    × ((k : ℤ)
        → handed_for k u.writes
          ≡ history hash_list a_file k ++ given_for k ((first_key, first_item) ∷ []))
Run-sync_example =
    Run-sync hash_list never_fails (λ w. refl) nat_same two_each 2 no_buffer one_run one_call_size
