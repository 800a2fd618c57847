-- ===== src/Darray/Write.antt =====
-- `PIOc_write_darray`, src/clib/pio_darray.c, on a file: what each call adds to what was given.
use parallel_io.Base.{
  ℕ, ◌*◌, ◌≤◌, ◌≡◌, refl, sym, ap, subst, ◌∙◌, inl, inr, Bool, true, false, Option, none, some,
  List, [], ◌∷◌, ◌++◌, arith, ltb, if◌then◌else◌, Bool-cases, Option-cases, length, ap₂,
}
use mathlib.Core.List.{append_assoc, append-nil}
use parallel_io.Base.Int.{ℤ, ◌==ℤ◌, ==ℤ_iff}
use parallel_io.Base.Heap.{update}
use parallel_io.Base.Error.{Error, Result, ok}
use parallel_io.Registry.Hash.{HashTable}
use parallel_io.Darray.{
  FileState, WriteArgs, find_buffer, write_buffer, write_var, write_darray, hashid_of,
}
use parallel_io.Darray.Buffer.{
  WmultiBuffer, VarDesc, IoDesc, MultiWrite, Surroundings, new_buffer, fill_buffer, known_fill,
  fill_refused,
}
use parallel_io.Darray.Items.{Item, held}
use parallel_io.Darray.Append.{Shape, IsReady, Conforms, HasMemory, new_item}
use parallel_io.Darray.FillBuffer.{all_handed, fill_buffer-Extended}
use parallel_io.Darray.History.{
  handed_for, handed_for-append, handed_for-keys, pending_in, history, Listed, add_lem, replace_lem,
}

module _ (hash : HashTable) {V : Type 0} (multi : MultiWrite V → Option Error)
    (never : (w : MultiWrite V) → multi w ≡ none) (same : V → V → Bool) (shapes : ℤ → Shape) where
  open hash use {Table, find, add, find-add}

  abbrev pub IsFile : FileState hash V → Type 0
  IsFile s = Listed hash shapes s.buffers s.buffer

  -- The call passes the checks: the variable is `v`, and `vdesc` with its fill value.
  pub record Accepted (env : Surroundings) (s : FileState hash V) (d : IoDesc)
      (found : Option (V × Bool)) (args : WriteArgs V) (v vdesc : VarDesc V) : Type 0 where
    pub writable : s.writable ≡ true
    pub sources : d.readonly ≡ false
    pub long_enough : d.ndof ≤ length args.array
    pub listed : s.vars args.varid ≡ some v
    pub fill_found : known_fill found s.gdal v ≡ ok vdesc
    pub fill_accepted : fill_refused same args.fillvalue vdesc ≡ false
    pub shape : Conforms (shapes (hashid_of args.ioid vdesc.rec_var)) d vdesc args.array
    pub memory : HasMemory env
    pub address : (p : ℕ) × (env.fresh ≡ some p) × (s.buffers p ≡ none)

  module _ (env : Surroundings) (s : FileState hash V) (valid : IsFile s) where
    -- The buffer is there, and nothing is pending that was not before.
    record Found (ioid rec_var : ℤ) (len : ℕ) (t : FileState hash V) (p : ℕ) : Type 0 where
      done : find_buffer hash multi same env s ioid rec_var len ≡ some (t, ok p)
      listed : find t.buffer (hashid_of ioid rec_var) ≡ some p
      still : IsFile t
      pending :
          (j : ℤ) → pending_in hash t.buffers t.buffer j ≡ pending_in hash s.buffers s.buffer j
      writes : t.writes ≡ s.writes

    find_buffer-Found :
        (ioid rec_var : ℤ) (len fresh : ℕ)
        → env.fresh ≡ some fresh
        → s.buffers fresh ≡ none
        → (t : FileState hash V) × (p : ℕ) × Found ioid rec_var len t p
    unfolding find_buffer new_buffer
    find_buffer-Found ioid rec_var len fresh e free =
        let k = hashid_of ioid rec_var in
        elim (Option-cases (find s.buffer k)) [
          | inr (p, f) ↦ (
            s,
            p,
            record {
              done = rw (f, find_buffer) refl;
              listed = f;
              still = valid;
              pending = λ j. refl;
              writes = refl;
            },
          )
          | inl f ↦
              let wmb : WmultiBuffer V = new_buffer ioid rec_var len k in
              let ready : IsReady (shapes k) wmb = record {
                vids = omega arith;
                frames = inr refl;
                fills = inr refl;
                same_len = inl refl;
                room = (let z : (shapes k).len * 0 ≤ 0 = omega arith in z);
              } in
              let (listed, pended) =
                add_lem hash shapes s.buffers s.buffer valid k fresh wmb f free refl ready refl in
              (
                record s {
                  buffers = update s.buffers fresh (some wmb);
                  buffer = add s.buffer k fresh;
                },
                fresh,
                record {
                  done = rw (f, find_buffer) (rw (e, find_buffer) refl);
                  listed = find-add s.buffer k fresh k f ∙ (rw ((==ℤ_iff k k).1 refl) refl);
                  still = listed;
                  pending = pended;
                  writes = refl;
                },
              )
        ]

  regroup_same : (w c h g i : List (Item V)) → c ++ h ≡ g ++ i → (w ++ c) ++ h ≡ (w ++ g) ++ i
  regroup_same w c h g i e =
      append_assoc w c h ∙ ap (λ (l : List (Item V)). w ++ l) e ∙ sym (append_assoc w g i)

  module _ (env : Surroundings) (m : HasMemory env) (s : FileState hash V) (valid : IsFile s)
      (d : IoDesc) (vdesc : VarDesc V) (args : WriteArgs V) (k : ℤ)
      (shape : Conforms (shapes k) d vdesc args.array) (p : ℕ)
      (listed : find s.buffer k ≡ some p) where
    -- The work on a listed buffer adds the array to what was given for its key.
    record Added (t : FileState hash V) : Type 0 where
      done : write_buffer hash multi same env s d vdesc args p ≡ some (t, ok tt)
      still : IsFile t
      grown :
          (j : ℤ)
          → history hash t j
            ≡ history hash s j
              ++ (if k ==ℤ j then new_item (shapes k) vdesc args.varid args.array ∷ [] else [])

    write_buffer_lem :
        (b : WmultiBuffer V) (r : WmultiBuffer V × List (ℤ × MultiWrite V) × Result (Unit {0}))
        → s.buffers p ≡ some b
        → fill_buffer multi env d vdesc args.varid args.array b ≡ some r
        → write_buffer hash multi same env s d vdesc args p
          ≡ some
              (record s { buffers = update s.buffers p (some r.0); writes = s.writes ++ r.1 }, r.2)
    unfolding write_buffer
    write_buffer_lem b r e f = rw (e, write_buffer) (rw f refl)

    history_same :
        (j : ℤ) (b b' : WmultiBuffer V) (calls : List (ℤ × MultiWrite V)) (i : Item V)
        → (k ==ℤ j) ≡ true
        → s.buffers p ≡ some b
        → all_handed calls ++ held b' ≡ held b ++ i ∷ []
        → (handed_for j s.writes ++ all_handed calls) ++ held b' ≡ history hash s j ++ i ∷ []
    history_same j b b' calls i q e a =
        let at_j : find s.buffer j ≡ some p =
          subst (λ (l : ℤ). find s.buffer l ≡ some p) ((==ℤ_iff k j).0 q) listed in
        let h : pending_in hash s.buffers s.buffer j ≡ held b = rw (at_j, pending_in) (rw e refl) in
        rw h (regroup_same (handed_for j s.writes) (all_handed calls) (held b') (held b) (i ∷ []) a)

    write_buffer-Added : (t : FileState hash V) × Added t
    write_buffer-Added =
        let (b, e, key, ready) = valid k p listed in
        let (b', calls, f, x) =
          fill_buffer-Extended multi never env m (shapes k) d vdesc args.varid args.array shape b
            ready in
        let (still, pended) =
          replace_lem hash shapes s.buffers s.buffer valid k p b' listed (x.htid ∙ key)
            x.still_ready in
        (
          record s { buffers = update s.buffers p (some b'); writes = s.writes ++ calls },
          record {
            done = write_buffer_lem b (b', calls, ok tt) e f;
            still = still;
            grown = λ j.
                let split = handed_for-append j s.writes calls in
                let keys = handed_for-keys k calls (rw (← key) x.keys) j in
                elim (Bool-cases (k ==ℤ j)) [
                  | inl q ↦ rw (split, keys, pended j, q) (history_same j b b' calls _ q e x.arrays)
                  | inr q ↦ rw (split, keys, pended j, q) (simp (append-nil))
                ];
          },
        )

  module _ (env : Surroundings) (s : FileState hash V) (d : IoDesc) (found : Option (V × Bool))
      (args : WriteArgs V) (v vdesc : VarDesc V) (a : Accepted env s d found args v vdesc) where
    -- The file with the variable's fill value.
    abbrev filled : FileState hash V
    filled = record s { vars = λ k. if args.varid ==ℤ k then some vdesc else s.vars k }

    write_var_lem :
        (t : FileState hash V) (p : ℕ)
        → find_buffer hash multi same env filled args.ioid vdesc.rec_var (length args.array)
          ≡ some (t, ok p)
        → write_var hash multi same env s d found args
          ≡ write_buffer hash multi same env t d vdesc args p
    unfolding write_var
    write_var_lem t p e =
        rw (a.listed, write_var)
          (rw (a.fill_found, write_var) (rw (a.fill_accepted, write_var) (rw (e, write_var) refl)))

    write_darray_lem :
        write_darray hash multi same env s (some d) found args
        ≡ write_var hash multi same env s d found args
    unfolding write_darray
    write_darray_lem =
        let e : ltb (length args.array) d.ndof ≡ false = let l = a.long_enough in ground arith in
        rw (a.writable, write_darray) (rw (a.sources, write_darray) (rw (e, write_darray) refl))

  pub write_darray-history :
      (env : Surroundings) (s : FileState hash V) (d : IoDesc) (found : Option (V × Bool))
      (args : WriteArgs V) (v vdesc : VarDesc V)
      → IsFile s
      → Accepted env s d found args v vdesc
      → (t : FileState hash V) × (write_darray hash multi same env s (some d) found args
          ≡ some (t, ok tt))
        × IsFile t
        × ((j : ℤ)
            → history hash t j
              ≡ history hash s j
                ++ (if hashid_of args.ioid vdesc.rec_var ==ℤ j
                    then new_item
                        (shapes (hashid_of args.ioid vdesc.rec_var))
                        vdesc
                        args.varid
                        args.array
                      ∷ []
                    else []))
  write_darray-history env s d found args v vdesc valid a =
      let k = hashid_of args.ioid vdesc.rec_var in
      let (fresh, e, free) = a.address in
      let (t, p, f) =
        find_buffer-Found env (filled env s d found args v vdesc a) valid args.ioid vdesc.rec_var
          (length args.array) fresh e free in
      let (u, g) = write_buffer-Added env a.memory t f.still d vdesc args k a.shape p f.listed in
      let before : (j : ℤ) → history hash t j ≡ history hash s j =
        λ j. ap₂ (λ (l r : List (Item V)). l ++ r) (ap (handed_for j) f.writes) (f.pending j) in
      (
        u,
        write_darray_lem env s d found args v vdesc a
            ∙ write_var_lem env s d found args v vdesc a t p f.done
            ∙ g.done,
        g.still,
        λ j.
            g.grown j
            ∙ ap
                (λ (l : List (Item V)).
                  l
                  ++ (if k ==ℤ j then new_item (shapes k) vdesc args.varid args.array ∷ [] else []))
                (before j),
      )
