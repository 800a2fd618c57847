-- ===== src/Darray/Runs.antt =====
-- Runs of the calls on one file: PIOc_write_darray, PIOc_setframe and PIOc_sync, in any order.
use parallel_io.Base.{
  ℕ, ◌<◌, ◌≡◌, refl, sym, ap, subst, ◌∙◌, inl, inr, Bool, Option, none, some, List, [], ◌∷◌, ◌++◌,
  if◌then◌else◌, Bool-cases, Option-cases,
}
use mathlib.Core.List.{append_assoc, append-nil}
use parallel_io.Base.Int.{ℤ, ◌==ℤ◌}
use parallel_io.Base.Error.{Error, ok}
use parallel_io.Registry.Hash.{HashTable}
use parallel_io.Darray.{FileState, WriteArgs, write_darray, set_frame, sync_buffers, hashid_of}
use parallel_io.Darray.Buffer.{VarDesc, IoDesc, MultiWrite, Surroundings}
use parallel_io.Darray.Items.{Item}
use parallel_io.Darray.Append.{Shape, new_item}
use parallel_io.Darray.History.{handed_for, pending_in, history, Listed}
use parallel_io.Darray.Write.{Accepted, write_darray-history}
use parallel_io.Darray.Sync.{sync_buffers-history}

-- The arrays given for the key `k`, in their order.
abbrev pub given_for : {V : Type 0} → ℤ → List (ℤ × Item V) → List (Item V)
given_for k [] = []
given_for k ((j, i) ∷ given) = let rest = given_for k given in if j ==ℤ k then i ∷ rest else rest

given_for-append :
    {V : Type 0} (k j : ℤ) (i : Item V) (given : List (ℤ × Item V))
    → given_for k (given ++ (j, i) ∷ []) ≡ given_for k given ++ (if j ==ℤ k then i ∷ [] else [])
given_for-append k j i [] = refl
given_for-append k j i ((j', i') ∷ given) = elim (Bool-cases (j' ==ℤ k)) [
  | inl e ↦ rw (e, given_for-append k j i given) refl
  | inr e ↦ rw (e, given_for-append k j i given) refl
]

module _ (hash : HashTable) {V : Type 0} (multi : MultiWrite V → Option Error)
    (never : (w : MultiWrite V) → multi w ≡ none) (same : V → V → Bool) (shapes : ℤ → Shape) where
  -- The file reached from `s`, with the arrays that were given on the way, in their order.
  pub data Run (s : FileState hash V) : FileState hash V → List (ℤ × Item V) → Type 0 where
    start : Run s s []
    write :
        {t : FileState hash V} {given : List (ℤ × Item V)}
        → Run s t given
        → (env : Surroundings) (d : IoDesc) (found : Option (V × Bool)) (args : WriteArgs V)
          (v vdesc : VarDesc V) (u : FileState hash V)
        → Accepted hash multi never same shapes env t d found args v vdesc
        → write_darray hash multi same env t (some d) found args ≡ some (u, ok tt)
        → Run s u (
            given
            ++ (
              hashid_of args.ioid vdesc.rec_var,
              new_item (shapes (hashid_of args.ioid vdesc.rec_var)) vdesc args.varid args.array,
            )
              ∷ [])
    frame :
        {t : FileState hash V} {given : List (ℤ × Item V)}
        → Run s t given
        → (varid f : ℤ) → Run s (set_frame t varid f).0 given
    sync :
        {t : FileState hash V} {given : List (ℤ × Item V)}
        → Run s t given
        → (fuel : ℕ) (u : FileState hash V) → hash.size t.buffer < fuel
        → sync_buffers hash multi same fuel t ≡ some u
        → Run s u given

  set_frame-history :
      (s : FileState hash V) (varid f : ℤ)
      → Listed hash shapes s.buffers s.buffer
      → Listed hash shapes (set_frame s varid f).0.buffers (set_frame s varid f).0.buffer
        × ((j : ℤ) → history hash (set_frame s varid f).0 j ≡ history hash s j)
  unfolding set_frame
  set_frame-history s varid f valid = elim (Option-cases (s.vars varid)) [
    | inl e ↦ rw (e, set_frame) (valid, λ j. refl)
    | inr (v, e) ↦ rw (e, set_frame) (valid, λ j. refl)
  ]

  -- After any run from a valid file the file is valid, and what was given for a key, handed over or still
  -- held, is what was given before the run and then the arrays of the run, in their order.
  pub Run-history :
      {s t : FileState hash V} {given : List (ℤ × Item V)}
      → Listed hash shapes s.buffers s.buffer
      → Run s t given
      → Listed hash shapes t.buffers t.buffer
        × ((k : ℤ) → history hash t k ≡ history hash s k ++ given_for k given)
  Run-history valid start = (valid, λ k. sym (append-nil _))
  Run-history {s} valid (write {t} {given} r env d found args v vdesc u a e) =
      let (now, all) = Run-history valid r in
      let (u', e', then_valid, grown) =
        write_darray-history hash multi never same shapes env t d found args v vdesc now a in
      let same_file : u' ≡ u = cc in
      let key = hashid_of args.ioid vdesc.rec_var in
      let item = new_item (shapes key) vdesc args.varid args.array in
      (
        subst (λ (x : FileState hash V). Listed hash shapes x.buffers x.buffer) same_file
            then_valid,
        λ k.
            subst
              (λ (x : FileState hash V).
                history hash x k ≡ history hash t k ++ (if key ==ℤ k then item ∷ [] else []))
              same_file (grown k)
            ∙ ap (λ (l : List (Item V)). l ++ (if key ==ℤ k then item ∷ [] else [])) (all k)
            ∙ append_assoc (history hash s k) (given_for k given)
                (if key ==ℤ k then item ∷ [] else [])
            ∙ ap (λ (l : List (Item V)). history hash s k ++ l)
                (sym (given_for-append k key item given)),
      )
  Run-history valid (frame {t} r varid f) =
      let (now, all) = Run-history valid r in
      let (still, same_history) = set_frame-history t varid f now in
      (still, λ k. same_history k ∙ all k)
  Run-history valid (sync {t} r fuel u enough e) =
      let (now, all) = Run-history valid r in
      let (u', e', gone, handed) = sync_buffers-history hash multi same shapes fuel t now enough in
      let same_file : u' ≡ u = cc in
      let gone' =
        subst (λ (x : FileState hash V). (k : ℤ) → hash.find x.buffer k ≡ none) same_file gone in
      (
        λ k p f. let g = gone' k in absurd (cc),
        λ k.
            rw (gone' k, pending_in)
              (append-nil _
                ∙ subst (λ (x : FileState hash V). handed_for k x.writes ≡ history hash t k)
                    same_file (handed k)
                ∙ all k),
      )

  -- After any run PIOc_sync ends, and every array that was given for a key, before or in the run, was handed
  -- to PIOc_write_darray_multi, once and in the order in which it was given.
  pub Run-sync :
      {s t : FileState hash V} {given : List (ℤ × Item V)} (fuel : ℕ)
      → Listed hash shapes s.buffers s.buffer
      → Run s t given
      → hash.size t.buffer < fuel
      → (u : FileState hash V) × (sync_buffers hash multi same fuel t ≡ some u)
        × ((k : ℤ) → handed_for k u.writes ≡ history hash s k ++ given_for k given)
  Run-sync {t} fuel valid r enough =
      let (now, all) = Run-history valid r in
      let (u, e, gone, handed) = sync_buffers-history hash multi same shapes fuel t now enough in
      (u, e, λ k. handed k ∙ all k)
