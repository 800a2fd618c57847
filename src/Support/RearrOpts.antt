-- ===== src/Support/RearrOpts.antt =====
-- `PIOc_set_rearr_opts` of src/clib/pioc_support.c.
use parallel_io.Base.{
  ◌↔◌, ◌≡◌, refl, ◌⊎◌, inl, inr, Bool, false, ◌&&◌, ◌||◌, not, none, some, List, if◌then◌else◌,
  arith, Bool-cases, Option-cases,
}
use parallel_io.Base.Error.{Result, ok, err, einval, ebadid}
use parallel_io.Base.Heap.{Heap, update}
use parallel_io.Base.Int.{ℤ, pos, negsuc, ◌==ℤ◌, ltb_ℤ, ==ℤ_iff}
use parallel_io.Registry.Iosystems.{Iosystem, get_iosystem_from_id}
use parallel_io.Spmd.{FlowControl}

-- `rearr_opt_t`, with the numbers of the enumerations.
pub record RearrOpt : Type 0 where
  pub comm_type : ℤ
  pub fcd : ℤ
  pub comp2io : FlowControl
  pub io2comp : FlowControl

-- PIO_REARR_COMM_P2P, PIO_REARR_COMM_FC_1D_COMP2IO, PIO_REARR_COMM_FC_2D_DISABLE and
-- PIO_REARR_COMM_UNLIMITED_PEND_REQ.
abbrev comm_p2p : ℤ
comm_p2p = pos 0

abbrev fc_1d_comp2io : ℤ
fc_1d_comp2io = pos 1

abbrev fc_2d_disable : ℤ
fc_2d_disable = pos 3

abbrev unlimited_pend_req : ℤ
unlimited_pend_req = negsuc 0

unfoldable pub refused : RearrOpt → Bool
refused o =
    (not (o.comm_type ==ℤ comm_p2p) && not (o.comm_type ==ℤ fc_1d_comp2io))
    || (ltb_ℤ o.fcd (pos 0) || ltb_ℤ fc_2d_disable o.fcd)
    || (not (o.comp2io.max_pend_req ==ℤ unlimited_pend_req) && ltb_ℤ o.comp2io.max_pend_req (pos 0))
    || (not (o.io2comp.max_pend_req ==ℤ unlimited_pend_req) && ltb_ℤ o.io2comp.max_pend_req (pos 0))

-- The options of each IO system stand in a heap, at the address of its struct.
unfoldable pub set_rearr_opts :
    List Iosystem → Heap RearrOpt → ℤ → RearrOpt → Result (Heap RearrOpt)
unfolding refused get_iosystem_from_id
set_rearr_opts ios opts iosysid o =
    if refused o then err einval else (elim (get_iosystem_from_id ios iosysid) [
      | none ↦ err ebadid
      | some p ↦ ok (update opts p (some o))
    ])

-- The values that the documentation lists.
pub record IsAllowed (o : RearrOpt) : Type 0 where
  pub comm : (o.comm_type ≡ pos 0) ⊎ (o.comm_type ≡ pos 1)
  pub direction : ltb_ℤ o.fcd (pos 0) ≡ false
  pub direction_max : ltb_ℤ (pos 3) o.fcd ≡ false
  pub to_io : ltb_ℤ o.comp2io.max_pend_req (negsuc 0) ≡ false
  pub to_comp : ltb_ℤ o.io2comp.max_pend_req (negsuc 0) ≡ false

refused-Allowed : (o : RearrOpt) → refused o ≡ false → IsAllowed o
unfolding refused
refused-Allowed o h = record {
  comm = elim (Bool-cases (o.comm_type ==ℤ pos 0)) [
    | inl e ↦ inl ((==ℤ_iff o.comm_type (pos 0)).0 e)
    | inr e ↦ inr ((==ℤ_iff o.comm_type (pos 1)).0 (ground arith))
  ];
  direction = ground arith;
  direction_max = ground arith;
  to_io = ground arith;
  to_comp = ground arith;
}

Allowed-refused : (o : RearrOpt) → IsAllowed o → refused o ≡ false
unfolding refused
Allowed-refused o a = elim a.comm [
  | inl e ↦ let i = (==ℤ_iff o.comm_type (pos 0)).1 e in close a (ground arith)
  | inr e ↦ let i = (==ℤ_iff o.comm_type (pos 1)).1 e in close a (ground arith)
]
  where
    close :
        IsAllowed o
        → (not (o.comm_type ==ℤ comm_p2p) && not (o.comm_type ==ℤ fc_1d_comp2io)) ≡ false
        → refused o ≡ false
    close a e = ground (arith, a.direction, a.direction_max, a.to_io, a.to_comp)

-- PIO_EINVAL is returned exactly for options that are not allowed, PIO_EBADID exactly for allowed ones of
-- an unknown IO system.
pub set_rearr_opts_lem :
    (ios : List Iosystem) (opts : Heap RearrOpt) (iosysid : ℤ) (o : RearrOpt)
    → ((set_rearr_opts ios opts iosysid o ≡ err einval) ↔ (IsAllowed o → ⊥))
      × ((set_rearr_opts ios opts iosysid o ≡ err ebadid)
          ↔ (IsAllowed o × (get_iosystem_from_id ios iosysid ≡ none)))
unfolding set_rearr_opts
set_rearr_opts_lem ios opts iosysid o = elim (Bool-cases (refused o)) [
  | inl r ↦
      let n : IsAllowed o → ⊥ = λ a. let h = Allowed-refused o a in ground arith in
      rw (r, set_rearr_opts)
        (((λ e. n), (λ m. refl)), ((λ e. absurd (ground arith)), (λ m. absurd (n m.0))))
  | inr r ↦
      let a = refused-Allowed o r in
      elim (Option-cases (get_iosystem_from_id ios iosysid)) [
        | inl e ↦
            rw (r, e, set_rearr_opts)
              (((λ q. absurd (ground arith)), (λ n. absurd (n a))), ((λ q. (a, refl)), (λ m. refl)))
        | inr (p, e) ↦
            rw (r, e, set_rearr_opts)
              (
                ((λ q. absurd (ground arith)), (λ n. absurd (n a))),
                ((λ q. absurd (ground arith)), (λ m. absurd (let z = m.1 in ground arith))),
              )
      ]
]
