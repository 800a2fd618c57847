-- ===== src/Async/Receive.antt =====
-- A receiving MPI_Bcast in front of what was broadcast for it: what it gets is passed to the next one.
use parallel_io.Base.{
  ℕ, ◌+◌, ◌≡◌, refl, Bool, true, false, ◌||◌, not, Option, none, some, List, [], ◌∷◌, arith, length,
  length-append,
}
use parallel_io.Base.Int.{ℤ, pos, ◌==ℤ◌}
use parallel_io.Async.Wire.{
  Kind, Datum, bcast, same_kind, Receiver, ◌>>=◌, recv, recv_count, recv_array, flag, value,
  present, recv_flag, recv_flag_into_int, name, with_nul, c_string, recv_name, if_there, is_there,
  recv_if, if_flag, lift, require, NoNul, HasLength,
}

recv_flag-flag :
    (k : Kind) (p : Bool) (ds : List Datum)
    → recv_flag k (bcast k (flag p ∷ []) ∷ ds) ≡ some (p, ds)
unfolding recv_flag recv
recv_flag-flag Kind.int p ds = ground arith
recv_flag-flag Kind.char p ds = ground arith
recv_flag-flag k p ds = ground arith

same_kind_refl : (k : Kind) → same_kind k k ≡ true
same_kind_refl Kind.int = refl
same_kind_refl k = refl

recv_array-bcast :
    (k : Kind) {xs : List ℤ} {n : ℕ} {ds : List Datum}
    → length xs ≡ n
    → recv_array k n (bcast k xs ∷ ds) ≡ some (xs, ds)
unfolding recv_array
recv_array-bcast k h = let e = same_kind_refl k in ground arith

c_string-with_nul : (s : List ℤ) → NoNul s → c_string (with_nul s) ≡ s
unfolding c_string
c_string-with_nul [] h = refl
c_string-with_nul (c ∷ s) (e, h) = rw (e, c_string-with_nul s h) refl

recv_name-name : (s : List ℤ) (ds : List Datum) → NoNul s → recv_name (name s ds) ≡ some (s, ds)
unfolding recv_name recv
recv_name-name s ds h =
    let e : length (with_nul s) ≡ length s + 1 = omega (arith, length-append s (pos 0 ∷ [])) in
    rw (recv_array-bcast Kind.char e, recv_name) (rw (c_string-with_nul s h) refl)

recv_if-if_there :
    (k : Kind) (o : Option (List ℤ)) (n : ℕ) (ds : List Datum)
    → HasLength o n
    → recv_if (is_there o) k n (if_there k o ds) ≡ some (o, ds)
unfolding recv_if
recv_if-if_there k none n ds h = refl
recv_if-if_there k (some xs) n ds h = rw (recv_array-bcast k h, recv_if) refl

-- The size that comes with a pointer, if it is there.
abbrev pub sized : ℤ → Bool → Option (List ℤ)
sized x false = none
sized x true = some (x ∷ [])

recv_if-if_flag :
    (k : Kind) (x : ℤ) (p : Bool) (ds : List Datum)
    → recv_if p k 1 (if_flag k x p ds) ≡ some (sized x p, ds)
unfolding recv_if
recv_if-if_flag k x false ds = refl
recv_if-if_flag k x true ds = recv_if-if_there k (some (x ∷ [])) 1 ds refl

recv_flag_into_int-flag :
    (other_bytes : ℤ) (p : Bool) (ds : List Datum)
    → (p || not (other_bytes ==ℤ pos 0)) ≡ p
    → recv_flag_into_int other_bytes (present Kind.char p ∷ ds) ≡ some (p, ds)
unfolding recv_flag_into_int
recv_flag_into_int-flag other_bytes p ds h =
    rw (recv_flag-flag Kind.char p ds, recv_flag_into_int, h) refl

recv-value : (k : Kind) (x : ℤ) (ds : List Datum) → recv k (value k x ∷ ds) ≡ some (x, ds)
unfolding recv
recv-value k x ds = rw (same_kind_refl k) refl

recv_count-value :
    (k : Kind) (n : ℕ) (ds : List Datum) → recv_count k (value k (pos n) ∷ ds) ≡ some (n, ds)
unfolding recv_count
recv_count-value k n ds = rw (same_kind_refl k) refl

lift-some :
    {A : Type 0} {o : Option A} {a : A} (ds : List Datum) → o ≡ some a → lift o ds ≡ some (a, ds)
unfolding lift
lift-some ds h = rw (h, lift) refl

require-true : {p : Bool} (ds : List Datum) → p ≡ true → require p ds ≡ some (tt, ds)
unfolding require
require-true ds h = rw (h, require) refl

-- What a receiver gets is passed to the next one.
pub bind-some :
    {A B : Type 0} (m : Receiver A) (f : A → Receiver B) {ds ds' : List Datum} {a : A}
    {r : Option (B × List Datum)}
    → m ds ≡ some (a, ds')
    → f a ds' ≡ r
    → (m >>= f) ds ≡ r
unfolding ◌>>=◌
bind-some m f h h' = rw (h, ◌>>=◌) h'

-- A receiver in front of what it is to receive.
module _ {B : Type 0} where
  pub bind-recv :
      (k : Kind) (f : ℤ → Receiver B) (x : ℤ) (ds : List Datum)
      → (recv k >>= f) (value k x ∷ ds) ≡ f x ds
  bind-recv k f x ds = bind-some _ _ (recv-value k x ds) refl

  pub bind-recv_count :
      (k : Kind) (f : ℕ → Receiver B) (n : ℕ) (ds : List Datum)
      → (recv_count k >>= f) (value k (pos n) ∷ ds) ≡ f n ds
  bind-recv_count k f n ds = bind-some _ _ (recv_count-value k n ds) refl

  pub bind-recv_flag :
      (k : Kind) (f : Bool → Receiver B) (p : Bool) (ds : List Datum)
      → (recv_flag k >>= f) (present k p ∷ ds) ≡ f p ds
  bind-recv_flag k f p ds = bind-some _ _ (recv_flag-flag k p ds) refl

  pub bind-recv_flag_into_int :
      (other_bytes : ℤ) {p : Bool}
      → (p || not (other_bytes ==ℤ pos 0)) ≡ p
      → (f : Bool → Receiver B) (ds : List Datum)
      → (recv_flag_into_int other_bytes >>= f) (present Kind.char p ∷ ds) ≡ f p ds
  bind-recv_flag_into_int other_bytes h f ds = bind-some _ _ (recv_flag_into_int-flag _ _ ds h) refl

  pub bind-recv_name :
      (s : List ℤ)
      → NoNul s
      → (f : List ℤ → Receiver B) (ds : List Datum) → (recv_name >>= f) (name s ds) ≡ f s ds
  bind-recv_name s h f ds = bind-some _ _ (recv_name-name s ds h) refl

  pub bind-recv_array :
      (k : Kind) {xs : List ℤ} {n : ℕ}
      → length xs ≡ n
      → (f : List ℤ → Receiver B) (ds : List Datum)
      → (recv_array k n >>= f) (bcast k xs ∷ ds) ≡ f xs ds
  bind-recv_array k h f ds = bind-some _ _ (recv_array-bcast k h) refl

  pub bind-recv_if :
      (k : Kind) (o : Option (List ℤ)) (n : ℕ)
      → HasLength o n
      → (f : Option (List ℤ) → Receiver B) (ds : List Datum)
      → (recv_if (is_there o) k n >>= f) (if_there k o ds) ≡ f o ds
  bind-recv_if k o n h f ds = bind-some _ _ (recv_if-if_there k o _ ds h) refl

  pub bind-recv_if_flag :
      (k : Kind) (f : Option (List ℤ) → Receiver B) (x : ℤ) (p : Bool) (ds : List Datum)
      → (recv_if p k 1 >>= f) (if_flag k x p ds) ≡ f (sized x p) ds
  bind-recv_if_flag k f x p ds = bind-some _ _ (recv_if-if_flag k x p ds) refl

  pub bind-lift :
      {A : Type 0} {o : Option A} {a : A}
      → o ≡ some a
      → (f : A → Receiver B) (ds : List Datum) → (lift o >>= f) ds ≡ f a ds
  bind-lift h f ds = bind-some _ _ (lift-some ds h) refl

  pub bind-require :
      {p : Bool}
      → p ≡ true
      → (f : Unit {0} → Receiver B) (ds : List Datum) → (require p >>= f) ds ≡ f tt ds
  bind-require h f ds = bind-some _ _ (require-true ds h) refl

pub ruleset receive_laws = (bind-recv, bind-recv_count, bind-recv_flag, bind-recv_if_flag)
