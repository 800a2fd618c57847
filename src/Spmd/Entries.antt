-- ===== src/Spmd/Entries.antt =====
-- The limits of the flow control, and the receives, sends and handshakes in a list of calls.
use parallel_io.Base.{
  ◌⊎◌, ℕ, zero, suc, ◌≤◌, ◌<◌, ◌≡◌, refl, sym, ap, ◌∙◌, List, [], ◌∷◌, ◌++◌, arith,
}
use parallel_io.Base.Int.{ℤ}
use parallel_io.Base.Ranks.{concat_to}
use parallel_io.Spmd.{Call, irecv, irecv_hs, send, isend, irsend, limits}

-- The limits of a run with at least one step.
pub record Bounded (steps : ℕ) (l : ℕ × ℕ) : Type 0 where
  pub some_req : 1 ≤ l.0
  pub some_half : 1 ≤ l.1
  pub within : l.0 ≤ steps
  pub half : l.1 ≤ l.0
  pub strict : l.1 < l.0 ⊎ (l.0 ≡ steps)

pub limits-Bounded : (m : ℤ) (steps : ℕ) → 1 ≤ steps → Bounded steps (limits m steps)
unfolding limits
limits-Bounded m steps h = record {
  some_req = ground arith;
  some_half = ground arith;
  within = ground arith;
  half = ground arith;
  strict = ground arith;
}

-- Step, other rank and tag of a call.
abbrev pub Entry : Type 0
Entry = ℕ × ℕ × ℕ

abbrev pub recv_entry : Call → List Entry
recv_entry (irecv i p t) = (i, p, t) ∷ []
recv_entry c = []

abbrev pub send_entry : Call → List Entry
send_entry (send i p t) = (i, p, t) ∷ []
send_entry (isend i p t) = (i, p, t) ∷ []
send_entry (irsend i p t) = (i, p, t) ∷ []
send_entry c = []

abbrev pub hs_entry : Call → List Entry
hs_entry (irecv_hs i p t) = (i, p, t) ∷ []
hs_entry c = []

unfoldable pub select : (Call → List Entry) → List Call → List Entry
select f [] = []
select f (c ∷ cs) = f c ++ select f cs

pub append_assoc : (xs ys zs : List Entry) → (xs ++ ys) ++ zs ≡ xs ++ (ys ++ zs)
append_assoc [] ys zs = refl
append_assoc (x ∷ xs) ys zs = ap (λ l. x ∷ l) (append_assoc xs ys zs)

pub append-nil : (xs : List Entry) → xs ++ [] ≡ xs
append-nil [] = refl
append-nil (x ∷ xs) = ap (λ l. x ∷ l) (append-nil xs)

pub select-append :
    (f : Call → List Entry) (xs ys : List Call) → select f (xs ++ ys) ≡ select f xs ++ select f ys
unfolding select
select-append f [] ys = refl
select-append f (c ∷ cs) ys =
    ap (λ l. f c ++ l) (select-append f cs ys)
    ∙ sym (append_assoc (f c) (select f cs) (select f ys))

pub select-append_two :
    (f : Call → List Entry) (xs ys zs : List Call)
    → select f (xs ++ ys ++ zs) ≡ select f xs ++ select f ys ++ select f zs
select-append_two f xs ys zs =
    select-append f (xs ++ ys) zs ∙ ap (λ l. l ++ select f zs) (select-append f xs ys)

pub select-concat_to :
    (f : Call → List Entry) (n : ℕ) (g : ℕ → List Call)
    → select f (concat_to n g) ≡ concat_to n (λ i. select f (g i))
unfolding concat_to select
select-concat_to f zero g = refl
select-concat_to f (suc n) g =
    select-append f (concat_to n g) (g n) ∙ ap (λ l. l ++ select f (g n)) (select-concat_to f n g)

pub concat_to-empty : (n : ℕ) (g : ℕ → List Entry) → ((i : ℕ) → g i ≡ []) → concat_to n g ≡ []
unfolding concat_to
concat_to-empty zero g h = refl
concat_to-empty (suc n) g h = rw (concat_to-empty n g h, h n) refl
