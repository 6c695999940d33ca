-- ===== src/Base/Lists.antt =====
-- Lists measured and indexed by native numbers, under the library's names.
use Prim.Native.Nat.{ℕ, zero, suc, ◌+◌, ◌-◌, ◌≤◌, min}
use mathlib.Core.Path.{◌≡◌, refl, ap}
use mathlib.Core.List.{List, [], ◌∷◌, ◌++◌, reverse, reverse-cons, append_assoc}
use mathlib.Core.Option.{Option, none, some}
use native.Mathlib.Nat.{zero-add, suc-add}
use native.Mathlib.Omega.{arith}

module _ {ℓ} {A : Type ℓ} where
  abbrev pub length : List A → ℕ
  length [] = 0
  length (u ∷ us) = suc (length us)

  abbrev pub get_elem? : List A → ℕ → Option A
  get_elem? [] i = none
  get_elem? (u ∷ us) zero = some u
  get_elem? (u ∷ us) (suc i) = get_elem? us i

  abbrev pub take : ℕ → List A → List A
  take zero us = []
  take (suc n) [] = []
  take (suc n) (u ∷ us) = u ∷ take n us

  abbrev pub drop : ℕ → List A → List A
  drop zero us = us
  drop (suc n) [] = []
  drop (suc n) (u ∷ us) = drop n us

  abbrev pub replicate : ℕ → A → List A
  replicate zero a = []
  replicate (suc n) a = a ∷ replicate n a

  abbrev pub All {κ} : (A → Type κ) → List A → Type κ
  All Q [] = Unit
  All Q (u ∷ us) = Q u × All Q us

  -- Go's `copy(dst[at:at+len(src)], src)`, for a window inside `dst`.
  unfoldable pub overwrite : List A → ℕ → List A → List A
  overwrite dst at src = take at dst ++ (src ++ drop (at + length src) dst)

  pub length-append : (us vs : List A) → length (us ++ vs) ≡ length us + length vs
  length-append [] vs = omega arith
  length-append (u ∷ us) vs = omega (arith, length-append us vs)

  pub take-append-drop : (n : ℕ) (us : List A) → take n us ++ drop n us ≡ us
  take-append-drop zero us = refl
  take-append-drop (suc n) [] = refl
  take-append-drop (suc n) (u ∷ us) = ap (λ vs. u ∷ vs) (take-append-drop n us)

  pub length-take : (n : ℕ) (us : List A) → length (take n us) ≡ min n (length us)
  length-take zero us = omega arith
  length-take (suc n) [] = omega arith
  length-take (suc n) (u ∷ us) = omega (arith, length-take n us)

  pub length-drop : (n : ℕ) (us : List A) → length (drop n us) ≡ length us - n
  length-drop zero us = omega arith
  length-drop (suc n) [] = omega arith
  length-drop (suc n) (u ∷ us) = omega (arith, length-drop n us)

  pub length-replicate : (n : ℕ) (a : A) → length (replicate n a) ≡ n
  length-replicate zero a = refl
  length-replicate (suc n) a = ap suc (length-replicate n a)

  pub take_all : (us : List A) → take (length us) us ≡ us
  take_all [] = refl
  take_all (u ∷ us) = ap (λ vs. u ∷ vs) (take_all us)

  pub drop_all : (us : List A) → drop (length us) us ≡ []
  drop_all [] = refl
  drop_all (u ∷ us) = drop_all us

  pub take_of_le : (n : ℕ) (us : List A) → length us ≤ n → take n us ≡ us
  take_of_le zero [] h = refl
  take_of_le zero (u ∷ us) h = absurd (omega arith)
  take_of_le (suc n) [] h = refl
  take_of_le (suc n) (u ∷ us) h = ap (λ vs. u ∷ vs) (take_of_le n us (omega arith))

  pub drop_of_le : (n : ℕ) (us : List A) → length us ≤ n → drop n us ≡ []
  drop_of_le zero [] h = refl
  drop_of_le zero (u ∷ us) h = absurd (omega arith)
  drop_of_le (suc n) [] h = refl
  drop_of_le (suc n) (u ∷ us) h = drop_of_le n us (omega arith)

  pub take-append_left : (us vs : List A) → take (length us) (us ++ vs) ≡ us
  take-append_left [] vs = refl
  take-append_left (u ∷ us) vs = ap (λ ws. u ∷ ws) (take-append_left us vs)

  pub drop-append_left : (us vs : List A) → drop (length us) (us ++ vs) ≡ vs
  drop-append_left [] vs = refl
  drop-append_left (u ∷ us) vs = drop-append_left us vs

  pub drop-append : (us vs : List A) (n : ℕ) → drop (length us + n) (us ++ vs) ≡ drop n vs
  drop-append [] vs n = rw zero-add
  drop-append (u ∷ us) vs n = rw suc-add (drop-append us vs n)

  pub drop-drop : (m n : ℕ) (us : List A) → drop n (drop m us) ≡ drop (m + n) us
  drop-drop zero n us = rw zero-add
  drop-drop (suc m) zero [] = rw suc-add
  drop-drop (suc m) (suc n) [] = rw suc-add
  drop-drop (suc m) n (u ∷ us) = rw suc-add (drop-drop m n us)

  pub All-append {κ} : (Q : A → Type κ) (us vs : List A) → All Q us → All Q vs → All Q (us ++ vs)
  All-append Q [] vs front back = back
  All-append Q (u ∷ us) vs front back = (front.0, All-append Q us vs front.1 back)

  pub All-reverse {κ} : (Q : A → Type κ) (us : List A) → All Q us → All Q (reverse us)
  All-reverse Q [] h = tt
  All-reverse Q (u ∷ us) h =
      rw (reverse-cons u us) (All-append Q (reverse us) (u ∷ []) (All-reverse Q us h.1) (h.0, tt))

-- What the successive windows wrote, before the untouched rest.
pub overwrite-overwrite {ℓ} :
    {A : Type ℓ} (done src dst : List A)
    → overwrite (done ++ drop (length done) dst) (length done) src
      ≡ (done ++ src) ++ drop (length (done ++ src)) dst
unfolding overwrite
overwrite-overwrite done src dst =
    rw
      (
        take-append_left done (drop (length done) dst),
        drop-append done (drop (length done) dst) (length src),
        drop-drop (length done) (length src) dst,
        length-append done src,
        append_assoc,
      )
      refl

pub length-overwrite {ℓ} :
    {A : Type ℓ} (dst : List A) (at : ℕ) (src : List A)
    → at + length src ≤ length dst
    → length (overwrite dst at src) ≡ length dst
unfolding overwrite
length-overwrite dst at src h = omega (
  arith,
  length-append (take at dst) (src ++ drop (at + length src) dst),
  length-append src (drop (at + length src) dst),
  length-take at dst,
  length-drop (at + length src) dst,
)
