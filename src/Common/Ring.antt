-- ===== src/Common/Ring.antt =====
-- A list written around its end: what stands from a place on, oldest first.
use Prim.Native.Nat.{ℕ, zero, suc, ◌+◌, ◌-◌, ◌<◌, ◌≤◌}
use mathlib.Core.Path.{◌≡◌, refl, ap, sym, ◌∙◌}
use mathlib.Core.List.{List, [], ◌∷◌, ◌++◌, append_assoc, append-nil}
use mathlib.Core.Option.{some}
use native.Mathlib.Omega.{arith}
use native.Mathlib.Decide.{dec_lt}
use ackinacki.Common.Tests.{leb, if◌then◌else◌}
use ackinacki.Common.Lists.{length, get_elem?, set, take, drop, length-append, length-set}

module _ {ℓ} {A : Type ℓ} where
  take-set :
      (l : List A) (c : ℕ) (x : A) → c < length l → take (suc c) (set l c x) ≡ take c l ++ (x ∷ [])
  take-set [] c x h = absurd (omega arith)
  take-set (y ∷ l) zero x h = refl
  take-set (y ∷ l) (suc c) x h = ap (λ r. y ∷ r) (take-set l c x (omega arith))

  drop-set : (l : List A) (c : ℕ) (x : A) → drop (suc c) (set l c x) ≡ drop (suc c) l
  drop-set [] c x = refl
  drop-set (y ∷ l) zero x = refl
  drop-set (y ∷ l) (suc c) x = drop-set l c x

  drop-get_elem? :
      (l : List A) (c : ℕ) (x : A) → get_elem? l c ≡ some x → drop c l ≡ x ∷ drop (suc c) l
  drop-get_elem? [] c x h = absurd (ground arith)
  drop-get_elem? (y ∷ l) zero x h = ground arith
  drop-get_elem? (y ∷ l) (suc c) x h = drop-get_elem? l c x h

  take-length : (l : List A) (n : ℕ) → length l ≤ n → take n l ≡ l
  take-length [] zero h = refl
  take-length [] (suc n) h = refl
  take-length (y ∷ l) zero h = absurd (omega arith)
  take-length (y ∷ l) (suc n) h = ap (λ r. y ∷ r) (take-length l n (omega arith))

  drop-length : (l : List A) (n : ℕ) → length l ≤ n → drop n l ≡ []
  drop-length [] zero h = refl
  drop-length [] (suc n) h = refl
  drop-length (y ∷ l) zero h = absurd (omega arith)
  drop-length (y ∷ l) (suc n) h = drop-length l n (omega arith)

  -- A list read from a place on, around its end.
  abbrev pub from_place : ℕ → List A → List A
  from_place c l = drop c l ++ take c l

  abbrev pub tail : List A → List A
  tail [] = []
  tail (x ∷ xs) = xs

  -- The place moves on to the next, or back to the start.
  pub from_place-set :
      (l : List A) (c : ℕ) (x k : A)
      → get_elem? l c ≡ some x
      → c < length l
      → (from_place c l ≡ x ∷ tail (from_place c l))
        × (from_place (if leb (length l) (c + 1) then 0 else c + 1) (set l c k)
            ≡ tail (from_place c l) ++ (k ∷ []))
  from_place-set l c x k h lt = (front ∙ ap (λ r. x ∷ r) (sym (ap tail front)), moved)
    where
      front : from_place c l ≡ x ∷ (drop (suc c) l ++ take c l)
      front = ap (λ r. r ++ take c l) (drop-get_elem? l c x h)

      next : from_place (suc c) (set l c k) ≡ (drop (suc c) l ++ take c l) ++ (k ∷ [])
      next =
          rw (drop-set l c k, take-set l c k lt)
            (sym (append_assoc (drop (suc c) l) (take c l) (k ∷ [])))

      whole : length l ≤ suc c → set l c k ++ [] ≡ (drop (suc c) l ++ take c l) ++ (k ∷ [])
      whole h =
          append-nil (set l c k)
          ∙ sym (take-length (set l c k) (suc c) (omega (arith, length-set l c k)))
          ∙ take-set l c k lt
          ∙ ap (λ r. (r ++ take c l) ++ (k ∷ [])) (sym (drop-length l (suc c) h))

      moved :
          from_place (if leb (length l) (c + 1) then 0 else c + 1) (set l c k)
          ≡ tail (from_place c l) ++ (k ∷ [])
      moved = elim (dec_lt (suc c) (length l)) [
        | yes more ↦ ground (arith, next, ap tail front)
        | no last ↦ ground (arith, whole (omega arith), ap tail front)
      ]

  pub length-from_place : (c : ℕ) (l : List A) → length (from_place c l) ≡ length l
  length-from_place zero l = rw (append-nil l)
  length-from_place (suc c) [] = refl
  length-from_place (suc c) (y ∷ l) = omega (
    arith,
    length-append (drop c l) (y ∷ take c l),
    length-append (drop c l) (take c l),
    length-from_place c l,
  )

-- The last elements of a list.
abbrev pub last {ℓ} : {A : Type ℓ} → ℕ → List A → List A
last n xs = drop (length xs - n) xs

pub tail_shift {ℓ} :
    {A : Type ℓ} (q q' rest dropped end : List A) (x e : A)
    → q ≡ x ∷ tail q
    → q' ≡ tail q ++ (e ∷ [])
    → q' ++ rest ≡ dropped ++ end
    → q ++ (e ∷ rest) ≡ (x ∷ dropped) ++ end
tail_shift q q' rest dropped end x e front after h =
    ap (λ l. l ++ (e ∷ rest)) front
    ∙ ap (λ l. x ∷ l)
        (sym (append_assoc (tail q) (e ∷ []) rest) ∙ ap (λ l. l ++ rest) (sym after) ∙ h)

drop-append {ℓ} : {A : Type ℓ} (xs ys : List A) → drop (length xs) (xs ++ ys) ≡ ys
drop-append [] ys = refl
drop-append (x ∷ xs) ys = drop-append xs ys

pub last-append {ℓ} : {A : Type ℓ} (n : ℕ) (xs ys : List A) → length ys ≡ n → last n (xs ++ ys) ≡ ys
last-append n xs ys e =
    let back : length (xs ++ ys) - n ≡ length xs = omega (arith, length-append xs ys) in
    ap (λ m. drop m (xs ++ ys)) back ∙ drop-append xs ys
