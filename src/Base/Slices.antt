-- ===== src/Base/Slices.antt =====
-- Slices of byte buffers as Rust indexes and copies them, with the panics of both.
use Prim.Native.Nat.{ℕ, zero, suc, ◌+◌, ◌-◌, ◌≤◌, ◌<◌}
use mathlib.Core.Path.{◌≡◌, refl, ap, sym, ◌∙◌}
use mathlib.Core.Bool.{◌&&◌}
use mathlib.Core.List.{List, [], ◌∷◌, ◌++◌, append_assoc}
use native.Mathlib.Omega.{arith}
use beyond_os1k.Base.Tests.{leb, le→leb, lt→leb, eq→==, ◌==◌}
use beyond_os1k.Base.Lists.{
  length, take, drop, replicate, length-append, length-take, length-drop, take-append,
}
use beyond_os1k.Base.Panics.{Outcome, ok, panic, out_of_bounds, length_mismatch, guard, ◌>>◌}

module _ {ℓ} {A : Type ℓ} where
  -- `xs[lo..hi]`
  abbrev pub part : ℕ → ℕ → List A → List A
  part lo hi xs = take (hi - lo) (drop lo xs)

  unfoldable pub slice : List A → ℕ → ℕ → Outcome (List A)
  slice xs lo hi = do guard (leb lo hi && leb hi (length xs)) out_of_bounds; ok (part lo hi xs)

  -- `ys` put over `xs` from `lo` on
  abbrev pub overlay : List A → ℕ → List A → List A
  overlay xs lo ys = take lo xs ++ (ys ++ drop (lo + length ys) xs)

  -- `xs[lo..hi].copy_from_slice(ys)`
  unfoldable pub copy_into : List A → ℕ → ℕ → List A → Outcome (List A)
  copy_into xs lo hi ys = do
    guard (leb lo hi && leb hi (length xs)) out_of_bounds
    guard (hi - lo == length ys) length_mismatch
    ok (overlay xs lo ys)

  pub slice-ok :
      (xs : List A) (lo hi : ℕ) → lo ≤ hi → hi ≤ length xs → slice xs lo hi ≡ ok (part lo hi xs)
  unfolding slice
  slice-ok xs lo hi a b = rw (le→leb lo hi a, le→leb hi (length xs) b)

  pub copy_into-ok :
      (xs : List A) (lo hi : ℕ) (ys : List A)
      → lo + length ys ≡ hi
      → hi ≤ length xs
      → copy_into xs lo hi ys ≡ ok (overlay xs lo ys)
  unfolding copy_into
  copy_into-ok xs lo hi ys e b = rw (
    le→leb lo hi (omega arith),
    le→leb hi (length xs) b,
    eq→== (hi - lo) (length ys) (omega arith),
  )

  pub copy_into-overrun :
      (xs : List A) (lo hi : ℕ) (ys : List A)
      → lo ≤ hi
      → length xs < hi
      → copy_into xs lo hi ys ≡ panic out_of_bounds
  unfolding copy_into
  copy_into-overrun xs lo hi ys a b = rw (le→leb lo hi a, lt→leb hi (length xs) b)

  pub length-overlay :
      (xs : List A) (lo : ℕ) (ys : List A)
      → lo + length ys ≤ length xs
      → length (overlay xs lo ys) ≡ length xs
  length-overlay xs lo ys h = omega (
    arith,
    length-append (take lo xs) (ys ++ drop (lo + length ys) xs),
    length-append ys (drop (lo + length ys) xs),
    length-take lo xs,
    length-drop (lo + length ys) xs,
  )

  pub take-append_le : (n : ℕ) (xs ys : List A) → n ≤ length xs → take n (xs ++ ys) ≡ take n xs
  take-append_le zero xs ys h = refl
  take-append_le (suc n) [] ys h = absurd (omega arith)
  take-append_le (suc n) (x ∷ xs) ys h = ap (λ r. x ∷ r) (take-append_le n xs ys (omega arith))

  pub take-take : (n m : ℕ) (xs : List A) → n ≤ m → take n (take m xs) ≡ take n xs
  take-take zero m xs h = refl
  take-take (suc n) zero xs h = absurd (omega arith)
  take-take (suc n) (suc m) [] h = refl
  take-take (suc n) (suc m) (x ∷ xs) h = ap (λ r. x ∷ r) (take-take n m xs (omega arith))

  pub take-nil : (n : ℕ) → take {A = A} n [] ≡ []
  take-nil zero = refl
  take-nil (suc n) = refl

  pub take-drop : (n m k : ℕ) (xs : List A) → m + n ≡ k → take n (drop m xs) ≡ drop m (take k xs)
  take-drop n zero k xs e = ap (λ t. take t xs) (omega arith)
  take-drop n (suc m) zero xs e = absurd (omega arith)
  take-drop n (suc m) (suc k) [] e = take-nil n
  take-drop n (suc m) (suc k) (x ∷ xs) e = take-drop n m k xs (omega arith)

  pub drop-append_eq : (n : ℕ) (xs ys : List A) → n ≡ length xs → drop n (xs ++ ys) ≡ ys
  drop-append_eq zero [] ys h = refl
  drop-append_eq zero (x ∷ xs) ys h = absurd (omega arith)
  drop-append_eq (suc n) [] ys h = absurd (omega arith)
  drop-append_eq (suc n) (x ∷ xs) ys h = drop-append_eq n xs ys (omega arith)

  -- The middle of three.
  pub part-middle :
      (lo hi : ℕ) (xs ys zs : List A)
      → lo ≡ length xs
      → hi ≡ lo + length ys
      → part lo hi (xs ++ (ys ++ zs)) ≡ ys
  part-middle lo hi xs ys zs e h =
      let n : hi - lo ≡ length ys = omega arith in
      rw (drop-append_eq lo xs (ys ++ zs) e, n) (take-append ys zs)

  pub overlay-middle :
      (lo : ℕ) (xs ys ys' zs : List A)
      → lo ≡ length xs
      → length ys ≡ length ys'
      → overlay (xs ++ (ys ++ zs)) lo ys' ≡ xs ++ (ys' ++ zs)
  overlay-middle lo xs ys ys' zs e h =
      let split : xs ++ (ys ++ zs) ≡ (xs ++ ys) ++ zs = sym (append_assoc xs ys zs) in
      let front : take lo (xs ++ (ys ++ zs)) ≡ xs =
        ap (λ t. take t (xs ++ (ys ++ zs))) e ∙ take-append xs (ys ++ zs) in
      let back : drop (lo + length ys') (xs ++ (ys ++ zs)) ≡ zs =
        ap (λ t. drop (lo + length ys') t) split
        ∙ drop-append_eq (lo + length ys') (xs ++ ys) zs (omega (arith, length-append xs ys)) in
      rw (front, back)

  pub drop-append_add :
      (lo m : ℕ) (xs ys : List A) → lo ≡ length xs + m → drop lo (xs ++ ys) ≡ drop m ys
  drop-append_add lo m [] ys e = ap (λ t. drop t ys) (omega arith)
  drop-append_add zero m (x ∷ xs) ys e = absurd (omega arith)
  drop-append_add (suc lo) m (x ∷ xs) ys e = drop-append_add lo m xs ys (omega arith)

  pub take-append_eq : (n : ℕ) (xs ys : List A) → n ≡ length xs → take n (xs ++ ys) ≡ xs
  take-append_eq n xs ys e = ap (λ t. take t (xs ++ ys)) e ∙ take-append xs ys

  drop-nil : (n : ℕ) → drop {A = A} n [] ≡ []
  drop-nil zero = refl
  drop-nil (suc n) = refl

  pub drop-drop : (k n m : ℕ) (xs : List A) → k ≡ n + m → drop m (drop n xs) ≡ drop k xs
  drop-drop k zero m xs e = ap (λ t. drop t xs) (omega arith)
  drop-drop zero (suc n) m xs e = absurd (omega arith)
  drop-drop (suc k) (suc n) m [] e = drop-nil m
  drop-drop (suc k) (suc n) m (x ∷ xs) e = drop-drop k n m xs (omega arith)

  pub drop-replicate : (n m : ℕ) (x : A) → drop n (replicate m x) ≡ replicate (m - n) x
  drop-replicate zero m x = ap (λ t. replicate t x) (omega arith)
  drop-replicate (suc n) zero x = let e : 0 ≡ 0 - suc n = omega arith in ap (λ t. replicate t x) e
  drop-replicate (suc n) (suc m) x =
      let e : m - n ≡ suc m - suc n = omega arith in
      drop-replicate n m x ∙ ap (λ t. replicate t x) e

  pub split_at : (n : ℕ) (xs : List A) → xs ≡ take n xs ++ drop n xs
  split_at zero xs = refl
  split_at (suc n) [] = refl
  split_at (suc n) (x ∷ xs) = ap (λ r. x ∷ r) (split_at n xs)

  pub replicate-split :
      (n m k : ℕ) (x : A) → k ≡ n + m → replicate k x ≡ replicate n x ++ replicate m x
  replicate-split zero m k x e = ap (λ t. replicate t x) (omega arith)
  replicate-split (suc n) m zero x e = absurd (omega arith)
  replicate-split (suc n) m (suc k) x e = ap (λ r. x ∷ r) (replicate-split n m k x (omega arith))
