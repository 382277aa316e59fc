-- ===== src/Prelude/Sort.antt =====
-- Insertion sort by a Boolean order: what `sort.Slice`, `sort.Strings` and ORDER BY return.
use mathlib.Core.Bool.{Bool, true, false}
use Prim.Native.Nat.{ℕ, zero, suc}
use mathlib.Core.Path.{◌≡◌, refl, subst, sym}
use mathlib.Core.List.{List, [], ◌∷◌, Memᴰ}
use native.Mathlib.Omega.{arith}
use release_engine.Prelude.Lists.{All, take, length}
use release_engine.Prelude.Tests.{if◌then◌else◌, Bool-cases}
use mathlib.Core.Logic.{◌⊎◌, inl, inr}

module _ {ℓ} {A : Type ℓ} (le : A → A → Bool) where
  insert_sorted : A → List A → List A
  insert_sorted a [] = a ∷ []
  insert_sorted a (x ∷ xs) = if le a x then a ∷ x ∷ xs else x ∷ insert_sorted a xs

  unfoldable pub sort : List A → List A
  unfolding insert_sorted
  sort [] = []
  sort (x ∷ xs) = insert_sorted x (sort xs)

module _ {ℓ} {A : Type ℓ} (le : A → A → Bool) where
  mem-insert_sorted : (b a : A) (xs : List A) → Memᴰ b (a ∷ xs) → Memᴰ b (insert_sorted le a xs)
  unfolding insert_sorted
  mem-insert_sorted b a [] m = m
  mem-insert_sorted b a (x ∷ xs) m = elim (Bool-cases (le a x)) [
    | inl e ↦ rw e m
    | inr e ↦ rw e (swap_in (mem-insert_sorted b a xs) m)
  ]
    where
      swap_in :
          (Memᴰ b (a ∷ xs) → Memᴰ b (insert_sorted le a xs))
          → Memᴰ b (a ∷ x ∷ xs)
          → Memᴰ b (x ∷ insert_sorted le a xs)
      swap_in rest (Memᴰ.head e) = Memᴰ.tail (rest (Memᴰ.head e))
      swap_in rest (Memᴰ.tail (Memᴰ.head e)) = Memᴰ.head e
      swap_in rest (Memᴰ.tail (Memᴰ.tail m)) = Memᴰ.tail (rest (Memᴰ.tail m))

  mem_of_insert_sorted : (b a : A) (xs : List A) → Memᴰ b (insert_sorted le a xs) → Memᴰ b (a ∷ xs)
  unfolding insert_sorted
  mem_of_insert_sorted b a [] m = m
  mem_of_insert_sorted b a (x ∷ xs) m = elim (Bool-cases (le a x)) [
    | inl e ↦ rw e at m
    | inr e ↦ swap_out (mem_of_insert_sorted b a xs) (rw e at m)
  ]
    where
      under : Memᴰ b (a ∷ xs) → Memᴰ b (a ∷ x ∷ xs)
      under (Memᴰ.head e) = Memᴰ.head e
      under (Memᴰ.tail m) = Memᴰ.tail (Memᴰ.tail m)

      swap_out :
          (Memᴰ b (insert_sorted le a xs) → Memᴰ b (a ∷ xs))
          → Memᴰ b (x ∷ insert_sorted le a xs)
          → Memᴰ b (a ∷ x ∷ xs)
      swap_out rest (Memᴰ.head e) = Memᴰ.tail (Memᴰ.head e)
      swap_out rest (Memᴰ.tail m) = under (rest m)

  pub mem-sort : (b : A) (xs : List A) → Memᴰ b xs → Memᴰ b (sort le xs)
  unfolding sort
  mem-sort b [] m = m
  mem-sort b (x ∷ xs) (Memᴰ.head e) = mem-insert_sorted b x (sort le xs) (Memᴰ.head e)
  mem-sort b (x ∷ xs) (Memᴰ.tail m) =
      mem-insert_sorted b x (sort le xs) (Memᴰ.tail (mem-sort b xs m))

  pub mem_of_sort : (b : A) (xs : List A) → Memᴰ b (sort le xs) → Memᴰ b xs
  unfolding sort
  mem_of_sort b [] m = m
  mem_of_sort b (x ∷ xs) m = go (mem_of_insert_sorted b x (sort le xs) m) (mem_of_sort b xs)
    where
      go : Memᴰ b (x ∷ sort le xs) → (Memᴰ b (sort le xs) → Memᴰ b xs) → Memᴰ b (x ∷ xs)
      go (Memᴰ.head e) rec = Memᴰ.head e
      go (Memᴰ.tail m) rec = Memᴰ.tail (rec m)

-- Each element is before all that follow.
abbrev pub Sorted {ℓ} : {A : Type ℓ} → (A → A → Bool) → List A → Type ℓ
Sorted le [] = Unit
Sorted le (x ∷ xs) = All (λ y. le x y ≡ true) xs × Sorted le xs

module _ {ℓ} {A : Type ℓ} (le : A → A → Bool) where
  abbrev pub IsTotal : Type ℓ
  IsTotal = (x y : A) → (le x y ≡ true) ⊎ (le y x ≡ true)

  abbrev pub IsTransitive : Type ℓ
  IsTransitive = (x y z : A) → le x y ≡ true → le y z ≡ true → le x z ≡ true

module _ {ℓ} {A : Type ℓ} (le : A → A → Bool) (total : IsTotal le) (trans : IsTransitive le) where
  All-trans :
      (a x : A) (xs : List A)
      → le a x ≡ true
      → All (λ y. le x y ≡ true) xs
      → All (λ y. le a y ≡ true) xs
  All-trans a x [] h all = tt
  All-trans a x (y ∷ ys) h (p, all) = (trans a x y h p, All-trans a x ys h all)

  All-insert_sorted :
      (x a : A) (xs : List A)
      → le x a ≡ true
      → All (λ y. le x y ≡ true) xs
      → All (λ y. le x y ≡ true) (insert_sorted le a xs)
  unfolding insert_sorted
  All-insert_sorted x a [] h all = (h, tt)
  All-insert_sorted x a (y ∷ ys) h (p, all) = elim (Bool-cases (le a y)) [
    | inl e ↦ rw e (h, (p, all))
    | inr e ↦ rw e (p, All-insert_sorted x a ys h all)
  ]

  insert_sorted-Sorted : (a : A) (xs : List A) → Sorted le xs → Sorted le (insert_sorted le a xs)
  unfolding insert_sorted
  insert_sorted-Sorted a [] s = (tt, tt)
  insert_sorted-Sorted a (x ∷ xs) (p, s) = elim (Bool-cases (le a x)) [
    | inl e ↦ rw e ((e, All-trans a x xs e p), (p, s))
    | inr e ↦
        rw e (All-insert_sorted x a xs (other_way (total a x) e) p, insert_sorted-Sorted a xs s)
  ]
    where
      other_way : (le a x ≡ true) ⊎ (le x a ≡ true) → le a x ≡ false → le x a ≡ true
      other_way (inl h) e = cc
      other_way (inr h) e = h

  pub sort-Sorted : (xs : List A) → Sorted le (sort le xs)
  unfolding sort
  sort-Sorted [] = tt
  sort-Sorted (x ∷ xs) = insert_sorted-Sorted x (sort le xs) (sort-Sorted xs)

pub All_mem {ℓ κ} : {A : Type ℓ} (P : A → Type κ) (xs : List A) (a : A) → All P xs → Memᴰ a xs → P a
All_mem P [] a all m = elim m [ ]
All_mem P (x ∷ xs) a (p, all) (Memᴰ.head e) = subst P (sym e) p
All_mem P (x ∷ xs) a (p, all) (Memᴰ.tail m) = All_mem P xs a all m

-- The first `n` of a sorted list are before every element that is left out, and then there are `n`.
pub take-Sorted {ℓ} :
    {A : Type ℓ} (le : A → A → Bool) (n : ℕ) (xs : List A) (a : A)
    → Sorted le xs
    → Memᴰ a xs
    → Memᴰ a (take n xs) ⊎ (All (λ y. le y a ≡ true) (take n xs) × (length (take n xs) ≡ n))
take-Sorted le zero xs a s m = inr (tt, refl)
take-Sorted le (suc n) [] a s m = elim m [ ]
take-Sorted le (suc n) (x ∷ xs) a (p, s) (Memᴰ.head e) = inl (Memᴰ.head e)
take-Sorted le (suc n) (x ∷ xs) a (p, s) (Memᴰ.tail m) =
    go (take-Sorted le n xs a s m) (All_mem (λ y. le x y ≡ true) xs a p m)
  where
    go :
        Memᴰ a (take n xs) ⊎ (All (λ y. le y a ≡ true) (take n xs) × (length (take n xs) ≡ n))
        → le x a ≡ true
        → Memᴰ a (x ∷ take n xs)
          ⊎ (All (λ y. le y a ≡ true) (x ∷ take n xs) × (suc (length (take n xs)) ≡ suc n))
    go (inl m) h = inl (Memᴰ.tail m)
    go (inr (all, len)) h = inr ((h, all), omega arith)

pub mem_of_take {ℓ} : {A : Type ℓ} (n : ℕ) (xs : List A) (a : A) → Memᴰ a (take n xs) → Memᴰ a xs
mem_of_take zero xs a m = elim m [ ]
mem_of_take (suc n) [] a m = elim m [ ]
mem_of_take (suc n) (x ∷ xs) a (Memᴰ.head e) = Memᴰ.head e
mem_of_take (suc n) (x ∷ xs) a (Memᴰ.tail m) = Memᴰ.tail (mem_of_take n xs a m)
