-- ===== src/Prelude/Dicts.antt =====
-- A Go map with string keys, as an association list. Writes to a present key keep its place and
-- new keys go to the end. Go leaves the order of iteration open: this is one of the orders.
use Prim.Native.Nat.{ℕ, suc}
use Prim.Native.String.{String}
use mathlib.Core.Path.{◌≡◌, refl, sym, subst, subst₂}
use mathlib.Core.Logic.{inl, inr}
use mathlib.Core.Bool.{Bool}
use mathlib.Core.Option.{Option, none, some}
use mathlib.Core.List.{List, [], ◌∷◌}
use native.Mathlib.Omega.{arith}
use release_engine.Prelude.Tests.{if◌then◌else◌, Bool-cases}
use text.Mathlib.Text.{◌==◌}
use text.Mathlib.TextEquality.{eq_iff}

abbrev pub Dict {ℓ} : Type ℓ → Type ℓ
Dict V = List (String × V)

module _ {ℓ} {V : Type ℓ} where
  unfoldable pub lookup : String → Dict V → Option V
  lookup key [] = none
  lookup key ((name, value) ∷ rest) = if name == key then some value else lookup key rest

  unfoldable pub insert : String → V → Dict V → Dict V
  insert key new [] = (key, new) ∷ []
  insert key new ((name, old) ∷ rest) =
      if name == key then (name, new) ∷ rest else (name, old) ∷ insert key new rest

  -- A read after a write.
  pub lookup-insert :
      (key asked : String) (new : V) (m : Dict V)
      → lookup asked (insert key new m) ≡ (if key == asked then some new else lookup asked m)
  unfolding insert lookup
  lookup-insert key asked new [] = refl
  lookup-insert key asked new ((name, old) ∷ rest) =
      let later = lookup-insert key asked new rest in
      ground (arith, later, eq_iff name key, eq_iff name asked, eq_iff key asked)

  -- Every entry satisfies `P`.
  abbrev pub AllEntries {κ} : (String → V → Type κ) → Dict V → Type κ
  AllEntries P [] = Unit
  AllEntries P ((k, v) ∷ m) = P k v × AllEntries P m

  pub AllEntries-insert {κ} :
      (P : String → V → Type κ) (k : String) (v : V) (m : Dict V)
      → AllEntries P m
      → P k v
      → AllEntries P (insert k v m)
  unfolding insert
  AllEntries-insert P k v [] h p = (p, tt)
  AllEntries-insert P k v ((j, w) ∷ m) (hj, h) p = elim (Bool-cases (j == k)) [
    | inl e ↦ rw e (subst (λ i. P i v) (sym ((eq_iff j k).0 e)) p, h)
    | inr e ↦ rw e (hj, AllEntries-insert P k v m h p)
  ]

  pub AllEntries-lookup {κ} :
      (P : String → V → Type κ) (k : String) (v : V) (m : Dict V)
      → AllEntries P m
      → lookup k m ≡ some v
      → P k v
  unfolding lookup
  AllEntries-lookup P k v [] h e = cc
  AllEntries-lookup P k v ((j, w) ∷ m) (hj, h) e = elim (Bool-cases (j == k)) [
    | inl same ↦
        let found : Option.some w ≡ some v = rw same at e in
        let same_value : w ≡ v = cc in subst₂ P ((eq_iff j k).0 same) same_value hj
    | inr other ↦ AllEntries-lookup P k v m h (rw other at e)
  ]

  -- No key occurs twice.
  abbrev pub Distinct : Dict V → Type ℓ
  Distinct [] = Unit
  Distinct ((k, v) ∷ m) = (lookup k m ≡ none) × Distinct m

  pub Distinct-insert : (k : String) (v : V) (m : Dict V) → Distinct m → Distinct (insert k v m)
  unfolding lookup insert
  Distinct-insert k v [] h = (refl, tt)
  Distinct-insert k v ((j, w) ∷ m) (new, h) =
      ground (arith, lookup-insert k j v m, Distinct-insert k v m h, eq_iff k j, eq_iff j k)

  -- How many entries pass a test.
  unfoldable pub count : (V → Bool) → Dict V → ℕ
  count p [] = 0
  count p ((k, v) ∷ m) = if p v then suc (count p m) else count p m

  -- A write keeps a present key present, and keeps its value if the written key is new.
  pub lookup-insert_present :
      (k j : String) (u v : V) (m : Dict V)
      → lookup k m ≡ some v
      → (w : V) × (lookup k (insert j u m) ≡ some w)
  lookup-insert_present k j u v m h = elim (Bool-cases (j == k)) [
    | inl e ↦ (u, rw (lookup-insert, e))
    | inr e ↦ (v, rw (lookup-insert, e) h)
  ]

  pub lookup-insert_new :
      (k j : String) (u v : V) (m : Dict V)
      → lookup j m ≡ none
      → lookup k m ≡ some v
      → lookup k (insert j u m) ≡ some v
  lookup-insert_new k j u v m new h = ground (arith, lookup-insert j k u m, eq_iff j k)
