-- ===== src/Prelude/Map.antt =====
-- `BTreeMap` with integer keys, as an association list in key order.
use Prim.Native.Nat.{ℕ, ◌<◌, ◌≤◌}
use mathlib.Core.Path.{◌≡◌, refl}
use mathlib.Core.List.{List, [], ◌∷◌}
use mathlib.Core.Option.{Option, none, some}
use native.Mathlib.Omega.{arith}
use cathub.Prelude.Tests.{◌==◌, ltb, if◌then◌else◌}

abbrev pub Map {ℓ} : Type ℓ → Type ℓ
Map V = List (ℕ × V)

module _ {ℓ} {V : Type ℓ} where
  unfoldable pub lookup : ℕ → Map V → Option V
  lookup key [] = none
  lookup key ((here, value) ∷ rest) = if here == key then some value else lookup key rest

  unfoldable pub insert : ℕ → V → Map V → Map V
  insert key value [] = (key, value) ∷ []
  insert key value ((here, held) ∷ rest) =
      if key == here
      then (key, value) ∷ rest
      else if ltb key here
      then (key, value) ∷ (here, held) ∷ rest
      else (here, held) ∷ insert key value rest

  unfoldable pub remove : ℕ → Map V → Map V
  remove key [] = []
  remove key ((here, value) ∷ rest) =
      if here == key then remove key rest else (here, value) ∷ remove key rest

  abbrev pub values : Map V → List V
  values [] = []
  values ((key, value) ∷ rest) = value ∷ values rest

  -- The keys lie above a bound and ascend.
  abbrev pub Above : ℕ → Map V → Type 0
  Above lo [] = Unit {0}
  Above lo ((key, value) ∷ rest) = (lo < key) × Above key rest

  abbrev pub IsSorted : Map V → Type 0
  IsSorted [] = Unit {0}
  IsSorted ((key, value) ∷ rest) = Above key rest

module _ {ℓ} {V : Type ℓ} where
  pub lookup-insert :
      (key here : ℕ) (value : V) (rest : Map V)
      → lookup here (insert key value rest) ≡ (if key == here then some value else lookup here rest)
  unfolding lookup insert
  lookup-insert key here value [] = refl
  lookup-insert key here value ((there, held) ∷ rest) =
      ground (arith, lookup-insert key here value rest)

  pub lookup-remove :
      (key here : ℕ) (rest : Map V)
      → lookup here (remove key rest) ≡ (if key == here then none else lookup here rest)
  unfolding lookup remove
  lookup-remove key here [] = ground arith
  lookup-remove key here ((there, held) ∷ rest) = ground (arith, lookup-remove key here rest)

  pub Above-mono : (lo hi : ℕ) (rest : Map V) → lo ≤ hi → Above hi rest → Above lo rest
  Above-mono lo hi [] h a = tt
  Above-mono lo hi ((key, value) ∷ rest) h a = (omega arith, a.1)

  pub insert-Above :
      (lo key : ℕ) (value : V) (rest : Map V)
      → lo < key
      → Above lo rest
      → Above lo (insert key value rest)
  unfolding insert
  insert-Above lo key value [] h a = (h, tt)
  insert-Above lo key value ((here, held) ∷ rest) h a =
      ground (arith, insert-Above here key value rest, Above-mono key here rest)

  pub insert-IsSorted :
      (key : ℕ) (value : V) (rest : Map V) → IsSorted rest → IsSorted (insert key value rest)
  unfolding insert
  insert-IsSorted key value [] s = tt
  insert-IsSorted key value ((here, held) ∷ rest) s =
      ground (arith, insert-Above here key value rest)

  pub remove-Above : (lo key : ℕ) (rest : Map V) → Above lo rest → Above lo (remove key rest)
  unfolding remove
  remove-Above lo key [] a = tt
  remove-Above lo key ((here, held) ∷ rest) a =
      ground (arith, remove-Above here key rest a.1, Above-mono lo here (remove key rest))

  Above-some : (lo : ℕ) (rest : Map V) → Above lo rest → IsSorted rest
  Above-some lo [] a = tt
  Above-some lo ((key, value) ∷ rest) a = a.1

  pub remove-IsSorted : (key : ℕ) (rest : Map V) → IsSorted rest → IsSorted (remove key rest)
  unfolding remove
  remove-IsSorted key [] s = tt
  remove-IsSorted key ((here, held) ∷ rest) s =
      ground (arith, remove-Above here key rest s, Above-some here (remove key rest))

  pub lookup-below : (key lo : ℕ) (rest : Map V) → key ≤ lo → Above lo rest → lookup key rest ≡ none
  unfolding lookup
  lookup-below key lo [] h a = refl
  lookup-below key lo ((here, held) ∷ rest) h a = ground (arith, lookup-below key here rest)
