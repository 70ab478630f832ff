-- ===== src/Base/Dict.antt =====
-- `std::unordered_map` as an association list, in some iteration order. The names are those of the
-- C++ members; `assign` is `m[k] = v`, and also a write through an iterator that `find` gave.
use mathlib.Core.Path.{◌≡◌}
use mathlib.Core.Option.{Option, none, some}
use mathlib.Core.Bool.{Bool, true, false}
use mathlib.Core.List.{List, [], ◌∷◌}
use native.Mathlib.Omega.{arith}
use khawasu_pc.Base.Lists.{length}
use khawasu_pc.Base.Tests.{Eq, ◌==◌, if◌then◌else◌}

abbrev pub Dict {ℓ κ} : Type ℓ → Type κ → Type (ℓ ⊔ κ)
Dict K V = List (K × V)

-- Every entry satisfies the predicate.
abbrev pub All {ℓ κ ι} : {K : Type ℓ} {V : Type κ} → (K → V → Type ι) → Dict K V → Type ι
All P [] = Unit
All P ((k, v) ∷ d) = P k v × All P d

abbrev pub or_old {κ} : {V : Type κ} → Option V → V → V
or_old none v = v
or_old (some w) v = w

module _ {ℓ κ} {K : Type ℓ} {V : Type κ} ⦃e : Eq K⦄ where
  unfoldable pub find : K → Dict K V → Option V
  find k [] = none
  find k ((j, v) ∷ d) = if k == j then some v else find k d

  abbrev pub contains : K → Dict K V → Bool
  contains k d = elim (find k d) [ none ↦ false | some v ↦ true ]

  -- Nothing happens where the key is there already.
  unfoldable pub emplace : K → V → Dict K V → Dict K V
  emplace k v d = elim (find k d) [ none ↦ (k, v) ∷ d | some w ↦ d ]

  unfoldable pub assign : K → V → Dict K V → Dict K V
  assign k v [] = (k, v) ∷ []
  assign k v ((j, w) ∷ d) = if k == j then (k, v) ∷ d else (j, w) ∷ assign k v d

  -- Every entry of the key goes; a map has at most one.
  unfoldable pub erase : K → Dict K V → Dict K V
  erase k [] = []
  erase k ((j, w) ∷ d) = let rest = erase k d in if k == j then rest else (j, w) ∷ rest

  pub find-emplace :
      (j k : K) (v : V) (d : Dict K V)
      → find j (emplace k v d) ≡ (if j == k then some (or_old (find k d) v) else find j d)
  unfolding find emplace
  find-emplace j k v d = ground (arith, e.beq_iff j k, e.beq_iff k k)

  pub find-assign :
      (j k : K) (v : V) (d : Dict K V)
      → find j (assign k v d) ≡ (if j == k then some v else find j d)
  unfolding find assign
  find-assign j k v [] = ground arith
  find-assign j k v ((i, w) ∷ d) =
      ground (arith, find-assign j k v d, e.beq_iff j k, e.beq_iff j i, e.beq_iff k i)

  pub find-erase :
      (j k : K) (d : Dict K V) → find j (erase k d) ≡ (if j == k then none else find j d)
  unfolding find erase
  find-erase j k [] = ground arith
  find-erase j k ((i, w) ∷ d) =
      ground (arith, find-erase j k d, e.beq_iff j k, e.beq_iff j i, e.beq_iff k i)

module _ {ℓ κ ι} {K : Type ℓ} {V : Type κ} ⦃e : Eq K⦄ (P : K → V → Type ι) where
  pub All-find : (k : K) (v : V) (d : Dict K V) → All P d → find k d ≡ some v → P k v
  unfolding find
  All-find k v [] a h = cc
  All-find k v ((j, w) ∷ d) a h = ground (arith, All-find k v d a.1, e.beq_iff k j)

  pub All-emplace : (k : K) (v : V) (d : Dict K V) → P k v → All P d → All P (emplace k v d)
  unfolding emplace
  All-emplace k v d p a = ground arith

  pub All-assign : (k : K) (v : V) (d : Dict K V) → P k v → All P d → All P (assign k v d)
  unfolding assign
  All-assign k v [] p a = (p, tt)
  All-assign k v ((j, w) ∷ d) p a = ground (arith, All-assign k v d p a.1, e.beq_iff k j)

  pub All-erase : (k : K) (d : Dict K V) → All P d → All P (erase k d)
  unfolding erase
  All-erase k [] a = tt
  All-erase k ((j, w) ∷ d) a = ground (arith, All-erase k d a.1)

module _ {ℓ κ ι ι'} {K : Type ℓ} {V : Type κ} {P : K → V → Type ι} {Q : K → V → Type ι'} where
  pub All-map : ((k : K) (v : V) → P k v → Q k v) → (d : Dict K V) → All P d → All Q d
  All-map f [] a = tt
  All-map f ((k, v) ∷ d) a = (f k v a.0, All-map f d a.1)

module _ {ℓ κ} {K : Type ℓ} {V : Type κ} ⦃e : Eq K⦄ where
  -- No key stands twice.
  abbrev pub IsMap : Dict K V → Type κ
  IsMap [] = Unit
  IsMap ((k, v) ∷ d) = (find k d ≡ none) × IsMap d

  pub assign-IsMap : (k : K) (v : V) (d : Dict K V) → IsMap d → IsMap (assign k v d)
  unfolding assign find
  assign-IsMap k v [] m = ground arith
  assign-IsMap k v ((j, w) ∷ d) m =
      ground (arith, assign-IsMap k v d m.1, find-assign j k v d, e.beq_iff k j, e.beq_iff j k)

  pub emplace-IsMap : (k : K) (v : V) (d : Dict K V) → IsMap d → IsMap (emplace k v d)
  unfolding emplace
  emplace-IsMap k v d m = ground arith

  -- Each entry is the one that is found under its key.
  pub All-find_own : (d : Dict K V) → IsMap d → All (λ k v. find k d ≡ some v) d
  unfolding find
  All-find_own [] m = tt
  All-find_own ((k, v) ∷ d) m = (
    ground (arith, e.beq_iff k k),
    All-map (λ j w own. ground (arith, e.beq_iff j k)) d (All-find_own d m.1),
  )

  pub length-assign_known :
      (k : K) (v old : V) (d : Dict K V) → find k d ≡ some old → length (assign k v d) ≡ length d
  unfolding find assign
  length-assign_known k v old [] h = cc
  length-assign_known k v old ((j, w) ∷ d) h = ground (arith, length-assign_known k v old d)
