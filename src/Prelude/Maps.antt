-- ===== src/Prelude/Maps.antt =====
-- std::unordered_map as a list of entries. The order of iteration of the real container is not
-- specified; a statement about iteration holds for every list, so for every such order.
use Prim.Native.Nat.{ℕ, ◌+◌}
use mathlib.Core.Path.{◌≡◌, refl, subst}
use mathlib.Core.Logic.{inl, inr}
use mathlib.Core.Bool.{Bool}
use mathlib.Core.List.{List, [], ◌∷◌}
use mathlib.Core.Option.{Option, none, some}
use native.Mathlib.Omega.{arith}
use halo_keyboard.Prelude.Lists.{All}
use halo_keyboard.Prelude.Tests.{Bool-cases, Eq, if◌then◌else◌, one_if}

abbrev pub Map {ℓ κ} : Type ℓ → Type κ → Type (ℓ ⊔ κ)
Map K V = List (K × V)

module _ {ℓ κ} {K : Type ℓ} {V : Type κ} where
  -- How many entries hold a value that passes a test.
  abbrev pub count_values : (V → Bool) → Map K V → ℕ
  count_values p [] = 0
  count_values p ((k, v) ∷ m) = one_if (p v) + count_values p m

module _ {ℓ κ} {K : Type ℓ} {V : Type κ} ⦃e : Eq K⦄ where
  unfoldable pub find : K → Map K V → Option V
  find k [] = none
  find k ((j, v) ∷ m) = if e.beq j k then some v else find k m

  -- operator[] followed by an assignment
  unfoldable pub insert : K → V → Map K V → Map K V
  insert k v [] = (k, v) ∷ []
  insert k v ((j, w) ∷ m) = if e.beq j k then (j, v) ∷ m else (j, w) ∷ insert k v m

  unfoldable pub erase : K → Map K V → Map K V
  erase k [] = []
  erase k ((j, v) ∷ m) = if e.beq j k then m else (j, v) ∷ erase k m

  -- Each key stands once.
  abbrev pub Distinct : Map K V → Type κ
  Distinct [] = Unit
  Distinct ((k, v) ∷ m) = (find k m ≡ none) × Distinct m

  pub find-insert :
      (k j : K) (v : V) (m : Map K V)
      → find j (insert k v m) ≡ (if e.beq k j then some v else find j m)
  unfolding find insert
  find-insert k j v [] = refl
  find-insert k j v ((i, w) ∷ m) =
      ground (arith, find-insert k j v m, e.beq_iff i k, e.beq_iff i j, e.beq_iff k j)

  pub find-erase :
      (k j : K) (m : Map K V)
      → Distinct m
      → find j (erase k m) ≡ (if e.beq k j then none else find j m)
  unfolding find erase
  find-erase k j [] d = ground arith
  find-erase k j ((i, w) ∷ m) d =
      ground (arith, find-erase k j m d.1, e.beq_iff i k, e.beq_iff i j, e.beq_iff k j)

  pub insert-Distinct : (k : K) (v : V) (m : Map K V) → Distinct m → Distinct (insert k v m)
  unfolding find insert
  insert-Distinct k v [] d = (refl, tt)
  insert-Distinct k v ((j, w) ∷ m) d =
      ground (arith, insert-Distinct k v m d.1, find-insert k j v m, e.beq_iff j k, e.beq_iff k j)

  pub erase-Distinct : (k : K) (m : Map K V) → Distinct m → Distinct (erase k m)
  unfolding find erase
  erase-Distinct k [] d = tt
  erase-Distinct k ((j, w) ∷ m) d = ground (arith, erase-Distinct k m d.1, find-erase k j m d.1)

  pub count_values-insert_new :
      (p : V → Bool) (k : K) (v : V) (m : Map K V)
      → find k m ≡ none
      → count_values p (insert k v m) ≡ count_values p m + one_if (p v)
  unfolding find insert
  count_values-insert_new p k v [] h = ground arith
  count_values-insert_new p k v ((j, w) ∷ m) h = ground (arith, count_values-insert_new p k v m)

  pub count_values-insert_old :
      (p : V → Bool) (k : K) (v w : V) (m : Map K V)
      → find k m ≡ some w
      → count_values p (insert k v m) + one_if (p w) ≡ count_values p m + one_if (p v)
  unfolding find insert
  count_values-insert_old p k v w [] h = ground arith
  count_values-insert_old p k v w ((j, u) ∷ m) h = ground (arith, count_values-insert_old p k v w m)

  pub count_values-erase :
      (p : V → Bool) (k : K) (w : V) (m : Map K V)
      → find k m ≡ some w
      → count_values p (erase k m) + one_if (p w) ≡ count_values p m
  unfolding find erase
  count_values-erase p k w [] h = ground arith
  count_values-erase p k w ((j, u) ∷ m) h = ground (arith, count_values-erase p k w m)

  -- Each entry is found under its key.
  abbrev pub Holds : Map K V → Map K V → Type κ
  Holds m = All (λ entry. find entry.0 m ≡ some entry.1)

  cons-Holds :
      (k : K) (v : V) (m entries : Map K V)
      → find k entries ≡ none
      → Holds m entries
      → Holds ((k, v) ∷ m) entries
  unfolding find
  cons-Holds k v m [] n h = tt
  cons-Holds k v m ((j, w) ∷ entries) n h =
      ground (arith, n, h, e.beq_iff j k, e.beq_iff k j, cons-Holds k v m entries)

  pub Holds-self : (m : Map K V) → Distinct m → Holds m m
  unfolding find
  Holds-self [] d = tt
  Holds-self ((k, v) ∷ m) d =
      (ground (arith, e.beq_iff k k), cons-Holds k v m m d.0 (Holds-self m d.1))

-- A property of the values.
module _ {ℓ κ} {K : Type ℓ} {V : Type κ} where
  abbrev pub AllValues {μ} : (V → Type μ) → Map K V → Type μ
  AllValues P [] = Unit
  AllValues P ((k, v) ∷ m) = P v × AllValues P m

module _ {ℓ κ μ} {K : Type ℓ} {V : Type κ} ⦃e : Eq K⦄ (P : V → Type μ) where
  pub AllValues-find : (k : K) (v : V) (m : Map K V) → AllValues P m → find k m ≡ some v → P v
  unfolding find
  AllValues-find k v [] h f = absurd (cc f)
  AllValues-find k v ((j, w) ∷ m) h f = elim (Bool-cases (e.beq j k)) [
    | inl b ↦ (let q : w ≡ v = ground (arith, f, b) in subst P q h.0)
    | inr b ↦ AllValues-find k v m h.1 (ground (arith, f, b))
  ]

  pub AllValues-insert :
      (k : K) (v : V) (m : Map K V) → P v → AllValues P m → AllValues P (insert k v m)
  unfolding insert
  AllValues-insert k v [] p h = (p, tt)
  AllValues-insert k v ((j, w) ∷ m) p h = elim (Bool-cases (e.beq j k)) [
    | inl b ↦ rw (b, insert) (p, h.1)
    | inr b ↦ rw (b, insert) (h.0, AllValues-insert k v m p h.1)
  ]

  pub AllValues-erase : (k : K) (m : Map K V) → AllValues P m → AllValues P (erase k m)
  unfolding erase
  AllValues-erase k [] h = tt
  AllValues-erase k ((j, w) ∷ m) h = elim (Bool-cases (e.beq j k)) [
    | inl b ↦ rw (b, erase) h.1
    | inr b ↦ rw (b, erase) (h.0, AllValues-erase k m h.1)
  ]
