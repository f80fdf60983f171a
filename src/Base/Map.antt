-- ===== src/Base/Map.antt =====
-- `HashMap`: an association list, whose order stands for the table's own, which the program cannot
-- rely on. A key is compared by an instance.
use Prim.Native.Nat.{ℕ}
use mathlib.Core.Path.{◌≡◌, refl, sym, subst, ◌∙◌}
use mathlib.Core.Logic.{◌↔◌, ◌⊎◌, inl, inr}
use mathlib.Core.Bool.{Bool, true, false, ◌&&◌}
use mathlib.Core.Option.{Option, none, some}
use mathlib.Core.List.{List, [], ◌∷◌}
use native.Mathlib.Omega.{arith}
use rdmalib.Base.Tests.{◌==◌ as nat_eq, ==_iff, if◌then◌else◌, Bool-cases}

pub record Eq (K : Type 0) : Type 0 where
  pub beq : K → K → Bool
  pub beq_iff : (a b : K) → (beq a b ≡ true) ↔ (a ≡ b)

instance abbrev pub nat_key : Eq ℕ
nat_key = record { beq = nat_eq; beq_iff = ==_iff }

module _ {A B : Type 0} ⦃a : Eq A⦄ ⦃b : Eq B⦄ where
  abbrev pub pair_beq : A × B → A × B → Bool
  pair_beq (x, y) (x', y') = a.beq x x' && b.beq y y'

  pub pair_beq_iff : (p q : A × B) → (pair_beq p q ≡ true) ↔ (p ≡ q)
  pair_beq_iff (x, y) (x', y') = ground (arith, a.beq_iff x x', b.beq_iff y y')

  instance abbrev pub pair_key : Eq (A × B)
  pair_key = record { beq = pair_beq; beq_iff = pair_beq_iff }

module _ {A : Type 0} ⦃e : Eq A⦄ where
  abbrev pub list_beq : List A → List A → Bool
  list_beq [] [] = true
  list_beq (x ∷ xs) (y ∷ ys) = e.beq x y && list_beq xs ys
  list_beq _ _ = false

  pub list_beq_iff : (xs ys : List A) → (list_beq xs ys ≡ true) ↔ (xs ≡ ys)
  list_beq_iff [] [] = (λ _. refl, λ _. refl)
  list_beq_iff [] (y ∷ ys) = (λ h. cc, λ h. cc)
  list_beq_iff (x ∷ xs) [] = (λ h. cc, λ h. cc)
  list_beq_iff (x ∷ xs) (y ∷ ys) = ground (arith, e.beq_iff x y, list_beq_iff xs ys)

  instance abbrev pub list_key : Eq (List A)
  list_key = record { beq = list_beq; beq_iff = list_beq_iff }

abbrev pub Map : Type 0 → Type 0 → Type 0
Map K V = List (K × V)

pub beq_refl : {K : Type 0} ⦃e : Eq K⦄ (k : K) → e.beq k k ≡ true
beq_refl ⦃e⦄ k = (e.beq_iff k k).1 refl

module _ {K V : Type 0} ⦃e : Eq K⦄ where
  unfoldable pub get : K → Map K V → Option V
  get k [] = none
  get k ((j, v) ∷ m) = if e.beq j k then some v else get k m

  unfoldable pub insert : K → V → Map K V → Map K V
  insert k v [] = (k, v) ∷ []
  insert k v ((j, w) ∷ m) = if e.beq j k then (k, v) ∷ m else (j, w) ∷ insert k v m

  pub get-insert :
      (k j : K) (v : V) (m : Map K V)
      → get j (insert k v m) ≡ (if e.beq k j then some v else get j m)
  unfolding get insert
  get-insert k j v [] = refl
  get-insert k j v ((i, w) ∷ m) =
      ground (arith, e.beq_iff i k, e.beq_iff i j, e.beq_iff k j, get-insert k j v m)

  pub get-insert_self : (k : K) (v : V) (m : Map K V) → get k (insert k v m) ≡ some v
  get-insert_self k v m = rw (get-insert, beq_refl)

  pub get-insert_ne : (k j : K) (v : V) (m : Map K V) → ¬ (k ≡ j) → get j (insert k v m) ≡ get j m
  get-insert_ne k j v m h = ground (arith, get-insert k j v m, e.beq_iff k j)

module _ {K V : Type 0} where
  -- No key stands twice.
  abbrev pub Absent : K → Map K V → Type 0
  Absent k [] = Unit
  Absent k ((j, v) ∷ m) = (¬ (j ≡ k)) × Absent k m

  abbrev pub Distinct : Map K V → Type 0
  Distinct [] = Unit
  Distinct ((k, v) ∷ m) = Absent k m × Distinct m

module _ {K V : Type 0} ⦃e : Eq K⦄ where
  Absent-insert : (j k : K) (v : V) (m : Map K V) → ¬ (k ≡ j) → Absent j m → Absent j (insert k v m)
  unfolding insert
  Absent-insert j k v [] h a = (h, tt)
  Absent-insert j k v ((i, w) ∷ m) h a = elim (Bool-cases (e.beq i k)) [
    | inl same ↦ rw (same, insert) (h, a.1)
    | inr other ↦ rw (other, insert) (a.0, Absent-insert j k v m h a.1)
  ]

  pub insert-Distinct : (k : K) (v : V) (m : Map K V) → Distinct m → Distinct (insert k v m)
  unfolding insert
  insert-Distinct k v [] d = (tt, tt)
  insert-Distinct k v ((i, w) ∷ m) d = elim (Bool-cases (e.beq i k)) [
    | inl same ↦ rw (same, insert) (subst (λ t. Absent t m) ((e.beq_iff i k).0 same) d.0, d.1)
    | inr other ↦
        rw (other, insert)
          (
            Absent-insert i k v m (λ q. cc (sym other ∙ (e.beq_iff i k).1 (sym q))) d.0,
            insert-Distinct k v m d.1,
          )
  ]

-- To split on whether two keys are the same.
pub key-cases : {K : Type 0} ⦃e : Eq K⦄ (j k : K) → (j ≡ k) ⊎ (¬ (j ≡ k))
key-cases ⦃e⦄ j k = elim (Bool-cases (e.beq j k)) [
  | inl same ↦ inl ((e.beq_iff j k).0 same)
  | inr other ↦ inr (λ q. cc (sym other ∙ (e.beq_iff j k).1 q))
]

-- What a look-up after an insertion finds.
pub get-insert_cases :
    {K V : Type 0} ⦃e : Eq K⦄ (k j : K) (v : V) (m : Map K V) {w : V}
    → get j (insert k v m) ≡ some w
    → ((k ≡ j) × (v ≡ w)) ⊎ ((¬ (k ≡ j)) × (get j m ≡ some w))
get-insert_cases {V = V} k j v m {w = w} found = elim (key-cases k j) [
  | inl same ↦
      let this : ◌≡◌ {A = Option V} (some v) (some w) =
        sym (get-insert_self k v m)
        ∙ subst (λ i. get i (insert k v m) ≡ get j (insert k v m)) (sym same) refl
        ∙ found in
      inl (same, cc)
  | inr apart ↦ inr (apart, sym (get-insert_ne k j v m apart) ∙ found)
]
