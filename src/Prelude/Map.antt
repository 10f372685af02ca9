-- ===== src/Prelude/Map.antt =====
-- A Go map as an association list: `m[k]`, `m[k] = v`, `delete(m, k)`.
use mathlib.Core.Path.{◌≡◌, refl, sym, ap, subst, ◌∙◌}
use mathlib.Core.Option.{Option, none, some}
use mathlib.Core.List.{List, [], ◌∷◌}
use native.Mathlib.Omega.{arith}
use cmd_chat.Prelude.Tests.{if◌then◌else◌, Bool-cases, is_some}
use cmd_chat.Prelude.Lists.{length}
use mathlib.Core.Bool.{false}
use mathlib.Core.Logic.{inl, inr}
use Prim.Native.Nat.{ℕ, suc, ◌+◌}
use cmd_chat.Prelude.Equality.{Eq, eq, nat_beq_iff, nat_eq}

apart {ℓ} : {K : Type ℓ} ⦃e : Eq K⦄ (k j : K) → eq j k ≡ false → eq k j ≡ false
apart ⦃e⦄ k j h = ground (arith, e.is_equal_iff k j, e.is_equal_iff j k)

no_more {ℓ} :
    {V : Type ℓ} {n : ℕ} (r : ℕ) (o : Option V)
    → o ≡ none
    → n ≡ (if is_some o then r + 1 else r)
    → suc n ≡ r + 1
no_more r none q h = omega (arith, h)
no_more r (some v) q h = absurd (cc q)

module _ {ℓ κ} {K : Type ℓ} {V : Type κ} ⦃e : Eq K⦄ where
  unfoldable pub lookup : K → List (K × V) → Option V
  lookup k [] = none
  lookup k ((j, v) ∷ m) = if eq j k then some v else lookup k m

  unfoldable pub insert : K → V → List (K × V) → List (K × V)
  insert k v [] = (k, v) ∷ []
  insert k v ((j, w) ∷ m) = if eq j k then (k, v) ∷ m else (j, w) ∷ insert k v m

  unfoldable pub delete : K → List (K × V) → List (K × V)
  delete k [] = []
  delete k ((j, w) ∷ m) = let rest = delete k m in if eq j k then rest else (j, w) ∷ rest

  pub lookup-insert :
      (k j : K) (v : V) (m : List (K × V))
      → lookup j (insert k v m) ≡ (if eq k j then some v else lookup j m)
  unfolding lookup insert
  lookup-insert k j v [] = refl
  lookup-insert k j v ((i, w) ∷ m) =
      ground
        (arith, e.is_equal_iff k j, e.is_equal_iff i k, e.is_equal_iff i j, lookup-insert k j v m)

  pub lookup-delete :
      (k j : K) (m : List (K × V)) → lookup j (delete k m) ≡ (if eq k j then none else lookup j m)
  unfolding lookup delete
  lookup-delete k j [] = ground arith
  lookup-delete k j ((i, w) ∷ m) =
      ground
        (arith, e.is_equal_iff k j, e.is_equal_iff i k, e.is_equal_iff i j, lookup-delete k j m)

  -- No key stands twice.
  abbrev pub IsMap : List (K × V) → Type κ
  IsMap [] = Unit
  IsMap ((j, w) ∷ m) = (lookup j m ≡ none) × IsMap m

  pub IsMap-insert : (k : K) (v : V) (m : List (K × V)) → IsMap m → IsMap (insert k v m)
  unfolding insert lookup
  IsMap-insert k v [] h = (refl, tt)
  IsMap-insert k v ((j, w) ∷ m) h = elim (Bool-cases (eq j k)) [
    | inl f ↦ rw f (rw (sym ((e.is_equal_iff j k).0 f)) h.0, h.1)
    | inr f ↦ rw f (lookup-insert k j v m ∙ rw (apart k j f) h.0, IsMap-insert k v m h.1)
  ]

  pub IsMap-delete : (k : K) (m : List (K × V)) → IsMap m → IsMap (delete k m)
  unfolding delete lookup
  IsMap-delete k [] h = tt
  IsMap-delete k ((j, w) ∷ m) h = elim (Bool-cases (eq j k)) [
    | inl f ↦ rw f (IsMap-delete k m h.1)
    | inr f ↦ rw f (lookup-delete k j m ∙ rw (apart k j f) h.0, IsMap-delete k m h.1)
  ]

  pub length-insert :
      (k : K) (v : V) (m : List (K × V))
      → length (insert k v m) ≡ (if is_some (lookup k m) then length m else length m + 1)
  unfolding insert lookup
  length-insert k v [] = refl
  length-insert k v ((j, w) ∷ m) = elim (Bool-cases (eq j k)) [
    | inl f ↦ rw f refl
    | inr f ↦ rw f (ground (arith, length-insert k v m))
  ]

  pub length-delete :
      (k : K) (m : List (K × V))
      → IsMap m
      → length m ≡ (if is_some (lookup k m) then length (delete k m) + 1 else length (delete k m))
  unfolding delete lookup
  length-delete k [] h = refl
  length-delete k ((j, w) ∷ m) h = elim (Bool-cases (eq j k)) [
    | inl f ↦ rw f (
        no_more (length (delete k m)) (lookup k m)
          (subst (λ i. lookup i m ≡ none) ((e.is_equal_iff j k).0 f) h.0) (length-delete k m h.1))
    | inr f ↦ rw f (ground (arith, length-delete k m h.1))
  ]

-- One map is the image of another, key by key.
module _ {ℓ κ} {V : Type ℓ} {W : Type κ} (f : Option V → Option W) where
  abbrev pub IsImage : List (ℕ × W) → List (ℕ × V) → Type κ
  IsImage a b = (j : ℕ) → lookup j a ≡ f (lookup j b)

  pub IsImage-insert :
      (k : ℕ) (w : W) (v : V) (a : List (ℕ × W)) (b : List (ℕ × V))
      → f (some v) ≡ some w
      → IsImage a b
      → IsImage (insert k w a) (insert k v b)
  IsImage-insert k w v a b h same j =
      rw (lookup-insert k j w a, lookup-insert k j v b)
        (elim (Bool-cases (eq k j)) [ inl e ↦ rw e (sym h) | inr e ↦ rw e (same j) ])

  pub IsImage-delete :
      (k : ℕ) (a : List (ℕ × W)) (b : List (ℕ × V))
      → f none ≡ none
      → IsImage a b
      → IsImage (delete k a) (delete k b)
  IsImage-delete k a b h same j =
      rw (lookup-delete k j a, lookup-delete k j b)
        (elim (Bool-cases (eq k j)) [ inl e ↦ rw e (sym h) | inr e ↦ rw e (same j) ])

  -- A value that the image does not tell from the one it replaces.
  pub IsImage-replace :
      (k : ℕ) (v : V) (a : List (ℕ × W)) (b : List (ℕ × V))
      → f (some v) ≡ f (lookup k b)
      → IsImage a b
      → IsImage a (insert k v b)
  IsImage-replace k v a b h same j = rw (lookup-insert k j v b) (elim (Bool-cases (eq k j)) [
    | inl e ↦ rw e (same j ∙ ap (λ (i : ℕ). f (lookup i b)) (sym ((nat_beq_iff k j).0 e)) ∙ sym h)
    | inr e ↦ rw e (same j)
  ])

  -- A key that the other map does not have is inserted and deleted again.
  pub IsImage-undo :
      (k : ℕ) (w : W) (a : List (ℕ × W)) (b : List (ℕ × V))
      → f none ≡ none
      → lookup k b ≡ none
      → IsImage a b
      → IsImage (delete k (insert k w a)) b
  IsImage-undo k w a b h missing same j =
      rw (lookup-delete k j (insert k w a), lookup-insert k j w a)
        (elim (Bool-cases (eq k j)) [
          | inl e ↦ rw e (
              sym (ap (λ (i : ℕ). f (lookup i b)) (sym ((nat_beq_iff k j).0 e)) ∙ ap f missing ∙ h))
          | inr e ↦ rw e (same j)
        ])
