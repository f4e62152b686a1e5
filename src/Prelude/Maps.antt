-- ===== src/Prelude/Maps.antt =====
-- Go maps with string keys, as association lists that hold a key at most once when they are built
-- by these operations. A new key goes to the end; the order matters only where a `range` reads it.
use mathlib.Core.Path.{◌≡◌, refl, sym, subst, ◌∙◌}
use mathlib.Core.List.{List, [], ◌∷◌, map}
use mathlib.Core.Option.{Option, none, some}
use mathlib.Core.Logic.{inl, inr}
use mathlib.Core.Bool.{true, false}
use native.Mathlib.Omega.{arith}
use hydfs.Prelude.Tests.{if◌then◌else◌, Bool-cases}
use hydfs.Prelude.Texts.{Text, text_eq, text_eq_iff}

abbrev pub Dict {ℓ} : Type ℓ → Type ℓ
Dict V = List (Text × V)

module _ {ℓ} {V : Type ℓ} where
  -- `m[k]`, with the second result of `v, ok := m[k]`
  unfoldable pub lookup : Text → Dict V → Option V
  lookup k [] = none
  lookup k ((j, v) ∷ m) = if text_eq j k then some v else lookup k m

  -- `m[k] = v`
  unfoldable pub insert : Text → V → Dict V → Dict V
  insert k v [] = (k, v) ∷ []
  insert k v ((j, w) ∷ m) = if text_eq j k then (j, v) ∷ m else (j, w) ∷ insert k v m

  -- `delete(m, k)`
  unfoldable pub remove : Text → Dict V → Dict V
  remove k [] = []
  remove k ((j, w) ∷ m) = let rest = remove k m in if text_eq j k then rest else (j, w) ∷ rest

  abbrev pub keys : Dict V → List Text
  keys = map (λ e. e.0)

  pub lookup-insert :
      (k j : Text) (v : V) (m : Dict V)
      → lookup j (insert k v m) ≡ (if text_eq k j then some v else lookup j m)
  unfolding lookup insert
  lookup-insert k j v [] = refl
  lookup-insert k j v ((i, w) ∷ m) =
      ground (arith, text_eq_iff k j, text_eq_iff i k, text_eq_iff i j, lookup-insert k j v m)

  pub lookup-remove :
      (k j : Text) (m : Dict V) → lookup j (remove k m) ≡ (if text_eq k j then none else lookup j m)
  unfolding lookup remove
  lookup-remove k j [] = ground arith
  lookup-remove k j ((i, w) ∷ m) =
      ground (arith, text_eq_iff k j, text_eq_iff i k, text_eq_iff i j, lookup-remove k j m)

-- a predicate of every value under its key
abbrev pub AllValues {ℓ} : {V : Type ℓ} → (Text → V → Type 0) → Dict V → Type ℓ
AllValues {V} P m = (k : Text) (v : V) → lookup k m ≡ some v → P k v

module _ {ℓ} {V : Type ℓ} (P : Text → V → Type 0) where
  pub AllValues-insert :
      (t : Text) (w : V) (m : Dict V) → AllValues P m → P t w → AllValues P (insert t w m)
  AllValues-insert t w m h p k v e = elim (Bool-cases (text_eq t k)) [
    | inl s ↦ at ((text_eq_iff t k).0 s) (found s (sym (lookup-insert t k w m) ∙ e))
    | inr s ↦ h k v (other s (sym (lookup-insert t k w m) ∙ e))
  ]
    where
      found : text_eq t k ≡ true → (if text_eq t k then some w else lookup k m) ≡ some v → w ≡ v
      found s q = cc

      other :
          text_eq t k ≡ false
          → (if text_eq t k then some w else lookup k m) ≡ some v
          → lookup k m ≡ some v
      other s q = cc

      at : t ≡ k → w ≡ v → P k v
      at q r = subst (λ y. P k y) r (subst (λ y. P y w) q p)

  pub AllValues-remove : (t : Text) (m : Dict V) → AllValues P m → AllValues P (remove t m)
  AllValues-remove t m h k v e = h k v (other (sym (lookup-remove t k m) ∙ e))
    where
      other : (if text_eq t k then none else lookup k m) ≡ some v → lookup k m ≡ some v
      other q = elim (Bool-cases (text_eq t k)) [ inl s ↦ cc | inr s ↦ cc ]
