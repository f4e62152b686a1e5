-- ===== src/Prelude/Texts.antt =====
-- Go strings and byte slices: the list of their bytes.
use Prim.Native.Nat.{ℕ}
use Prim.Native.Char.{code}
use Prim.Native.String.{String}
use mathlib.Core.Path.{◌≡◌, refl}
use mathlib.Core.Logic.{◌≢◌, ◌↔◌}
use mathlib.Core.Bool.{Bool, true, false, ◌&&◌}
use mathlib.Core.List.{List, [], ◌∷◌}
use native.Mathlib.Omega.{arith}
use hydfs.Prelude.Tests.{◌==◌, ltb, if◌then◌else◌}

abbrev pub Text : Type 0
Text = List ℕ

-- The bytes of an ASCII literal.
abbrev pub codes : String → Text
codes String.[] = []
codes (String.◌∷◌ c s) = code c ∷ codes s

-- `a == b`
unfoldable pub text_eq : Text → Text → Bool
text_eq [] [] = true
text_eq [] (y ∷ ys) = false
text_eq (x ∷ xs) [] = false
text_eq (x ∷ xs) (y ∷ ys) = x == y && text_eq xs ys

pub text_eq_iff : (a b : Text) → (text_eq a b ≡ true) ↔ (a ≡ b)
unfolding text_eq
text_eq_iff [] [] = ground arith
text_eq_iff [] (y ∷ ys) = ground arith
text_eq_iff (x ∷ xs) [] = ground arith
text_eq_iff (x ∷ xs) (y ∷ ys) = ground (arith, text_eq_iff xs ys)

pub text_eq_refl : (a : Text) → text_eq a a ≡ true
text_eq_refl a = (text_eq_iff a a).1 refl

pub text_eq_sym : (a b : Text) → text_eq a b ≡ text_eq b a
text_eq_sym a b = ground (arith, text_eq_iff a b, text_eq_iff b a)

pub text_eq_ne : (a b : Text) → a ≢ b → text_eq a b ≡ false
text_eq_ne a b h = ground (arith, text_eq_iff a b)

-- `a > b`: Go compares strings byte by byte, and a proper prefix is smaller.
unfoldable pub text_gt : Text → Text → Bool
text_gt [] b = false
text_gt (x ∷ xs) [] = true
text_gt (x ∷ xs) (y ∷ ys) = if ltb y x then true else x == y && text_gt xs ys

pub text_gt_irrefl : (a : Text) → text_gt a a ≡ false
unfolding text_gt
text_gt_irrefl [] = refl
text_gt_irrefl (x ∷ xs) = ground (arith, text_gt_irrefl xs)

pub text_gt_trans : (a b c : Text) → text_gt a b ≡ true → text_gt b c ≡ true → text_gt a c ≡ true
unfolding text_gt
text_gt_trans [] b c p q = ground arith
text_gt_trans (x ∷ xs) [] c p q = ground arith
text_gt_trans (x ∷ xs) (y ∷ ys) [] p q = refl
text_gt_trans (x ∷ xs) (y ∷ ys) (z ∷ zs) p q = ground (arith, text_gt_trans xs ys zs)

-- of two different strings one is greater
pub text_gt_total : (a b : Text) → text_gt a b ≡ false → text_gt b a ≡ false → a ≡ b
unfolding text_gt
text_gt_total [] [] p q = refl
text_gt_total [] (y ∷ ys) p q = ground arith
text_gt_total (x ∷ xs) [] p q = ground arith
text_gt_total (x ∷ xs) (y ∷ ys) p q = ground (arith, text_gt_total xs ys)
