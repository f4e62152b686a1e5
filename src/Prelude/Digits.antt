-- ===== src/Prelude/Digits.antt =====
-- Decimal digits, and texts that are split at a byte that is none.
use mathlib.Core.List.{append-nil, append_assoc}
use hydfs.Prelude.{
  ℕ, zero, suc, ◌+◌, ◌/◌, ◌%◌, ◌^◌, ◌<◌, Text, ◌≡◌, ◌≢◌, refl, ap, none, some, List, [], ◌∷◌, ◌++◌,
  true, false, length, take, All, arith,
}
use hydfs.Prelude.Decimal.{
  pos, show_nat, digits_upto, read_digits, is_digit, atoi, last_index, split_at,
}

abbrev pub IsDigit : ℕ → Type 0
IsDigit c = is_digit c ≡ true

All-append {ℓ κ} :
    {A : Type ℓ} (P : A → Type κ) (xs ys : List A) → All P xs → All P ys → All P (xs ++ ys)
All-append P [] ys hx hy = hy
All-append P (x ∷ xs) ys hx hy = (hx.0, All-append P xs ys hx.1 hy)

digits_upto-IsDigit : (f n : ℕ) → All IsDigit (digits_upto f n)
unfolding digits_upto
digits_upto-IsDigit zero n = tt
digits_upto-IsDigit (suc f) n = ground (
  arith,
  All-append IsDigit (digits_upto f (n / 10)) ((b'0' + n % 10) ∷ []),
  digits_upto-IsDigit f (n / 10),
)

pub show_nat-IsDigit : (n : ℕ) → All IsDigit (show_nat n)
unfolding show_nat
show_nat-IsDigit n = digits_upto-IsDigit (suc n) n

-- no digit is the byte that is looked for
pub last_index_of_digits :
    (c : ℕ) (s : Text) → is_digit c ≡ false → All IsDigit s → last_index c s ≡ none
unfolding last_index
last_index_of_digits c [] h d = refl
last_index_of_digits c (x ∷ xs) h d = ground (arith, last_index_of_digits c xs h d.1)

pub last_index-append :
    (c : ℕ) (s t : Text) → last_index c t ≡ none → last_index c (s ++ c ∷ t) ≡ some (length s)
unfolding last_index
last_index-append c [] t h = ground arith
last_index-append c (x ∷ xs) t h = rw (last_index-append c xs t h)

pub take-length-append : (s t : Text) → take (length s) (s ++ t) ≡ s
take-length-append [] t = refl
take-length-append (x ∷ xs) t = ap (◌∷◌ x) (take-length-append xs t)

pub split_at_of_digits : (part s : Text) → All IsDigit s → split_at b':' part s ≡ (part ++ s) ∷ []
unfolding split_at
split_at_of_digits part [] d = rw append-nil
split_at_of_digits part (x ∷ xs) d =
    ground (arith, split_at_of_digits (part ++ x ∷ []) xs d.1, append_assoc part (x ∷ []) xs)

-- a host holds no colon
abbrev pub IsHost : Text → Type 0
IsHost = All (λ c. c ≢ b':')

pub split_at-append :
    (part host t : Text)
    → IsHost host
    → split_at b':' part (host ++ b':' ∷ t) ≡ (part ++ host) ∷ split_at b':' [] t
unfolding split_at
split_at-append part [] t h = rw append-nil
split_at-append part (x ∷ xs) t h =
    ground (arith, split_at-append (part ++ x ∷ []) xs t h.1, append_assoc part (x ∷ []) xs)

pub atoi_of_digits :
    (s : Text) (n : ℕ)
    → s ≢ []
    → All IsDigit s
    → read_digits 0 s ≡ some n
    → n < 2 ^ 63
    → atoi s ≡ some (pos n)
unfolding atoi
atoi_of_digits [] n ne d r h = absurd (ne refl)
atoi_of_digits (x ∷ xs) n ne d r h = ground arith

append_ne {ℓ} : {A : Type ℓ} (xs : List A) (y : A) → xs ++ y ∷ [] ≢ []
append_ne [] y e = cc
append_ne (x ∷ xs) y e = cc

digits_upto-ne-nil : (f n : ℕ) → digits_upto (suc f) n ≢ []
unfolding digits_upto
digits_upto-ne-nil f n = ground (arith, append_ne (digits_upto f (n / 10)) (b'0' + n % 10))

pub show_nat-ne-nil : (n : ℕ) → show_nat n ≢ []
unfolding show_nat
show_nat-ne-nil n = digits_upto-ne-nil n n
