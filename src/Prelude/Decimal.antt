-- ===== src/Prelude/Decimal.antt =====
-- Numbers as decimal text (`%d`, `strconv.Atoi`), and the string functions of the standard library
-- that the program calls.
use Prim.Native.Nat.{ℕ, zero, suc, ◌+◌, ◌-◌, ◌*◌, ◌/◌, ◌%◌, ◌^◌, ◌<◌}
use mathlib.Core.Path.{◌≡◌}
use mathlib.Core.Bool.{Bool, true, false, ◌&&◌}
use mathlib.Core.Option.{Option, none, some}
use mathlib.Core.List.{List, [], ◌∷◌, ◌++◌}
use native.Mathlib.Omega.{arith}
use hydfs.Prelude.Tests.{◌==◌, ltb, leb, if◌then◌else◌}
use hydfs.Prelude.Texts.{Text}

-- `negsuc n` is -(n + 1).
pub data ℤ : Type 0 where
  pos : ℕ → ℤ
  negsuc : ℕ → ℤ

infixl 65 ◌+ℤ◌
unfoldable pub ◌+ℤ◌ : ℤ → ℤ → ℤ
pos a +ℤ pos b = pos (a + b)
pos a +ℤ negsuc b = if ltb b a then pos (a - suc b) else negsuc (b - a)
negsuc a +ℤ pos b = if ltb a b then pos (b - suc a) else negsuc (a - b)
negsuc a +ℤ negsuc b = negsuc (suc (a + b))

-- The digits of `n`, on fuel: `suc n` rounds are enough.
unfoldable pub digits_upto : ℕ → ℕ → Text
digits_upto zero n = []
digits_upto (suc f) n =
    let front = digits_upto f (n / 10) in
    if ltb n 10 then (b'0' + n) ∷ [] else front ++ (b'0' + n % 10) ∷ []

-- `%d` of a natural number, and of an integer
unfoldable pub show_nat : ℕ → Text
unfolding digits_upto
show_nat n = digits_upto (suc n) n

unfoldable pub show_int : ℤ → Text
unfolding show_nat
show_int (pos n) = show_nat n
show_int (negsuc n) = b'-' ∷ show_nat (suc n)

abbrev pub is_digit : ℕ → Bool
is_digit c = leb b'0' c && leb c b'9'

-- The value of a run of digits after `acc`; another byte is an error.
unfoldable pub read_digits : ℕ → Text → Option ℕ
read_digits acc [] = some acc
read_digits acc (c ∷ cs) =
    let rest = read_digits (acc * 10 + (c - b'0')) cs in if is_digit c then rest else none

read_nonempty : Text → Option ℕ
read_nonempty [] = none
read_nonempty (c ∷ cs) = read_digits 0 (c ∷ cs)

positive : Option ℕ → Option ℤ
positive none = none
positive (some n) = if ltb n (2 ^ 63) then some (pos n) else none

negative : Option ℕ → Option ℤ
negative none = none
negative (some zero) = some (pos 0)
negative (some (suc n)) = if ltb n (2 ^ 63) then some (negsuc n) else none

-- `strconv.Atoi`: an optional sign, digits, and the range of a 64-bit integer
unfoldable pub atoi : Text → Option ℤ
unfolding read_nonempty positive negative
atoi [] = none
atoi (c ∷ cs) =
    if c == b'-'
    then negative (read_nonempty cs)
    else if c == b'+'
    then positive (read_nonempty cs)
    else positive (read_nonempty (c ∷ cs))

-- `strings.LastIndex(s, c)` of one byte; -1 is `none`
unfoldable pub last_index : ℕ → Text → Option ℕ
last_index c [] = none
last_index c (x ∷ xs) = elim (last_index c xs) [
  | some i ↦ some (suc i)
  | none ↦ if x == c then some 0 else none
]

-- `strings.Split(s, c)` at one byte: a separator ends a part, so there is always one part
unfoldable pub split_at : ℕ → Text → Text → List Text
split_at c part [] = part ∷ []
split_at c part (x ∷ xs) =
    let next = split_at c [] xs in
    let longer = split_at c (part ++ x ∷ []) xs in if x == c then part ∷ next else longer

-- `strings.ToLower` on ASCII
unfoldable pub to_lower : Text → Text
to_lower [] = []
to_lower (c ∷ cs) = (if leb b'A' c && leb c b'Z' then c + 32 else c) ∷ to_lower cs

-- `strings.HasPrefix(s, p)`
unfoldable pub has_prefix : Text → Text → Bool
has_prefix s [] = true
has_prefix [] (q ∷ p) = false
has_prefix (c ∷ s) (q ∷ p) = c == q && has_prefix s p

read_digits-append :
    (acc : ℕ) (s t : Text) (n : ℕ)
    → read_digits acc s ≡ some n
    → read_digits acc (s ++ t) ≡ read_digits n t
unfolding read_digits
read_digits-append acc [] t n h = ground arith
read_digits-append acc (c ∷ cs) t n h =
    ground (arith, read_digits-append (acc * 10 + (c - b'0')) cs t n)

digits_upto-value : (f n : ℕ) → n < f → read_digits 0 (digits_upto f n) ≡ some n
unfolding digits_upto read_digits
digits_upto-value zero n h = absurd (omega arith)
digits_upto-value (suc f) n h = ground (
  arith,
  digits_upto-value f (n / 10),
  read_digits-append 0 (digits_upto f (n / 10)) ((b'0' + n % 10) ∷ []) (n / 10),
)

-- what `%d` prints reads back as the number
pub read_digits-show_nat : (n : ℕ) → read_digits 0 (show_nat n) ≡ some n
unfolding show_nat
read_digits-show_nat n = digits_upto-value (suc n) n (omega arith)
