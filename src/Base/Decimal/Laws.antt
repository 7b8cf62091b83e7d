-- ===== src/Base/Decimal/Laws.antt =====
-- Printing and reading decimal numerals.
use Prim.Native.Nat.pow
use mathlib.Core.Path.{ap₂}
use native.Mathlib.Nat.{pow-suc}
use coalition.Base.{
  ℕ, zero, suc, ◌+◌, ◌-◌, ◌*◌, ◌/◌, ◌%◌, ◌^◌, ◌≤◌, ◌<◌, ◌≡◌, refl, sym, ap, ◌∙◌, inl, inr, true,
  false, ◌&&◌, none, some, [], ◌∷◌, ◌++◌, arith, Text, ltb, ◌==◌, length, length-append,
  length-replicate, replicate, all, all-append, is_digit, is_empty, uint_pattern, index_of,
  strip_zeros, pad_start, pad_end, Bool-cases, &&_true, ==_iff,
}
use coalition.Base.Decimal.{value_from, big_int, print_from, to_string}

pub value_from-append : (n : ℕ) (s t : Text) → value_from n (s ++ t) ≡ value_from (value_from n s) t
unfolding value_from
value_from-append n [] t = refl
value_from-append n (c ∷ s) t = value_from-append (n * 10 + (c - b'0')) s t

-- The digits shift what stands in front of them.
pub value_from_shift : (n : ℕ) (s : Text) → value_from n s ≡ n * 10 ^ length s + value_from 0 s
unfolding value_from
value_from_shift n [] = omega arith
value_from_shift n (c ∷ s) =
    rw (value_from_shift (n * 10 + (c - b'0')) s, value_from_shift (0 * 10 + (c - b'0')) s)
      (omega (arith, ap (λ (t : ℕ). n * t) (pow-suc 10 (length s))))

pub value_from_zeros : (n k : ℕ) → value_from n (replicate k b'0') ≡ n * 10 ^ k
unfolding value_from
value_from_zeros n zero = omega arith
value_from_zeros n (suc k) =
    rw (value_from_zeros (n * 10 + (b'0' - b'0')) k)
      (omega (arith, ap (λ (t : ℕ). n * t) (pow-suc 10 k)))

pub pow_add : (b m n : ℕ) → b ^ (m + n) ≡ b ^ m * b ^ n
pow_add b zero n = omega (
  arith,
  ap (λ (k : ℕ). k * b ^ n) (pow.zero b),
  ap (λ (k : ℕ). b ^ k) (let e : zero + n ≡ n = omega arith in e),
)
pow_add b (suc m) n =
    let e : suc m + n ≡ suc (m + n) = omega arith in
    rw (e, pow-suc b (m + n), pow_add b m n, pow-suc b m) (omega arith)

-- An integer part and a fraction that is padded with zeros to `d` digits.
pub value_from-pad_end :
    (s t : Text) (d : ℕ)
    → length t ≤ d
    → value_from 0 (s ++ pad_end d t)
      ≡ value_from 0 s * 10 ^ d + value_from 0 t * 10 ^ (d - length t)
value_from-pad_end s t d h =
    let zeros : Text = replicate (d - length t) b'0' in
    let e : d ≡ length t + (d - length t) = omega arith in
    let scale : 10 ^ d ≡ 10 ^ length t * 10 ^ (d - length t) =
      ap (λ (k : ℕ). 10 ^ k) e ∙ pow_add 10 (length t) (d - length t) in
    value_from-append 0 s (t ++ zeros)
    ∙ value_from-append (value_from 0 s) t zeros
    ∙ value_from_zeros (value_from (value_from 0 s) t) (d - length t)
    ∙ ap (λ (k : ℕ). k * 10 ^ (d - length t)) (value_from_shift (value_from 0 s) t)
    ∙ omega (arith, ap (λ (k : ℕ). value_from 0 s * k) scale)

value_from-print_from :
    (fuel n : ℕ) (out : Text) → n < fuel → value_from 0 (print_from fuel n out) ≡ value_from n out
unfolding value_from print_from
value_from-print_from zero n out h = elim h [ ]
value_from-print_from (suc fuel) n out h = elim (Bool-cases (ltb n 10)) [
  | inl small ↦ rw small (ap (λ (k : ℕ). value_from k out) (omega arith))
  | inr large ↦ rw large (
      value_from-print_from fuel (n / 10) ((b'0' + n % 10) ∷ out) (ground arith)
      ∙ ap (λ (k : ℕ). value_from k out) (omega arith))
]

-- Reading a printed number gives it back.
pub big_int-to_string : (n : ℕ) → big_int (to_string n) ≡ n
unfolding big_int to_string
big_int-to_string n = value_from-print_from (suc n) n [] (omega arith)

print_from_digits :
    (fuel n : ℕ) (out : Text)
    → n < fuel
    → all is_digit out ≡ true
    → uint_pattern (print_from fuel n out) ≡ true
unfolding print_from uint_pattern
print_from_digits zero n out h d = elim h [ ]
print_from_digits (suc fuel) n out h d = elim (Bool-cases (ltb n 10)) [
  | inl small ↦ rw small (ground arith)
  | inr large ↦
      rw large
        (print_from_digits fuel (n / 10) ((b'0' + n % 10) ∷ out) (ground arith) (ground arith))
]

-- A printed number is a non-empty row of digits.
pub uint_pattern-to_string : (n : ℕ) → uint_pattern (to_string n) ≡ true
unfolding to_string
uint_pattern-to_string n = print_from_digits (suc n) n [] (omega arith) refl

length-print_from :
    (fuel n d : ℕ) (out : Text)
    → n < fuel
    → n < 10 ^ suc d
    → length (print_from fuel n out) ≤ suc d + length out
unfolding print_from
length-print_from zero n d out h b = elim h [ ]
length-print_from (suc fuel) n zero out h b = ground arith
length-print_from (suc fuel) n (suc d) out h b = elim (Bool-cases (ltb n 10)) [
  | inl small ↦ rw small (omega arith)
  | inr large ↦ rw large (
      omega (
        arith,
        length-print_from fuel (n / 10) d ((b'0' + n % 10) ∷ out) (ground arith)
            (omega (arith, pow-suc 10 (suc d))),
      ))
]

-- A number below 10 ^ d has at most d digits.
pub length-to_string : (n d : ℕ) → n < 10 ^ suc d → length (to_string n) ≤ suc d
unfolding to_string
length-to_string n d b = omega (arith, length-print_from (suc n) n d [] (omega arith) b)

pub length-pad_start : (n : ℕ) (s : Text) → length s ≤ n → length (pad_start n s) ≡ n
length-pad_start n s h = omega (
  arith,
  length-append (replicate (n - length s) b'0') s,
  length-replicate {A = ℕ} (n - length s) b'0',
)

pub value_from-pad_start : (n : ℕ) (s : Text) → value_from 0 (pad_start n s) ≡ value_from 0 s
value_from-pad_start n s =
    value_from-append 0 (replicate (n - length s) b'0') s
    ∙ ap (λ (k : ℕ). value_from k s) (value_from_zeros 0 (n - length s) ∙ omega arith)

all-replicate_zero : (k : ℕ) → all is_digit (replicate k b'0') ≡ true
all-replicate_zero zero = refl
all-replicate_zero (suc k) = all-replicate_zero k

pub all-pad_start : (n : ℕ) (s : Text) → all is_digit s ≡ true → all is_digit (pad_start n s) ≡ true
all-pad_start n s h =
    rw (all-append is_digit (replicate (n - length s) b'0') s, all-replicate_zero) h

-- A text of digits holds no other code unit.
pub index_of-digits :
    (c : ℕ) (s : Text) → is_digit c ≡ false → all is_digit s ≡ true → index_of c s ≡ none
unfolding index_of
index_of-digits c [] n h = refl
index_of-digits c (d ∷ s) n h = ground (arith, index_of-digits c s n)

pub index_of_after_digits :
    (c : ℕ) (s t : Text)
    → is_digit c ≡ false
    → all is_digit s ≡ true
    → index_of c (s ++ c ∷ t) ≡ some (length s)
unfolding index_of
index_of_after_digits c [] t n h = ground arith
index_of_after_digits c (d ∷ s) t n h = ground (arith, index_of_after_digits c s t n)

pub empty_of_is_empty : (s : Text) → is_empty s ≡ true → s ≡ []
empty_of_is_empty [] h = refl
empty_of_is_empty (_ ∷ _) h = cc

strip_zeros_rest : (s : Text) → (k : ℕ) × (strip_zeros s ++ replicate k b'0' ≡ s)
unfolding strip_zeros
strip_zeros_rest [] = (0, refl)
strip_zeros_rest (c ∷ s) =
    let (k, e) = strip_zeros_rest s in
    elim (Bool-cases (is_empty (strip_zeros s) && c == b'0')) [
      | inl cut ↦
          let (nil, zero_digit) = &&_true (is_empty (strip_zeros s)) (c == b'0') cut in
          let stripped = empty_of_is_empty (strip_zeros s) nil in
          (
            suc k,
            rw cut (
                ap₂ (λ (x : ℕ) (xs : Text). x ∷ xs) (sym ((==_iff c b'0').0 zero_digit))
                  (rw stripped at e)),
          )
      | inr kept ↦ (k, rw kept (ap (λ (xs : Text). c ∷ xs) e))
    ]

-- What `strip_zeros` took off comes back by padding to the old length.
pub pad_end-strip_zeros : (s : Text) → pad_end (length s) (strip_zeros s) ≡ s
pad_end-strip_zeros s =
    let (k, e) = strip_zeros_rest s in
    let size : length (strip_zeros s) + k ≡ length s = omega (
      arith,
      length-append (strip_zeros s) (replicate k b'0'),
      length-replicate {A = ℕ} k b'0',
      ap (length {A = ℕ}) e,
    ) in
    ap (λ (n : ℕ). strip_zeros s ++ replicate n b'0') (omega arith) ∙ e

pub length-strip_zeros : (s : Text) → length (strip_zeros s) ≤ length s
length-strip_zeros s =
    let (k, e) = strip_zeros_rest s in
    omega (arith, length-append (strip_zeros s) (replicate k b'0'), ap (length {A = ℕ}) e)

pub all-strip_zeros : (s : Text) → all is_digit s ≡ true → all is_digit (strip_zeros s) ≡ true
unfolding strip_zeros
all-strip_zeros [] h = refl
all-strip_zeros (c ∷ s) h = ground (arith, all-strip_zeros s)
