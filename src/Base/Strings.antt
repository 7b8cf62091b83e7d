-- ===== src/Base/Strings.antt =====
-- Texts as lists of UTF-16 code units, and the string operations and regular expressions that the
-- source applies to them.
use Prim.Native.Nat.{ℕ, suc, ◌+◌, ◌-◌}
use Prim.Native.Char.{code}
use Prim.Native.String.{String}
use mathlib.Core.Path.{◌≡◌}
use mathlib.Core.Logic.{◌↔◌}
use mathlib.Core.Bool.{Bool, true, false, ◌&&◌, ◌||◌}
use mathlib.Core.Option
use mathlib.Core.Option.{Option, none, some}
use mathlib.Core.List.{List, [], ◌∷◌, ◌++◌, map}
use native.Mathlib.Omega.{arith}
use coalition.Base.Tests.{leb, ◌==◌, if◌then◌else◌}
use coalition.Base.Lists.{length, replicate, all}

abbrev pub Text : Type 0
Text = List ℕ

-- A literal of the source; shut, so that proofs carry it as it is written.
unfoldable pub text : String → Text
text String.[] = []
text (String.◌∷◌ c s) = code c ∷ text s

-- `===` on strings
unfoldable pub text_eq : Text → Text → Bool
text_eq [] [] = true
text_eq [] (_ ∷ _) = false
text_eq (_ ∷ _) [] = false
text_eq (a ∷ s) (b ∷ t) = a == b && text_eq s t

pub text_eq_iff : (s t : Text) → (text_eq s t ≡ true) ↔ (s ≡ t)
unfolding text_eq
text_eq_iff [] [] = ground arith
text_eq_iff [] (_ ∷ _) = ground arith
text_eq_iff (_ ∷ _) [] = ground arith
text_eq_iff (a ∷ s) (b ∷ t) = ground (arith, text_eq_iff s t)

abbrev pub is_empty : Text → Bool
is_empty [] = true
is_empty (_ ∷ _) = false

-- `\d`
abbrev pub is_digit : ℕ → Bool
is_digit c = leb b'0' c && leb c b'9'

-- `[0-9a-fA-F]`
abbrev pub is_hex : ℕ → Bool
is_hex c = is_digit c || leb b'a' c && leb c b'f' || leb b'A' c && leb c b'F'

-- `/^\d+$/`
unfoldable pub uint_pattern : Text → Bool
uint_pattern [] = false
uint_pattern (c ∷ s) = all is_digit (c ∷ s)

-- `/^0x[0-9a-fA-F]{40}$/`
unfoldable pub address_pattern : Text → Bool
address_pattern (a ∷ b ∷ s) = a == b'0' && b == b'x' && length s == 40 && all is_hex s
address_pattern _ = false

-- `toLowerCase`, on the ASCII letters
abbrev pub lower_code : ℕ → ℕ
lower_code c = if leb b'A' c && leb c b'Z' then c + 32 else c

unfoldable pub to_lower_case : Text → Text
to_lower_case = map lower_code

-- `indexOf` of one code unit; `none` stands for -1
unfoldable pub index_of : ℕ → Text → Option ℕ
index_of c [] = none
index_of c (d ∷ s) = let rest = index_of c s in if d == c then some 0 else Option.map suc rest

-- `padStart(n, "0")` and `padEnd(n, "0")`
abbrev pub pad_start : ℕ → Text → Text
pad_start n s = replicate (n - length s) b'0' ++ s

abbrev pub pad_end : ℕ → Text → Text
pad_end n s = s ++ replicate (n - length s) b'0'

-- `replace(/0+$/, "")`
unfoldable pub strip_zeros : Text → Text
strip_zeros [] = []
strip_zeros (c ∷ s) = if is_empty (strip_zeros s) && c == b'0' then [] else c ∷ strip_zeros s

-- The white space that `trim` takes off.
abbrev pub is_space : ℕ → Bool
is_space c =
    leb 9 c && leb c 13
    || c == 32
    || c == 0xa0
    || c == 0x1680
    || leb 0x2000 c && leb c 0x200a
    || leb 0x2028 c && leb c 0x2029
    || c == 0x202f
    || c == 0x205f
    || c == 0x3000
    || c == 0xfeff

trim_start : Text → Text
trim_start [] = []
trim_start (c ∷ s) = let rest = trim_start s in if is_space c then rest else c ∷ s

trim_end : Text → Text
trim_end [] = []
trim_end (c ∷ s) = if is_empty (trim_end s) && is_space c then [] else c ∷ trim_end s

unfoldable pub trim : Text → Text
unfolding trim_start trim_end
trim s = trim_end (trim_start s)

-- `split` at one code unit, after the part that is being read
split_from : ℕ → Text → Text → List Text
split_from c part [] = part ∷ []
split_from c part (d ∷ s) =
    let closed = part ∷ split_from c [] s in
    let longer = split_from c (part ++ d ∷ []) s in if d == c then closed else longer

unfoldable pub split : ℕ → Text → List Text
unfolding split_from
split c s = split_from c [] s

abbrev pub is_prefix : Text → Text → Bool
is_prefix [] s = true
is_prefix (_ ∷ _) [] = false
is_prefix (c ∷ p) (d ∷ s) = c == d && is_prefix p s

-- `includes`
unfoldable pub includes : Text → Text → Bool
includes part [] = is_empty part
includes part (c ∷ s) = is_prefix part (c ∷ s) || includes part s

-- `Array.prototype.join`
unfoldable pub join : Text → List Text → Text
join separator [] = []
join separator (s ∷ []) = s
join separator (s ∷ t ∷ rest) = s ++ separator ++ join separator (t ∷ rest)
