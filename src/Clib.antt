-- ===== src/Clib.antt =====
-- What src/ uses of the C library to read numbers: `strtol` with base 0, and the conversions "%d" and
-- "%*[^\n]" of `fscanf`. A text is the list of its character codes, without the 0 that ends a string.
pub mod Numbers
use restaurante_so.Prelude.{
  ℕ, zero, suc, ◌+◌, ◌-◌, ◌*◌, ◌%◌, ◌^◌, Bool, true, false, ◌&&◌, ◌||◌, Option, none, some, List,
  [], ◌∷◌, ltb, leb, ◌==◌, if◌then◌else◌, ℤ, pos, negsuc,
}

-- `isspace`
unfoldable pub is_space : ℕ → Bool
is_space c = c == b' ' || (leb 9 c && leb c 13)

unfoldable pub skip_spaces : List ℕ → List ℕ
unfolding is_space
skip_spaces [] = []
skip_spaces (c ∷ s) = let rest = skip_spaces s in if is_space c then rest else c ∷ s

-- The value of a digit in any base up to 16; 99 for what is none.
unfoldable pub digit : ℕ → ℕ
digit c =
    if leb b'0' c && leb c b'9'
    then c - b'0'
    else if leb b'a' c && leb c b'f'
    then c - b'a' + 10
    else if leb b'A' c && leb c b'F'
    then c - b'A' + 10
    else 99

-- The digits of a base as far as they go, behind `acc`, and the rest.
unfoldable pub scan_digits : ℕ → ℕ → List ℕ → ℕ × List ℕ
unfolding digit
scan_digits base acc [] = (acc, [])
scan_digits base acc (c ∷ s) =
    let more = scan_digits base (acc * base + digit c) s in
    if ltb (digit c) base then more else (acc, c ∷ s)

-- Digits of a base, at least one.
unfoldable pub scan_number : ℕ → List ℕ → Option (ℕ × List ℕ)
unfolding scan_digits
scan_number base [] = none
scan_number base (c ∷ s) = if ltb (digit c) base then some (scan_digits base 0 (c ∷ s)) else none

-- Base 0: "0x" begins a hexadecimal number, "0" an octal one.
unfoldable pub scan_prefixed : List ℕ → Option (ℕ × List ℕ)
unfolding scan_number
scan_prefixed (c ∷ d ∷ e ∷ s) =
    if c == b'0'
    then if (d == b'x' || d == b'X') && ltb (digit e) 16
      then scan_number 16 (e ∷ s)
      else scan_number 8 (c ∷ d ∷ e ∷ s)
    else scan_number 10 (c ∷ d ∷ e ∷ s)
scan_prefixed (c ∷ s) = if c == b'0' then scan_number 8 (c ∷ s) else scan_number 10 (c ∷ s)
scan_prefixed [] = none

unfoldable pub signed : Bool → Option (ℕ × List ℕ) → Option (ℤ × List ℕ)
signed minus none = none
signed minus (some (zero, rest)) = some (pos 0, rest)
signed true (some (suc n, rest)) = some (negsuc n, rest)
signed false (some (suc n, rest)) = some (pos (suc n), rest)

-- A sign before a number.
unfoldable pub scan_signed : (List ℕ → Option (ℕ × List ℕ)) → List ℕ → Option (ℤ × List ℕ)
unfolding signed
scan_signed scan [] = none
scan_signed scan (c ∷ s) =
    if c == b'-' then signed true (scan s) else signed false (scan (if c == b'+' then s else c ∷ s))

-- The clamp to `long`, of 64 bits.
unfoldable pub to_long : ℤ → ℤ
to_long (pos n) = if ltb n (2 ^ 63) then pos n else pos (2 ^ 63 - 1)
to_long (negsuc n) = if ltb n (2 ^ 63) then negsuc n else negsuc (2 ^ 63 - 1)

unfoldable pub with_end : List ℕ → Option (ℤ × List ℕ) → ℤ × List ℕ
unfolding to_long
with_end text none = (pos 0, text)
with_end text (some (n, rest)) = (to_long n, rest)

-- `strtol (text, &tinp, 0)`: the number, and what `tinp` points to. Without a number that is the text
-- itself.
unfoldable pub strtol : List ℕ → ℤ × List ℕ
unfolding skip_spaces scan_prefixed scan_signed with_end
strtol text = with_end text (scan_signed scan_prefixed (skip_spaces text))

-- `(int) (unsigned int) n`, for an `int` of 32 bits
unfoldable pub to_int : ℤ → ℤ
to_int (pos n) =
    let bits = n % 2 ^ 32 in if ltb bits (2 ^ 31) then pos bits else negsuc (2 ^ 32 - 1 - bits)
to_int (negsuc n) =
    let bits = n % 2 ^ 32 in if ltb bits (2 ^ 31) then negsuc bits else pos (2 ^ 32 - 1 - bits)

-- What is left when no number follows: the spaces and a sign are gone.
unfoldable pub skip_sign : List ℕ → List ℕ
skip_sign [] = []
skip_sign (c ∷ s) = if c == b'-' || c == b'+' then s else c ∷ s

unfoldable pub with_rest : List ℕ → Option (ℤ × List ℕ) → Option ℤ × List ℕ
unfolding skip_sign to_int to_long
with_rest text none = (none, skip_sign text)
with_rest text (some (n, rest)) = (some (to_int (to_long n)), rest)

-- "%d": `none` is a matching failure, or the end of the file. For a number outside of `int`, where C
-- leaves it undefined, this is what glibc stores: the clamp to `long`, cut to 32 bits.
unfoldable pub scan_int : List ℕ → Option ℤ × List ℕ
unfolding skip_spaces scan_number scan_signed with_rest
scan_int text = with_rest (skip_spaces text) (scan_signed (scan_number 10) (skip_spaces text))

-- "%*[^\n]": up to the end of the line, which stays.
unfoldable pub skip_line : List ℕ → List ℕ
skip_line [] = []
skip_line (c ∷ s) = let rest = skip_line s in if c == b'\n' then c ∷ s else rest
