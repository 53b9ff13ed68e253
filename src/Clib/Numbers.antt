-- ===== src/Clib/Numbers.antt =====
-- What the C library reads from a number that "%d" has written.
use restaurante_so.Prelude.{
  ℕ, zero, suc, ◌+◌, ◌-◌, ◌*◌, ◌<◌, ◌^◌, ◌≡◌, ◌≢◌, false, true, sym, ==_ne, Option, none, some,
  List, [], ◌∷◌, ◌++◌, refl, ap, ◌∙◌, ltb, ◌==◌, All, arith, if-true, pos, negsuc, append-nil,
}
use restaurante_so.Logging.{decimal}
use restaurante_so.Logging.Digits.{
  IsDigit, value, value-decimal, All-decimal, head, Leads, Leads-decimal,
}
use restaurante_so.Clib.{
  digit, scan_digits, scan_number, scan_prefixed, scan_signed, signed, skip_spaces, is_space,
  strtol, to_int, to_long, scan_int, with_end, with_rest,
}

digit_lem : (c : ℕ) → IsDigit c → digit c ≡ c - b'0'
unfolding digit
digit_lem c d = ground arith

-- No digit follows.
abbrev pub Stops : List ℕ → Type 0
Stops rest = ltb (digit (head rest)) 10 ≡ false

scan_digits_lem :
    (ds : List ℕ) (acc : ℕ) (rest : List ℕ)
    → All IsDigit ds
    → Stops rest
    → scan_digits 10 acc (ds ++ rest) ≡ (value acc ds, rest)
unfolding scan_digits value digit
scan_digits_lem [] acc [] all stops = refl
scan_digits_lem [] acc (c ∷ s) all stops = rw stops refl
scan_digits_lem (c ∷ ds) acc rest (d, all) stops =
    ground (arith, scan_digits_lem ds (acc * 10 + (c - b'0')) rest, digit_lem c)

-- Digits are no spaces and no sign.
scan_number_lem :
    (n : ℕ) (ds rest : List ℕ)
    → Leads n ds
    → All IsDigit ds
    → Stops rest
    → scan_number 10 (ds ++ rest) ≡ some (value 0 ds, rest)
unfolding scan_number
scan_number_lem n [] rest lead all stops = absurd (omega (arith, lead.digit))
scan_number_lem n (c ∷ ds) rest lead all stops =
    let small : ltb (digit c) 10 ≡ true = ground (arith, digit_lem c lead.digit) in
    if-true none small ∙ ap some (scan_digits_lem (c ∷ ds) 0 rest all stops)

signed-false : (n : ℕ) (rest : List ℕ) → signed false (some (n, rest)) ≡ some (pos n, rest)
unfolding signed
signed-false zero rest = refl
signed-false (suc n) rest = refl

-- A text that begins with a digit has no spaces and no sign to be skipped.
signed_digits :
    (scan : List ℕ → Option (ℕ × List ℕ)) (text : List ℕ) (n : ℕ) (rest : List ℕ)
    → IsDigit (head text)
    → scan text ≡ some (n, rest)
    → scan_signed scan (skip_spaces text) ≡ some (pos n, rest)
unfolding scan_signed skip_spaces is_space
signed_digits scan [] n rest d e = absurd (omega (arith, d))
signed_digits scan (c ∷ s) n rest d e =
    let no_space : is_space c ≡ false = ground arith in
    let no_minus : (c == b'-') ≡ false = ground arith in
    let no_plus : (c == b'+') ≡ false = ground arith in
    rw (no_space, no_minus, no_plus, e) (signed-false n rest)

head-append : (n : ℕ) (ds rest : List ℕ) → Leads n ds → IsDigit (head (ds ++ rest))
head-append n [] rest lead = absurd (omega (arith, lead.digit))
head-append n (c ∷ ds) rest lead = lead.digit

pub to_int-pos : (n : ℕ) → n < 2 ^ 31 → to_int (pos n) ≡ pos n
unfolding to_int
to_int-pos n lt = ground arith

to_long-pos : (n : ℕ) → n < 2 ^ 63 → to_long (pos n) ≡ pos n
unfolding to_long
to_long-pos n lt = ground arith

-- A number in the range of `int` is read as far as its digits go.
pub scan_int-decimal :
    (n : ℕ) (rest : List ℕ)
    → n < 2 ^ 31
    → Stops rest
    → scan_int (decimal n ++ rest) ≡ (some (pos n), rest)
unfolding scan_int with_rest
scan_int-decimal n rest small stops =
    ap (with_rest (skip_spaces (decimal n ++ rest))) (
      signed_digits (scan_number 10) (decimal n ++ rest) n rest
        (head-append n (decimal n) rest (Leads-decimal n))
        (scan_number_lem n (decimal n) rest (Leads-decimal n) (All-decimal n) stops
          ∙ ap (λ v. some (v, rest)) (value-decimal n)))
    ∙ ap (λ v. (some (to_int v), rest)) (to_long-pos n (omega (arith, small)))
    ∙ ap (λ v. (some v, rest)) (to_int-pos n small)

scan_prefixed_lem :
    (n : ℕ) (ds : List ℕ)
    → n ≢ 0
    → Leads n ds
    → scan_number 10 ds ≡ some (n, [])
    → scan_prefixed ds ≡ some (n, [])
unfolding scan_prefixed
scan_prefixed_lem n [] e lead scanned = scanned
scan_prefixed_lem n (c ∷ []) e lead scanned = rw (==_ne (lead.plain e)) scanned
scan_prefixed_lem n (c ∷ d ∷ []) e lead scanned = rw (==_ne (lead.plain e)) scanned
scan_prefixed_lem n (c ∷ d ∷ f ∷ s) e lead scanned = rw (==_ne (lead.plain e)) scanned

scan_prefixed-decimal : (n : ℕ) → scan_prefixed (decimal n) ≡ some (n, [])
unfolding decimal scan_prefixed
scan_prefixed-decimal zero = refl
scan_prefixed-decimal (suc n) =
    scan_prefixed_lem (suc n) (decimal (suc n)) (λ e. absurd (omega (arith, e)))
      (Leads-decimal (suc n))
      (ap (scan_number 10) (sym (append-nil (decimal (suc n))))
        ∙ scan_number_lem (suc n) (decimal (suc n)) [] (Leads-decimal (suc n)) (All-decimal (suc n))
            refl
        ∙ ap (λ v. some (v, [])) (value-decimal (suc n)))

-- A number that `sprintf` wrote is the number that `strtol` reads, to the end of the text.
pub strtol-decimal : (n : ℕ) → n < 2 ^ 63 → strtol (decimal n) ≡ (pos n, [])
unfolding strtol with_end
strtol-decimal n small =
    ap (with_end (decimal n)) (
      signed_digits scan_prefixed (decimal n) n [] (Leads-decimal n).digit
        (scan_prefixed-decimal n))
    ∙ ap (λ v. (v, [])) (to_long-pos n small)

pub strtol-minus : (n : ℕ) → n < 2 ^ 63 → strtol (b'-' ∷ decimal (suc n)) ≡ (negsuc n, [])
unfolding strtol with_end scan_signed signed skip_spaces is_space to_long
strtol-minus n small =
    ap (λ r. with_end (b'-' ∷ decimal (suc n)) (signed true r)) (scan_prefixed-decimal (suc n))
    ∙ ap (λ v. (v, [])) (ground (arith, small))
