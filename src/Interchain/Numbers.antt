-- ===== src/Interchain/Numbers.antt =====
-- How interchaintest/gov_test.go and interchaintest/helpers/gov.go read and write the id of a
-- proposal: `strconv.ParseUint(s, 10, 64)` and `strconv.Itoa(int(n))`.
use Prim.Native.Char.{Char, code}
use Prim.Native.Nat.{◌/◌}
use Prim.Native.String.{char_at}
use echofi.Prelude.{
  ℕ, zero, suc, ◌+◌, ◌-◌, ◌*◌, ◌%◌, ◌^◌, ◌<◌, ◌≡◌, refl, ◌∙◌, ◌&&◌, String, Option, none, some,
  if◌then◌else◌, ltb, leb, arith, true, false, inl, inr, Bool-cases, Bool,
}
use echofi.Startup.{Int64, pos, negsuc}

-- The digits of the standard library.
pub digit : ℕ → Char
digit d = char_at "0123456789" d

code-digit : (d : ℕ) → d < 10 → code (digit d) ≡ 48 + d
unfolding digit
code-digit zero small = refl
code-digit (suc zero) small = refl
code-digit (suc (suc zero)) small = refl
code-digit (suc (suc (suc zero))) small = refl
code-digit (suc (suc (suc (suc zero)))) small = refl
code-digit (suc (suc (suc (suc (suc zero))))) small = refl
code-digit (suc (suc (suc (suc (suc (suc zero)))))) small = refl
code-digit (suc (suc (suc (suc (suc (suc (suc zero))))))) small = refl
code-digit (suc (suc (suc (suc (suc (suc (suc (suc zero)))))))) small = refl
code-digit (suc (suc (suc (suc (suc (suc (suc (suc (suc zero))))))))) small = refl
code-digit (suc (suc (suc (suc (suc (suc (suc (suc (suc (suc d)))))))))) small =
    absurd (omega arith)

-- The decimal digits of a number in front of a text, the last digit first. The fuel is the number
-- of digits that there may be.
pub digits : ℕ → ℕ → String → String
digits zero n s = s
digits (suc f) n s =
    let rest = digits f (n / 10) (String.◌∷◌ (digit (n % 10)) s) in
    if ltb n 10 then String.◌∷◌ (digit n) s else rest

-- `int(n)` for a `uint64`, with 64 bits.
abbrev pub int_of : ℕ → Int64
int_of n = if ltb n (2 ^ 63) then pos n else negsuc (2 ^ 64 - n - 1)

-- `strconv.Itoa`: a number of 64 bits has at most 20 digits.
unfoldable pub itoa : Int64 → String
unfolding digits
itoa (pos n) = digits 20 n String.[]
itoa (negsuc n) = String.◌∷◌ "-" (digits 20 (n + 1) String.[])

-- The value of a digit.
abbrev pub digit_value : Char → Option ℕ
digit_value c = if leb 48 (code c) && ltb (code c) 58 then some (code c - 48) else none

-- `n*10 + d`, and the error of a number that has more than 64 bits.
abbrev pub push_digit : ℕ → Option ℕ → Option ℕ
push_digit n none = none
push_digit n (some d) = if ltb (n * 10 + d) (2 ^ 64) then some (n * 10 + d) else none

-- The loop of `ParseUint`.
pub parse_digits : Option ℕ → String → Option ℕ
parse_digits n String.[] = n
parse_digits none (String.◌∷◌ c s) = none
parse_digits (some n) (String.◌∷◌ c s) = parse_digits (push_digit n (digit_value c)) s

unfoldable pub parse_uint : String → Option ℕ
unfolding parse_digits
parse_uint String.[] = none
parse_uint (String.◌∷◌ c s) = parse_digits (some 0) (String.◌∷◌ c s)

parse_digits-digit :
    (n d m : ℕ) (s : String)
    → d < 10
    → n * 10 + d ≡ m
    → m < 2 ^ 64
    → parse_digits (some n) (String.◌∷◌ (digit d) s) ≡ parse_digits (some m) s
unfolding parse_digits
parse_digits-digit n d m s small sum fits =
    let value : push_digit n (digit_value (digit d)) ≡ some m = ground (arith, code-digit d) in
    rw (value) refl

parse_digits-digits :
    (f n : ℕ) (s : String)
    → n < 10 ^ suc f
    → n < 2 ^ 64
    → parse_digits (some 0) (digits (suc f) n s) ≡ parse_digits (some n) s
unfolding digits
parse_digits-digits zero n s enough fits =
    let small : ltb n 10 ≡ true = ground arith in
    rw (small) (parse_digits-digit 0 n n s (omega arith) (omega arith) fits)
parse_digits-digits (suc f) n s enough fits = elim (Bool-cases (ltb n 10)) [
  | inl small ↦ rw (small) (parse_digits-digit 0 n n s (ground arith) (omega arith) fits)
  | inr large ↦ rw (large) (
      parse_digits-digits f (n / 10) (String.◌∷◌ (digit (n % 10)) s) (omega arith) (omega arith)
      ∙ parse_digits-digit (n / 10) (n % 10) n s (omega arith) (omega arith) fits)
]

abbrev filled : String → Bool
filled String.[] = false
filled (String.◌∷◌ c s) = true

digits-filled : (f n : ℕ) (c : Char) (s : String) → filled (digits f n (String.◌∷◌ c s)) ≡ true
unfolding digits
digits-filled zero n c s = refl
digits-filled (suc f) n c s = elim (Bool-cases (ltb n 10)) [
  | inl small ↦ rw (small) refl
  | inr large ↦ rw (large) (digits-filled f (n / 10) (digit (n % 10)) (String.◌∷◌ c s))
]

itoa_filled : (n : ℕ) → filled (digits 20 n String.[]) ≡ true
unfolding digits
itoa_filled n = elim (Bool-cases (ltb n 10)) [
  | inl small ↦ rw (small) refl
  | inr large ↦ rw (large) (digits-filled 19 (n / 10) (digit (n % 10)) String.[])
]

parse_uint-parse_digits : (s : String) → filled s ≡ true → parse_uint s ≡ parse_digits (some 0) s
unfolding parse_uint
parse_uint-parse_digits String.[] h = absurd (cc)
parse_uint-parse_digits (String.◌∷◌ c s) h = refl

parse_uint-sign : (s : String) → parse_uint (String.◌∷◌ "-" s) ≡ none
unfolding parse_uint parse_digits
parse_uint-sign String.[] = refl
parse_uint-sign (String.◌∷◌ c s) = refl

-- The text of the id of a proposal that a vote command is given is read back as that id if the id
-- is below 2 ^ 63, and is refused otherwise: `int` has made the number negative.
pub parse_uint-itoa :
    (n : ℕ) → n < 2 ^ 64 → parse_uint (itoa (int_of n)) ≡ (if ltb n (2 ^ 63) then some n else none)
unfolding itoa parse_digits
parse_uint-itoa n fits = elim (Bool-cases (ltb n (2 ^ 63))) [
  | inl small ↦
      rw (small, parse_uint-parse_digits (digits 20 n String.[]) (itoa_filled n))
        (parse_digits-digits 19 n String.[] (omega arith) fits)
  | inr large ↦ rw (large) (parse_uint-sign (digits 20 (2 ^ 64 - n - 1 + 1) String.[]))
]
