-- ===== src/Text/Decimal.antt =====
-- Numbers in decimal: what `format!` writes and `str::parse::<u32>` reads.
use goodgrep.Prelude.{
  ℕ, zero, suc, ◌+◌, ◌-◌, ◌*◌, ◌/◌, ◌%◌, ◌≤◌, ◌<◌, ◌≡◌, refl, ap, sym, subst, ◌∙◌, true, false,
  Bool, ◌&&◌, List, [], ◌∷◌, Option, none, some, arith, inl, inr,
}
use goodgrep.Prelude.Tests.{leb, ◌==◌, nat_key, if◌then◌else◌, Bool-cases}
use goodgrep.Prelude.Lists.{All, is_empty}
use goodgrep.Text.{trim, trim_start, trim_end, is_whitespace}

-- The fuel is enough if it is more than the number.
unfoldable pub digits : ℕ → ℕ → List ℕ → List ℕ
digits zero n behind = behind
digits (suc fuel) n behind =
    let rest = digits fuel (n / 10) ((b'0' + n % 10) ∷ behind) in
    if n / 10 == 0 then (b'0' + n % 10) ∷ behind else rest

unfoldable pub decimal : ℕ → List ℕ
unfolding digits
decimal n = digits (suc n) n []

abbrev pub is_digit : ℕ → Bool
is_digit c = leb b'0' c && leb c b'9'

unfoldable pub read_digits : List ℕ → ℕ → Option ℕ
read_digits [] value = some value
read_digits (c ∷ s) value =
    let rest = read_digits s (value * 10 + (c - b'0')) in if is_digit c then rest else none

abbrev pub u32_max : ℕ
u32_max = 4294967295

unfoldable pub within_u32 : Option ℕ → Option ℕ
within_u32 none = none
within_u32 (some n) = if leb n u32_max then some n else none

unfoldable pub without_plus : List ℕ → List ℕ
without_plus [] = []
without_plus (c ∷ s) = if c == b'+' then s else c ∷ s

unfoldable pub parse_u32 : List ℕ → Option ℕ
parse_u32 s =
    if is_empty (without_plus s) then none else within_u32 (read_digits (without_plus s) 0)

module _ (fuel n : ℕ) (behind : List ℕ) where
  digits_last : (n / 10 == 0) ≡ true → digits (suc fuel) n behind ≡ (b'0' + n % 10) ∷ behind
  unfolding digits
  digits_last last = ground (arith, last)

  digits_more :
      (n / 10 == 0) ≡ false
      → digits (suc fuel) n behind ≡ digits fuel (n / 10) ((b'0' + n % 10) ∷ behind)
  unfolding digits
  digits_more more = ground (arith, more)

minus_zero : (d : ℕ) → (b'0' + d) - b'0' ≡ d
minus_zero d = omega arith

read_digits_cons :
    (d value : ℕ) (s : List ℕ)
    → d < 10
    → read_digits ((b'0' + d) ∷ s) value ≡ read_digits s (value * 10 + d)
unfolding read_digits
read_digits_cons d value s h =
    ground (arith, ap (λ e. read_digits s (value * 10 + e)) (minus_zero d))

last_digit : (n : ℕ) → (n / 10 == 0) ≡ true → 0 * 10 + n % 10 ≡ n
last_digit n h = ground (arith, h)

next_digit : (n : ℕ) → n / 10 * 10 + n % 10 ≡ n
next_digit n = omega arith

digit_lt : (n : ℕ) → n % 10 < 10
digit_lt n = omega arith

tenth_lt : (n fuel : ℕ) → (n / 10 == 0) ≡ false → n < suc fuel → n / 10 < fuel
tenth_lt n fuel more h = ground (arith, more)

read_digits-digits :
    (fuel n : ℕ) (behind : List ℕ)
    → n < fuel
    → read_digits (digits fuel n behind) 0 ≡ read_digits behind n
read_digits-digits zero n behind h = absurd (omega arith)
read_digits-digits (suc fuel) n behind h = elim (Bool-cases (n / 10 == 0)) [
  | inl last ↦
      ap (λ s. read_digits s 0) (digits_last fuel n behind last)
      ∙ read_digits_cons (n % 10) 0 behind (digit_lt n)
      ∙ ap (read_digits behind) (last_digit n last)
  | inr more ↦
      ap (λ s. read_digits s 0) (digits_more fuel n behind more)
      ∙ read_digits-digits fuel (n / 10) ((b'0' + n % 10) ∷ behind) (tenth_lt n fuel more h)
      ∙ read_digits_cons (n % 10) (n / 10) behind (digit_lt n)
      ∙ ap (read_digits behind) (next_digit n)
]

-- A text of digits.
abbrev pub IsDigits : List ℕ → Type 0
IsDigits s = All (λ c. is_digit c ≡ true) s

digits-IsDigits : (fuel n : ℕ) (behind : List ℕ) → IsDigits behind → IsDigits (digits fuel n behind)
unfolding digits
digits-IsDigits zero n behind h = h
digits-IsDigits (suc fuel) n behind h = elim (Bool-cases (n / 10 == 0)) [
  | inl last ↦ subst IsDigits (sym (digits_last fuel n behind last)) (ground (arith, digit_lt n), h)
  | inr more ↦
      subst IsDigits (sym (digits_more fuel n behind more))
        (digits-IsDigits fuel (n / 10) ((b'0' + n % 10) ∷ behind) (ground (arith, digit_lt n), h))
]

pub decimal-IsDigits : (n : ℕ) → IsDigits (decimal n)
unfolding decimal
decimal-IsDigits n = digits-IsDigits (suc n) n [] tt

without_plus_digit : (c : ℕ) (s : List ℕ) → is_digit c ≡ true → without_plus (c ∷ s) ≡ c ∷ s
unfolding without_plus
without_plus_digit c s h = ground (arith, h)

within_u32-some : (n : ℕ) → n ≤ u32_max → within_u32 (some n) ≡ some n
unfolding within_u32
within_u32-some n h = ground (arith, h)

parse_u32_digits :
    (s : List ℕ) (n : ℕ)
    → IsDigits s
    → is_empty s ≡ false
    → read_digits s 0 ≡ some n
    → n ≤ u32_max
    → parse_u32 s ≡ some n
parse_u32_digits [] n a e h l = absurd (ground (arith, e))
parse_u32_digits (c ∷ s) n a e h l =
    unfold parse_u32 in rw (without_plus_digit c s a.0, h) (within_u32-some n l)

digits_nonempty :
    (fuel n : ℕ) (behind : List ℕ)
    → is_empty behind ≡ false
    → is_empty (digits fuel n behind) ≡ false
unfolding digits
digits_nonempty zero n behind h = h
digits_nonempty (suc fuel) n behind h =
    ground (arith, digits_nonempty fuel (n / 10) ((b'0' + n % 10) ∷ behind) refl)

decimal_nonempty : (n : ℕ) → is_empty (decimal n) ≡ false
unfolding decimal
decimal_nonempty n = elim (Bool-cases (n / 10 == 0)) [
  | inl last ↦ ap is_empty (digits_last n n [] last)
  | inr more ↦
      ap is_empty (digits_more n n [] more) ∙ digits_nonempty n (n / 10) ((b'0' + n % 10) ∷ []) refl
]

-- What is written is read back.
pub parse_u32-decimal : (n : ℕ) → n ≤ u32_max → parse_u32 (decimal n) ≡ some n
parse_u32-decimal n h =
    parse_u32_digits (decimal n) n (decimal-IsDigits n) (decimal_nonempty n)
      (unfold decimal in
        read_digits-digits (suc n) n [] (omega arith) ∙ (unfold read_digits in refl))
      h

trim_end_dark : (s : List ℕ) → All (λ c. is_whitespace c ≡ false) s → trim_end s ≡ s
unfolding trim_end
trim_end_dark [] a = refl
trim_end_dark (c ∷ s) a = ground (arith, a.0, trim_end_dark s a.1)

-- A text without blanks is not trimmed.
pub trim_dark : (s : List ℕ) → All (λ c. is_whitespace c ≡ false) s → trim s ≡ s
unfolding trim trim_start
trim_dark [] a = trim_end_dark [] tt
trim_dark (c ∷ s) a = ground (arith, a.0, trim_end_dark (c ∷ s) a)
