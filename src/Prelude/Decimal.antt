-- ===== src/Prelude/Decimal.antt =====
-- `str` of a number from zero, and `int` of its decimals.
use Prim.Native.Nat.{ℕ, zero, suc, ◌+◌, ◌-◌, ◌*◌, ◌/◌, ◌%◌, ◌<◌}
use Prim.Native.Char.{Char, code}
use Prim.Native.String.{String, [], ◌∷◌}
use mathlib.Core.Path.{◌≡◌, refl}
use mathlib.Core.Bool.{Bool, true, false, ◌&&◌}
use native.Mathlib.Omega.{arith}
use incident_desk.Prelude.Tests.{ltb, leb, if◌then◌else◌}
use incident_desk.Prelude.Strings.{is_empty, all_chars}

-- the characters of Latin-1 for which `int` reads a digit
abbrev pub is_decimal : ℕ → Bool
is_decimal c = leb 48 c && leb c 57

digit_char : ℕ → Char
digit_char zero = "0"
digit_char (suc zero) = "1"
digit_char (suc (suc zero)) = "2"
digit_char (suc (suc (suc zero))) = "3"
digit_char (suc (suc (suc (suc zero)))) = "4"
digit_char (suc (suc (suc (suc (suc zero))))) = "5"
digit_char (suc (suc (suc (suc (suc (suc zero)))))) = "6"
digit_char (suc (suc (suc (suc (suc (suc (suc zero))))))) = "7"
digit_char (suc (suc (suc (suc (suc (suc (suc (suc zero)))))))) = "8"
digit_char _ = "9"

-- `str(n)`: a digit for each round, from the last one on; as many rounds as `n` are enough
show_from : ℕ → ℕ → String → String
unfolding digit_char
show_from zero n out = out
show_from (suc fuel) n out =
    let rest = show_from fuel (n / 10) (digit_char (n % 10) ∷ out) in
    if ltb n 10 then digit_char n ∷ out else rest

unfoldable pub show : ℕ → String
unfolding show_from
show n = show_from (suc n) n []

-- `int(s)` of decimals
int_from : ℕ → String → ℕ
int_from n [] = n
int_from n (c ∷ s) = int_from (n * 10 + (code c - 48)) s

unfoldable pub int_of : String → ℕ
unfolding int_from
int_of s = int_from 0 s

code-digit_char : (d : ℕ) → d < 10 → code (digit_char d) ≡ 48 + d
unfolding digit_char
code-digit_char zero h = refl
code-digit_char (suc zero) h = refl
code-digit_char (suc (suc zero)) h = refl
code-digit_char (suc (suc (suc zero))) h = refl
code-digit_char (suc (suc (suc (suc zero)))) h = refl
code-digit_char (suc (suc (suc (suc (suc zero))))) h = refl
code-digit_char (suc (suc (suc (suc (suc (suc zero)))))) h = refl
code-digit_char (suc (suc (suc (suc (suc (suc (suc zero))))))) h = refl
code-digit_char (suc (suc (suc (suc (suc (suc (suc (suc zero)))))))) h = refl
code-digit_char (suc (suc (suc (suc (suc (suc (suc (suc (suc zero))))))))) h = refl
code-digit_char (suc (suc (suc (suc (suc (suc (suc (suc (suc (suc d)))))))))) h =
    absurd (omega arith)

int_from-show_from :
    (fuel n : ℕ) (out : String) → n < fuel → int_from 0 (show_from fuel n out) ≡ int_from n out
unfolding int_from show_from
int_from-show_from zero n out h = absurd (omega arith)
int_from-show_from (suc fuel) n out h = ground (
  arith,
  code-digit_char n,
  code-digit_char (n % 10),
  int_from-show_from fuel (n / 10) (digit_char (n % 10) ∷ out),
)

show_from-decimal :
    (fuel n : ℕ) (out : String)
    → all_chars is_decimal out ≡ true
    → all_chars is_decimal (show_from fuel n out) ≡ true
unfolding show_from
show_from-decimal zero n out h = h
show_from-decimal (suc fuel) n out h = ground (
  arith,
  code-digit_char n,
  code-digit_char (n % 10),
  show_from-decimal fuel (n / 10) (digit_char (n % 10) ∷ out),
)

show_from-ne-empty :
    (fuel n : ℕ) (out : String) → n < fuel → is_empty (show_from fuel n out) ≡ false
unfolding show_from
show_from-ne-empty zero n out h = absurd (omega arith)
show_from-ne-empty (suc fuel) n out h = ground (arith, kept fuel (n / 10) (digit_char (n % 10)) out)
  where
    kept : (fuel n : ℕ) (c : Char) (out : String) → is_empty (show_from fuel n (c ∷ out)) ≡ false
    kept zero n c out = refl
    kept (suc fuel) n c out = ground (arith, kept fuel (n / 10) (digit_char (n % 10)) (c ∷ out))

-- What is true of each decimal is true of a text of decimals.
pub all_decimals :
    (p : ℕ → Bool)
    → ((c : ℕ) → is_decimal c ≡ true → p c ≡ true)
    → (s : String) → all_chars is_decimal s ≡ true
    → all_chars p s ≡ true
all_decimals p k [] h = refl
all_decimals p k (c ∷ s) h = ground (arith, k (code c), all_decimals p k s)

module _ (v : ℕ) where
  pub show-decimal : all_chars is_decimal (show v) ≡ true
  unfolding show
  show-decimal = show_from-decimal (suc v) v [] refl

  pub show-ne-empty : is_empty (show v) ≡ false
  unfolding show
  show-ne-empty = show_from-ne-empty (suc v) v [] (omega arith)

  -- A number is read back from its decimals.
  pub int_of-show : int_of (show v) ≡ v
  unfolding int_of show
  int_of-show = ground (arith, int_from-show_from (suc v) v [] (omega arith))
