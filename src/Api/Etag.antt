-- ===== src/Api/Etag.antt =====
-- Version tags: `_etag` and `_parse_if_match` of api/v1/incidents.py. A header is Latin-1 text, so
-- its characters are below 256.
use incident_desk.Prelude.{
  ℕ, ◌==◌, ◌≡◌, refl, String, Bool, true, false, not, ◌&&◌, ◌||◌, is_empty, strip, strip_by,
  is_space, all_chars, concat, is_decimal, show, int_of, show-decimal, show-ne-empty, int_of-show,
  all_decimals, all_chars-concat, strip_by_none, strip_by-between, if◌then◌else◌, arith,
}
use Prim.Native.Char.{Char, code}
use Prim.Native.String.{[], ◌∷◌}
use incident_desk.Errors.{invalid_precondition, value_error}
use incident_desk.Session.{Result, ok, err}

-- those for which `str.isdigit` holds: the superscripts two, three and one too
abbrev pub is_digit : ℕ → Bool
is_digit c = is_decimal c || c == 178 || c == 179 || c == 185

abbrev is_quote : ℕ → Bool
is_quote c = c == 34

-- `f'"{version}"'`
unfoldable pub etag : ℕ → String
unfolding concat show
etag version = "\"" ∷ concat (show version) ("\"" ∷ [])

-- `s.removeprefix("W/")`
remove_weak : String → String
remove_weak [] = []
remove_weak (c ∷ []) = c ∷ []
remove_weak (c ∷ d ∷ s) = if code c == 87 && code d == 47 then s else c ∷ d ∷ s

abbrev cleaned : String → String
cleaned value = strip_by is_quote (strip (remove_weak (strip value)))

-- `cleaned.isdigit()`, then `int(cleaned)`, which raises a `ValueError` at a superscript; its limit of
-- 4300 digits is left out.
read_version : String → Result ℕ
unfolding int_of
read_version s =
    if is_empty s || not (all_chars is_digit s)
    then err invalid_precondition
    else if all_chars is_decimal s
    then ok (int_of s)
    else err value_error

unfoldable pub parse_if_match : String → Result ℕ
unfolding read_version remove_weak strip strip_by
parse_if_match value = read_version (cleaned value)

remove_weak_other : (c : Char) (s : String) → (code c == 87) ≡ false → remove_weak (c ∷ s) ≡ c ∷ s
unfolding remove_weak
remove_weak_other c [] h = refl
remove_weak_other c (d ∷ s) h = rw h

remove_weak_decimal : (s : String) → all_chars is_decimal s ≡ true → remove_weak s ≡ s
unfolding remove_weak
remove_weak_decimal [] h = refl
remove_weak_decimal (c ∷ s) h = remove_weak_other c s (ground arith)

module _ (v : ℕ) where
  read-show : read_version (show v) ≡ ok v
  unfolding read_version
  read-show = ground (
    arith,
    show-decimal v,
    int_of-show v,
    show-ne-empty v,
    all_decimals is_digit (λ c h. ground arith) (show v) (show-decimal v),
  )

  etag-plain : all_chars (λ c. not (is_space c)) (etag v) ≡ true
  unfolding etag is_space
  etag-plain = ground (
    arith,
    all_chars-concat (λ c. not (is_space c)) (show v) ("\"" ∷ []),
    all_decimals (λ c. not (is_space c)) (λ c h. ground arith) (show v) (show-decimal v),
  )

  unquoted : strip_by is_quote (etag v) ≡ show v
  unfolding etag
  unquoted =
      strip_by-between is_quote "\"" "\"" (show v)
        (all_decimals (λ c. not (is_quote c)) (λ c h. ground arith) (show v) (show-decimal v)) refl
        refl

  strip-etag : strip (etag v) ≡ etag v
  unfolding strip
  strip-etag = strip_by_none is_space (etag v) etag-plain

  remove_weak-etag : remove_weak (etag v) ≡ etag v
  unfolding etag
  remove_weak-etag = remove_weak_other "\"" (concat (show v) ("\"" ∷ [])) refl

  parse-etag : parse_if_match (etag v) ≡ ok v
  unfolding parse_if_match
  parse-etag = rw (strip-etag, remove_weak-etag, strip-etag, unquoted) read-show

  strip-weak : strip ("W" ∷ "/" ∷ etag v) ≡ "W" ∷ "/" ∷ etag v
  unfolding strip is_space
  strip-weak = strip_by_none is_space ("W" ∷ "/" ∷ etag v) (rw etag-plain)

  weak-removed : remove_weak ("W" ∷ "/" ∷ etag v) ≡ etag v
  unfolding remove_weak
  weak-removed = refl

  parse-weak : parse_if_match ("W" ∷ "/" ∷ etag v) ≡ ok v
  unfolding parse_if_match
  parse-weak = rw (strip-weak, weak-removed, strip-etag, unquoted) read-show

  show-plain : all_chars (λ c. not (is_space c)) (show v) ≡ true
  unfolding is_space
  show-plain = all_decimals (λ c. not (is_space c)) (λ c h. ground arith) (show v) (show-decimal v)

  strip-show : strip (show v) ≡ show v
  unfolding strip
  strip-show = strip_by_none is_space (show v) show-plain

  parse-show : parse_if_match (show v) ≡ ok v
  unfolding parse_if_match
  parse-show =
      rw
        (
          strip-show,
          remove_weak_decimal (show v) (show-decimal v),
          strip-show,
          strip_by_none is_quote (show v) (
              all_decimals (λ c. not (is_quote c)) (λ c h. ground arith) (show v) (show-decimal v)),
        )
        read-show

  -- A version is read back from its tag, from its weak tag and from its number.
  pub parse_if_match-etag :
      (parse_if_match (etag v) ≡ ok v)
      × (parse_if_match ("W" ∷ "/" ∷ etag v) ≡ ok v)
      × (parse_if_match (show v) ≡ ok v)
  parse_if_match-etag = (parse-etag, parse-weak, parse-show)

all_digits :
    (p : ℕ → Bool)
    → ((c : ℕ) → is_digit c ≡ true → p c ≡ true)
    → (s : String) → all_chars is_digit s ≡ true
    → all_chars p s ≡ true
all_digits p k [] h = refl
all_digits p k (c ∷ s) h = ground (arith, k (code c), all_digits p k s)

digit_plain : (c : ℕ) → is_digit c ≡ true → not (is_space c) ≡ true
unfolding is_space
digit_plain c h = ground arith

strip_lem : (s : String) → all_chars (λ c. not (is_space c)) s ≡ true → strip s ≡ s
unfolding strip
strip_lem s h = strip_by_none is_space s h

remove_weak_digits : (s : String) → all_chars is_digit s ≡ true → remove_weak s ≡ s
unfolding remove_weak
remove_weak_digits [] h = refl
remove_weak_digits (c ∷ s) h = remove_weak_other c s (ground arith)

read-superscript :
    (s : String)
    → is_empty s ≡ false
    → all_chars is_digit s ≡ true
    → all_chars is_decimal s ≡ false
    → read_version s ≡ err value_error
unfolding read_version
read-superscript s e d n = rw (e, d, n)

-- A bare `If-Match` of digits, one of them a superscript, passes the test for digits and then makes
-- `int` raise a `ValueError`, which nothing catches.
pub parse_if_match_uncaught :
    (s : String)
    → is_empty s ≡ false
    → all_chars is_digit s ≡ true
    → all_chars is_decimal s ≡ false
    → parse_if_match s ≡ err value_error
unfolding parse_if_match
parse_if_match_uncaught s e d n =
    let plain = all_digits (λ c. not (is_space c)) (λ c h. digit_plain c h) s d in
    let q = all_digits (λ c. not (is_quote c)) (λ c h. ground arith) s d in
    let t : strip s ≡ s = strip_lem s plain in
    rw (t, remove_weak_digits s d, t, strip_by_none is_quote s q) (read-superscript s e d n)
