-- ===== src/Prelude/Strings.antt =====
-- Python's `str.strip`.
use Prim.Native.Nat.{ℕ, zero, suc, ◌+◌}
use Prim.Native.Char.{Char, code}
use Prim.Native.String.{String, [], ◌∷◌}
use mathlib.Core.Bool.{Bool, true, false, not, ◌&&◌, ◌||◌}
use mathlib.Core.Path.{◌≡◌, refl}
use native.Mathlib.Omega.{arith}
use incident_desk.Prelude.Tests.{leb, ◌==◌, if◌then◌else◌}

-- `str.isspace` of one code point
unfoldable pub is_space : ℕ → Bool
is_space c =
    (leb 9 c && leb c 13)
    || (leb 28 c && leb c 32)
    || c == 133
    || c == 160
    || c == 5760
    || (leb 8192 c && leb c 8202)
    || c == 8232
    || c == 8233
    || c == 8239
    || c == 8287
    || c == 12288

-- `not s`
abbrev pub is_empty : String → Bool
is_empty [] = true
is_empty (c ∷ s) = false

module _ (p : ℕ → Bool) where
  pub lstrip_by : String → String
  lstrip_by [] = []
  lstrip_by (c ∷ s) = let rest = lstrip_by s in if p (code c) then rest else c ∷ s

  unfoldable pub rstrip_by : String → String
  rstrip_by [] = []
  rstrip_by (c ∷ s) = let rest = rstrip_by s in if is_empty rest && p (code c) then [] else c ∷ rest

  -- without the characters at either end that pass the test
  unfoldable pub strip_by : String → String
  unfolding lstrip_by rstrip_by
  strip_by s = rstrip_by (lstrip_by s)

  -- every character passes the test
  abbrev pub all_chars : String → Bool
  all_chars [] = true
  all_chars (c ∷ s) = p (code c) && all_chars s

unfoldable pub strip : String → String
unfolding strip_by is_space
strip s = strip_by is_space s

-- `s[:n]`
unfoldable pub truncate : ℕ → String → String
truncate zero s = []
truncate (suc n) [] = []
truncate (suc n) (c ∷ s) = c ∷ truncate n s

-- `s[n:]`
unfoldable pub skip : ℕ → String → String
skip zero s = s
skip (suc n) [] = []
skip (suc n) (c ∷ s) = skip n s

-- `s + t`
unfoldable pub concat : String → String → String
concat [] t = t
concat (c ∷ s) t = c ∷ concat s t

-- `len(s)`
abbrev pub size : String → ℕ
size [] = 0
size (c ∷ s) = suc (size s)

pub size-concat : (s t : String) → size (concat s t) ≡ size s + size t
unfolding concat
size-concat [] t = omega arith
size-concat (c ∷ s) t = omega (arith, size-concat s t)

module _ (p : ℕ → Bool) where
  pub all_chars-concat :
      (s t : String) → all_chars p (concat s t) ≡ (all_chars p s && all_chars p t)
  unfolding concat
  all_chars-concat [] t = refl
  all_chars-concat (c ∷ s) t = ground (arith, all_chars-concat s t)

  -- Where no character passes, nothing is stripped.
  pub rstrip_by_none : (s : String) → all_chars (λ c. not (p c)) s ≡ true → rstrip_by p s ≡ s
  unfolding rstrip_by
  rstrip_by_none [] h = refl
  rstrip_by_none (c ∷ s) h = ground (arith, rstrip_by_none s)

  pub strip_by_none : (s : String) → all_chars (λ c. not (p c)) s ≡ true → strip_by p s ≡ s
  unfolding strip_by lstrip_by
  strip_by_none [] h = rstrip_by_none [] h
  strip_by_none (c ∷ s) h = ground (arith, rstrip_by_none (c ∷ s) h)

  -- Of a text with no such character, between two that pass, the two are stripped.
  rstrip_by-concat :
      (c : Char) (s : String)
      → all_chars (λ d. not (p d)) s ≡ true
      → p (code c) ≡ true
      → rstrip_by p (concat s (c ∷ [])) ≡ s
  unfolding rstrip_by concat
  rstrip_by-concat c [] h t = ground arith
  rstrip_by-concat c (d ∷ s) h t = ground (arith, rstrip_by-concat c s)

  pub strip_by-between :
      (c d : Char) (s : String)
      → all_chars (λ e. not (p e)) s ≡ true
      → p (code c) ≡ true
      → p (code d) ≡ true
      → strip_by p (c ∷ concat s (d ∷ [])) ≡ s
  unfolding strip_by lstrip_by concat rstrip_by
  strip_by-between c d [] h t u = rw (t, u)
  strip_by-between c d (e ∷ s) h t u = ground (arith, rstrip_by-concat d (e ∷ s) h u)
