-- ===== src/Cursors.antt =====
-- The text of a cursor: backend/src/incident_desk/pagination.py, over `base64` and `json`, which are
-- parameters. An ASCII text stands for its bytes.
use incident_desk.Prelude.{
  ℕ, zero, suc, ◌+◌, ◌-◌, ◌%◌, ◌<◌, ◌==◌, ◌≡◌, refl, sym, ap, ◌∙◌, String, concat, size, Bool,
  Option, none, some, [], ◌∷◌, arith,
}
use Prim.Native.String.{[], ◌∷◌}
use incident_desk.Prelude.Strings.{rstrip_by}
use incident_desk.Errors.{invalid_cursor}
use incident_desk.Models.{Json, text, texts, array, object, nil, cons, end, field}
use incident_desk.Session.{Result, ok, err}

-- `json.dumps`, `json.loads` and `str` of a value; `base64.urlsafe_b64encode` and
-- `base64.urlsafe_b64decode`. None stands for a `ValueError`.
pub record Codec : Type 0 where
  pub dumps : Json → String
  pub loads : String → Option Json
  pub str : Json → String
  pub b64encode : String → String
  pub b64decode : String → Option String

abbrev is_equals : ℕ → Bool
is_equals c = c == 61

-- `"=" * n`
abbrev pub padding : ℕ → String
padding zero = ""
padding (suc n) = "=" ∷ padding n

-- What is documented of them, for a list of two texts: it reads back, `str` of a text is the text, and
-- base64 writes groups of four characters, the last filled up with at most two `=`, and reads them
-- back.
pub record Reads (codec : Codec) (a b : String) : Type 0 where
  pub loads-dumps : codec.loads (codec.dumps (texts (a ∷ b ∷ []))) ≡ some (texts (a ∷ b ∷ []))
  pub str_first : codec.str (text a) ≡ a
  pub str_second : codec.str (text b) ≡ b
  pub b64decode-b64encode :
      codec.b64decode (codec.b64encode (codec.dumps (texts (a ∷ b ∷ []))))
      ≡ some (codec.dumps (texts (a ∷ b ∷ [])))
  pub body : String
  pub pad : ℕ
  pub b64encode-body :
      codec.b64encode (codec.dumps (texts (a ∷ b ∷ []))) ≡ concat body (padding pad)
  pub body_bare : rstrip_by is_equals body ≡ body
  pub pad_small : pad < 3
  pub groups : (size body + pad) % 4 ≡ 0

-- `sort_value, row_id = decoded`: a list, a text or a dict of two; none for a `TypeError` or a
-- `ValueError`
abbrev unpack_text : String → Option (Json × Json)
unpack_text (a ∷ b ∷ []) = some (text (a ∷ []), text (b ∷ []))
unpack_text _ = none

abbrev unpack : Json → Option (Json × Json)
unpack (texts (a ∷ b ∷ [])) = some (text a, text b)
unpack (array (cons a (cons b nil))) = some (a, b)
unpack (text t) = unpack_text t
unpack (object (field a v (field b w end))) = some (text a, text b)
unpack _ = none

module _ (codec : Codec) where
  unfoldable pub encode_cursor : String → String → String
  unfolding rstrip_by
  encode_cursor sort_value row_id =
      rstrip_by is_equals (codec.b64encode (codec.dumps (texts (sort_value ∷ row_id ∷ []))))

  -- `cursor + "=" * (-len(cursor) % 4)`
  abbrev pub padded : String → String
  padded cursor = concat cursor (padding ((4 - size cursor % 4) % 4))

  abbrev as_texts : Option (Json × Json) → Result (String × String)
  as_texts none = err invalid_cursor
  as_texts (some p) = ok (codec.str p.0, codec.str p.1)

  abbrev decoded : Option Json → Result (String × String)
  decoded none = err invalid_cursor
  decoded (some v) = as_texts (unpack v)

  abbrev loaded : Option String → Result (String × String)
  loaded none = err invalid_cursor
  loaded (some t) = decoded (codec.loads t)

  unfoldable pub decode_cursor : String → Result (String × String)
  decode_cursor cursor = loaded (codec.b64decode (padded cursor))

  abbrev with_uuid : Option ℕ → String → Result (String × ℕ)
  with_uuid none sort_value = err invalid_cursor
  with_uuid (some id) sort_value = ok (sort_value, id)

  -- `uuid.UUID(row_id)` is given: none for a `ValueError`
  unfoldable pub decode_uuid_cursor : (String → Option ℕ) → String → Result (String × ℕ)
  unfolding decode_cursor
  decode_uuid_cursor parse cursor = elim (decode_cursor cursor) [
    | ok p ↦ with_uuid (parse p.1) p.0
    | err e ↦ err e
  ]

rstrip-padding : (n : ℕ) → rstrip_by is_equals (padding n) ≡ ""
unfolding rstrip_by
rstrip-padding zero = refl
rstrip-padding (suc n) = rw (rstrip-padding n) refl

rstrip-concat-padding :
    (s : String) (n : ℕ) → rstrip_by is_equals (concat s (padding n)) ≡ rstrip_by is_equals s
unfolding rstrip_by concat
rstrip-concat-padding [] n = rstrip-padding n
rstrip-concat-padding (c ∷ s) n = rw (rstrip-concat-padding s n) refl

missing : (m n : ℕ) → n < 3 → (m + n) % 4 ≡ 0 → (4 - m % 4) % 4 ≡ n
missing m n h e = omega (arith, h, e)

module _ (codec : Codec) (a b : String) (laws : Reads codec a b) where
  encode-body : encode_cursor codec a b ≡ laws.body
  unfolding encode_cursor
  encode-body =
      ap (rstrip_by is_equals) laws.b64encode-body
      ∙ rstrip-concat-padding laws.body laws.pad
      ∙ laws.body_bare

  padded-encode :
      padded codec (encode_cursor codec a b) ≡ codec.b64encode (codec.dumps (texts (a ∷ b ∷ [])))
  padded-encode =
      ap (padded codec) encode-body
      ∙ ap (λ n. concat laws.body (padding n))
          (missing (size laws.body) laws.pad laws.pad_small laws.groups)
      ∙ sym laws.b64encode-body

  -- The text of a cursor, from which the padding is cut, reads back as the pair that it was made of.
  pub decode_cursor-encode_cursor : decode_cursor codec (encode_cursor codec a b) ≡ ok (a, b)
  unfolding decode_cursor
  decode_cursor-encode_cursor =
      ap (λ t. loaded codec (codec.b64decode t)) padded-encode
      ∙ ap (loaded codec) laws.b64decode-b64encode
      ∙ ap (decoded codec) laws.loads-dumps
      ∙ ap (λ x. ok (x, codec.str (text b))) laws.str_first
      ∙ ap (λ x. ok (a, x)) laws.str_second
