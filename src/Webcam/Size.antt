-- ===== src/Webcam/Size.antt =====
-- The size of the picture that is uploaded, against the number of its bytes.
use playground_azure_user_sy.Prelude.{
  ℕ, suc, ◌+◌, ◌*◌, ◌/◌, ◌%◌, false, none, some, List, [], ◌∷◌, ◌++◌, if◌then◌else◌, ◌==◌, ℕ_eq,
  length, ◌≡◌, refl, arith,
}
use playground_azure_user_sy.Prelude.Int.{pos}
use playground_azure_user_sy.Webcam.{
  Text, before_comma, after_comma, second_part, sign_matches, approx_quarters, WebcamField,
  file_uploaded, save_picture, save_and_close, upload,
}

-- Base64 with the digits `digit` of the numbers below 64.
unfoldable pub encode : (ℕ → ℕ) → List ℕ → Text
encode digit [] = []
encode digit (a ∷ []) = digit (a / 4) ∷ digit (a % 4 * 16) ∷ 61 ∷ 61 ∷ []
encode digit (a ∷ b ∷ []) =
    digit (a / 4) ∷ digit (a % 4 * 16 + b / 16) ∷ digit (b % 16 * 4) ∷ 61 ∷ []
encode digit (a ∷ b ∷ c ∷ bytes) =
    digit (a / 4)
    ∷ digit (a % 4 * 16 + b / 16)
    ∷ digit (b % 16 * 4 + c / 64)
    ∷ digit (c % 64)
    ∷ encode digit bytes

-- The size that the source gives to so many bytes.
unfoldable pub reported : ℕ → ℕ
reported n = if n % 3 == 1 then suc n else n

module _ (digit : ℕ → ℕ) (no_comma : (n : ℕ) → digit n == 44 ≡ false)
    (no_sign : (n : ℕ) → digit n == 61 ≡ false) where
  before_comma-encode : (bytes : List ℕ) → before_comma (encode digit bytes) ≡ encode digit bytes
  unfolding encode
  before_comma-encode [] = refl
  before_comma-encode (a ∷ []) = simp (no_comma)
  before_comma-encode (a ∷ b ∷ []) = simp (no_comma)
  before_comma-encode (a ∷ b ∷ c ∷ bytes) = simp (no_comma, before_comma-encode bytes)

  sign_matches-digit :
      (n : ℕ) (bytes : List ℕ)
      → sign_matches (digit n ∷ encode digit bytes) ≡ sign_matches (encode digit bytes)
  unfolding encode
  sign_matches-digit n [] = rw (no_sign n) refl
  sign_matches-digit n (a ∷ []) = refl
  sign_matches-digit n (a ∷ b ∷ []) = refl
  sign_matches-digit n (a ∷ b ∷ c ∷ bytes) = refl

  encode-size :
      (bytes : List ℕ)
      → 3 * length (encode digit bytes)
        ≡ 4 * reported (length bytes) + 4 * sign_matches (encode digit bytes)
  unfolding encode reported
  encode-size [] = refl
  encode-size (a ∷ []) = refl
  encode-size (a ∷ b ∷ []) = refl
  encode-size (a ∷ b ∷ c ∷ bytes) =
      ground (arith, encode-size bytes, sign_matches-digit (c % 64) bytes)

  approx_quarters-encode :
      (bytes : List ℕ) → approx_quarters (encode digit bytes) ≡ pos (4 * reported (length bytes))
  unfolding approx_quarters
  approx_quarters-encode bytes = ground (arith, encode-size bytes)

  after_comma-append :
      (header t : Text) → after_comma header ≡ none → after_comma (header ++ 44 ∷ t) ≡ some t
  after_comma-append [] t h = refl
  after_comma-append (c ∷ header) t h = ground (arith, after_comma-append header t)

  -- Saving a picture, given as the text of its header, a comma, and its bytes in base64: the base64
  -- text is uploaded with the number of the bytes as its size, but with one more if the number
  -- leaves 1 when it is divided by 3. The header and the digits have no comma, and no digit is the
  -- sign "=".
  pub save_and_close-size :
      (s : WebcamField) (header : Text) (bytes : List ℕ)
      → after_comma header ≡ none
      → s.img_data ≡ some (header ++ 44 ∷ encode digit bytes)
      → (save_and_close s).1
        ≡ file_uploaded (pos (4 * reported (length bytes))) (encode digit bytes) ∷ []
  unfolding save_and_close save_picture second_part upload
  save_and_close-size s header bytes h e =
      rw
        (
          e,
          after_comma-append header (encode digit bytes) h,
          before_comma-encode bytes,
          approx_quarters-encode bytes,
        )
        refl
