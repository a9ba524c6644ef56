-- ===== src/Ids/BucketName.antt =====
-- internal/idutils/bucketname.go: the name of a bucket, and its sanitizing.
use Prim.Native.Char.{Char, code}
use Prim.Native.String.{String, [], ◌∷◌, ◌++◌}
use dynatrace_configuration.Base.{
  ℕ, zero, suc, Bool, ◌&&◌, ◌||◌, ltb, leb, ◌==◌, text_length, if◌then◌else◌,
}
use dynatrace_configuration.Config.Coordinate.{Coordinate}

abbrev pub within : ℕ → ℕ → ℕ → Bool
within low high n = leb low n && leb n high

abbrev pub is_letter : Char → Bool
is_letter c = within b'a' b'z' (code c)

abbrev pub is_digit : Char → Bool
is_digit c = within b'0' b'9' (code c)

abbrev pub is_dash : Char → Bool
is_dash c = (code c == b'_') || (code c == b'-')

-- One character of the class [a-z0-9_-].
abbrev pub is_name_char : Char → Bool
is_name_char c = is_letter c || is_digit c || is_dash c

-- `ReplaceAllString` of the class's complement by nothing.
unfoldable pub keep_chars : (Char → Bool) → String → String
keep_chars p [] = []
keep_chars p (c ∷ s) = let rest = keep_chars p s in if p c then c ∷ rest else rest

-- The longest beginning of characters of the class is deleted.
unfoldable pub drop_leading : (Char → Bool) → String → String
drop_leading p [] = []
drop_leading p (c ∷ s) = let rest = drop_leading p s in if p c then rest else c ∷ s

abbrev pub drop_second : String → String
drop_second [] = []
drop_second (c ∷ s) = if is_letter c then c ∷ drop_leading is_dash s else c ∷ s

unfoldable pub text_take : ℕ → String → String
text_take zero s = []
text_take (suc n) [] = []
text_take (suc n) (c ∷ s) = c ∷ text_take n s

abbrev pub maximum_bucket_name_length : ℕ
maximum_bucket_name_length = 100

-- `strings.ToLower` stands on the tables of Unicode and is a parameter.
module _ (to_lower : String → String) where
  unfoldable pub sanitize_bucket_name : String → String
  sanitize_bucket_name name =
      let kept = keep_chars is_name_char (to_lower name) in
      let from_letter = drop_leading (λ c. is_digit c || is_dash c) kept in
      let short = drop_second from_letter in
      if ltb maximum_bucket_name_length (text_length short)
      then text_take maximum_bucket_name_length short
      else short

  -- `sanitize` is the feature flag.
  unfoldable pub generate_bucket_name : Bool → Coordinate → String
  generate_bucket_name sanitize c =
      let name = c.project ++ "_" ++ c.config_id in
      let sanitized = sanitize_bucket_name name in if sanitize then sanitized else name
