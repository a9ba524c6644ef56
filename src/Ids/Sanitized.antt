-- ===== src/Ids/Sanitized.antt =====
-- What a sanitized bucket name looks like.
use Prim.Native.Char.{Char}
use Prim.Native.String.{String, [], ◌∷◌}
use dynatrace_configuration.Base.{
  ℕ, zero, suc, ◌≤◌, ◌≡◌, refl, ap, ◌∙◌, Bool, true, false, ◌&&◌, ◌||◌, not, arith, ltb,
  text_length,
}
use dynatrace_configuration.Ids.BucketName.{
  is_letter, is_digit, is_dash, is_name_char, keep_chars, drop_leading, drop_second, text_take,
  sanitize_bucket_name,
}

unfoldable pub all_chars : (Char → Bool) → String → Bool
all_chars p [] = true
all_chars p (c ∷ s) = p c && all_chars p s

-- A beginning of what the expression ([a-z])([a-z0-9])([a-z0-9_-])+ matches, or such a text.
unfoldable pub is_bucket_name : String → Bool
is_bucket_name [] = true
is_bucket_name (c ∷ []) = is_letter c
is_bucket_name (c ∷ d ∷ s) = is_letter c && (is_letter d || is_digit d) && all_chars is_name_char s

all_chars-keep_chars : (p : Char → Bool) (s : String) → all_chars p (keep_chars p s) ≡ true
unfolding all_chars keep_chars
all_chars-keep_chars p [] = refl
all_chars-keep_chars p (c ∷ s) = ground (arith, all_chars-keep_chars p s)

all_chars-drop_leading :
    (p q : Char → Bool) (s : String) → all_chars p s ≡ true → all_chars p (drop_leading q s) ≡ true
unfolding all_chars drop_leading
all_chars-drop_leading p q [] h = refl
all_chars-drop_leading p q (c ∷ s) h = ground (arith, all_chars-drop_leading p q s)

-- The first character, if any, is not of the class.
starts_without : (Char → Bool) → String → Bool
starts_without q [] = true
starts_without q (c ∷ s) = not (q c)

starts_without-drop_leading :
    (q : Char → Bool) (s : String) → starts_without q (drop_leading q s) ≡ true
unfolding starts_without drop_leading
starts_without-drop_leading q [] = refl
starts_without-drop_leading q (c ∷ s) = ground (arith, starts_without-drop_leading q s)

keep_chars_all : (p : Char → Bool) (s : String) → all_chars p s ≡ true → keep_chars p s ≡ s
unfolding all_chars keep_chars
keep_chars_all p [] h = refl
keep_chars_all p (c ∷ s) h =
    let t : p c ≡ true = ground arith in rw t (ap (λ z. c ∷ z) (keep_chars_all p s (ground arith)))

drop_leading_none :
    (q : Char → Bool) (s : String) → starts_without q s ≡ true → drop_leading q s ≡ s
unfolding starts_without drop_leading
drop_leading_none q [] h = refl
drop_leading_none q (c ∷ s) h = ground arith

text_length-text_take : (n : ℕ) (s : String) → text_length (text_take n s) ≤ n
unfolding text_take
text_length-text_take zero s = omega arith
text_length-text_take (suc n) [] = omega arith
text_length-text_take (suc n) (c ∷ s) = omega (arith, text_length-text_take n s)

all_chars-text_take :
    (p : Char → Bool) (n : ℕ) (s : String)
    → all_chars p s ≡ true
    → all_chars p (text_take n s) ≡ true
unfolding all_chars text_take
all_chars-text_take p zero s h = refl
all_chars-text_take p (suc n) [] h = refl
all_chars-text_take p (suc n) (c ∷ s) h = ground (arith, all_chars-text_take p n s)

is_bucket_name-text_take :
    (n : ℕ) (s : String) → is_bucket_name s ≡ true → is_bucket_name (text_take n s) ≡ true
unfolding is_bucket_name text_take
is_bucket_name-text_take zero s h = refl
is_bucket_name-text_take (suc n) [] h = refl
is_bucket_name-text_take (suc zero) (c ∷ []) h = h
is_bucket_name-text_take (suc (suc n)) (c ∷ []) h = h
is_bucket_name-text_take (suc zero) (c ∷ d ∷ s) h = ground arith
is_bucket_name-text_take (suc (suc n)) (c ∷ d ∷ s) h =
    ground (arith, all_chars-text_take is_name_char n s)

-- A text of the right characters whose first is no digit and no dash.
is_bucket_name-drop_second :
    (s : String)
    → all_chars is_name_char s ≡ true
    → starts_without (λ c. is_digit c || is_dash c) s ≡ true
    → is_bucket_name (drop_second s) ≡ true
unfolding all_chars starts_without is_bucket_name
is_bucket_name-drop_second [] h f = refl
is_bucket_name-drop_second (c ∷ s) h f =
    let letter : is_letter c ≡ true = ground arith in
    rw letter (
      by_rest (drop_leading is_dash s)
        (all_chars-drop_leading is_name_char is_dash s (ground arith))
        (starts_without-drop_leading is_dash s) letter)
  where
    by_rest :
        (r : String)
        → all_chars is_name_char r ≡ true
        → starts_without is_dash r ≡ true
        → is_letter c ≡ true
        → is_bucket_name (c ∷ r) ≡ true
    by_rest [] h f l = l
    by_rest (d ∷ r) h f l = ground arith

is_bucket_name-all_chars : (s : String) → is_bucket_name s ≡ true → all_chars is_name_char s ≡ true
unfolding is_bucket_name all_chars
is_bucket_name-all_chars [] h = refl
is_bucket_name-all_chars (c ∷ []) h = ground arith
is_bucket_name-all_chars (c ∷ d ∷ s) h = ground arith

is_bucket_name-starts_without :
    (s : String) → is_bucket_name s ≡ true → starts_without (λ c. is_digit c || is_dash c) s ≡ true
unfolding is_bucket_name starts_without
is_bucket_name-starts_without [] h = refl
is_bucket_name-starts_without (c ∷ []) h = ground arith
is_bucket_name-starts_without (c ∷ d ∷ s) h = ground arith

is_bucket_name-stays : (s : String) → is_bucket_name s ≡ true → drop_second s ≡ s
unfolding is_bucket_name drop_leading
is_bucket_name-stays [] h = refl
is_bucket_name-stays (c ∷ []) h = ground arith
is_bucket_name-stays (c ∷ d ∷ s) h =
    let second : is_dash d ≡ false = ground arith in
    let first : is_letter c ≡ true = ground arith in rw first (rw second refl)

abbrev class : Char → Bool
class c = is_digit c || is_dash c

-- A sanitized bucket name has at most 100 characters, each of them in [a-z0-9_-], the first a
-- letter and the second a letter or a digit where there are such, whatever the tables for lower
-- case say.
pub sanitize_bucket_name_bounded :
    (to_lower : String → String) (name : String)
    → (is_bucket_name (sanitize_bucket_name to_lower name) ≡ true)
      × (text_length (sanitize_bucket_name to_lower name) ≤ 100)
unfolding sanitize_bucket_name
sanitize_bucket_name_bounded to_lower name =
    let kept = keep_chars is_name_char (to_lower name) in
    let from_letter = drop_leading class kept in
    let good : is_bucket_name (drop_second from_letter) ≡ true =
      is_bucket_name-drop_second from_letter
        (all_chars-drop_leading is_name_char class kept
          (all_chars-keep_chars is_name_char (to_lower name)))
        (starts_without-drop_leading class kept) in
    let cut = text_length-text_take 100 (drop_second from_letter) in
    let good_cut = is_bucket_name-text_take 100 (drop_second from_letter) good in
    (ground arith, ground arith)

-- A name of 100 characters at most that has the form of a bucket name, and that the tables for
-- lower case leave as it is, is not changed by the sanitizing.
pub sanitize_bucket_name_same :
    (to_lower : String → String) (name : String)
    → is_bucket_name name ≡ true
    → text_length name ≤ 100
    → to_lower name ≡ name
    → sanitize_bucket_name to_lower name ≡ name
unfolding sanitize_bucket_name
sanitize_bucket_name_same to_lower name h l e =
    let kept = keep_chars is_name_char (to_lower name) in
    let same_kept : kept ≡ name =
      ap (keep_chars is_name_char) e
      ∙ keep_chars_all is_name_char name (is_bucket_name-all_chars name h) in
    let same : drop_second (drop_leading class kept) ≡ name =
      ap (λ z. drop_second (drop_leading class z)) same_kept
      ∙ ap drop_second (drop_leading_none class name (is_bucket_name-starts_without name h))
      ∙ is_bucket_name-stays name h in
    let fits : ltb 100 (text_length (drop_second (drop_leading class kept))) ≡ false =
      ap (λ z. ltb 100 (text_length z)) same ∙ ground arith in
    rw fits same
