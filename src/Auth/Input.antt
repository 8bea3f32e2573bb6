-- ===== src/Auth/Input.antt =====
-- src/modules/auth/auth-input.ts.
use chattea_be.Prelude.{
  ℕ, zero, suc, Bool, false, not, ◌&&◌, ◌||◌, Option, none, some, [], ◌∷◌, ◌+◌, ltb, leb, ◌==◌,
  if◌then◌else◌, Option,
}
use chattea_be.Prelude.Text.{Text, is_space, trim, text_eq}

-- `Buffer.byteLength(s, "utf8")`: the second half of a surrogate pair adds one to the three bytes
-- of the first.
abbrev pub is_high : ℕ → Bool
is_high c = leb 0xd800 c && ltb c 0xdc00

abbrev pub is_low : ℕ → Bool
is_low c = leb 0xdc00 c && ltb c 0xe000

unfoldable pub byte_length : Bool → Text → ℕ
byte_length after_high [] = 0
byte_length after_high (c ∷ s) =
    if after_high && is_low c
    then 1 + byte_length false s
    else (if ltb c 0x80 then 1 else if ltb c 0x800 then 2 else 3) + byte_length (is_high c) s

unfoldable pub is_valid_password : Text → Bool
is_valid_password s = leb 8 (byte_length false s) && leb (byte_length false s) 72

-- `Array.from(s).length`: a surrogate pair is one character.
unfoldable pub char_count : Bool → Text → ℕ
char_count after_high [] = 0
char_count after_high (c ∷ s) =
    let rest = char_count (is_high c && not (after_high && is_low c)) s in
    if after_high && is_low c then rest else 1 + rest

-- `Array.from(s).slice(0, n).join("")`
pub first_chars : ℕ → Bool → Text → Text
first_chars n after_high [] = []
first_chars zero after_high (c ∷ s) = if after_high && is_low c then c ∷ [] else []
first_chars (suc n) after_high (c ∷ s) =
    if after_high && is_low c
    then c ∷ first_chars (suc n) false s
    else c ∷ first_chars n (is_high c) s

-- /[^\s@.]+(?:\.[^\s@.]+)*/ for a whole text: how many parts it has between its dots.
unfoldable pub part_count : Bool → Text → Option ℕ
part_count in_part [] = if in_part then some 1 else none
part_count in_part (c ∷ s) =
    let next = part_count (not (c == 46)) s in
    if c == 46
    then if in_part then elim next [ none ↦ none | some n ↦ some (1 + n) ] else none
    else if is_space c || c == 64
    then none
    else next

unfoldable pub before_at : Text → Text
before_at [] = []
before_at (c ∷ s) = if c == 64 then [] else c ∷ before_at s

-- What follows the first @.
unfoldable pub after_at : Text → Option Text
after_at [] = none
after_at (c ∷ s) = if c == 64 then some s else after_at s

abbrev pub has_parts : ℕ → Text → Bool
has_parts n s = elim (part_count false s) [ none ↦ false | some m ↦ leb n m ]

-- EMAIL_PATTERN
unfoldable pub is_email : Text → Bool
is_email s = elim (after_at s) [
  | none ↦ false
  | some domain ↦ has_parts 1 (before_at s) && has_parts 2 domain
]

unfoldable pub is_valid_email : Text → Bool
is_valid_email s = is_email s && leb (char_count false s) 255

unfoldable pub normalize_email : Text → Option Text
normalize_email s = if is_valid_email (trim s) then some (trim s) else none

abbrev pub normalize_optional_email : Option Text → Option Text
normalize_optional_email none = none
normalize_optional_email (some s) = normalize_email s

unfoldable pub normalize_user_name : Text → Option Text
normalize_user_name s =
    if text_eq (trim s) [] || ltb 40 (char_count false (trim s)) then none else some (trim s)

abbrev pub normalize_optional_user_name : Option Text → Option Text
normalize_optional_user_name none = none
normalize_optional_user_name (some s) =
    if text_eq (trim s) [] then none else some (first_chars 40 false (trim s))

unfoldable pub normalize_signin_email : Text → Option Text
normalize_signin_email s =
    if text_eq (trim s) [] || ltb 255 (char_count false (trim s)) then none else some (trim s)
