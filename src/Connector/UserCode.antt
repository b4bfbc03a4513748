-- ===== src/Connector/UserCode.antt =====
-- The user codes of services/server/src/connector/enrollment-store.ts: how one is drawn, and how
-- one that a user types is read.
pub mod Symbols
pub mod Typed
use Prim.Native.Char.{Char, code}
use Prim.Native.String
use chief_everything_officer.Base.{
  ℕ, zero, suc, ◌%◌, String, Bool, true, false, not, Option, none, some, List, [], ◌∷◌, ◌++◌,
  length, ◌&&◌, ◌||◌, nat_eq, if◌then◌else◌,
}
use chief_everything_officer.OAuth.Scope.{trim}

abbrev pub chars : String → List Char
chars String.[] = []
chars (String.◌∷◌ c s) = c ∷ chars s

abbrev pub text : List Char → String
text [] = ""
text (c ∷ cs) = String.◌∷◌ c (text cs)

-- The alphabet of the codes, 30 symbols.
abbrev pub alphabet : List Char
alphabet = chars "23456789ABCDEFGHJKMNPQRSTVWXYZ"

abbrev pub hyphen : Char
hyphen = "-"

unfoldable pub is_char : Char → Char → Bool
is_char c d = nat_eq (code c) (code d)

-- `alphabet[i]`; past the end, where it is never read, the first symbol.
unfoldable pub char_at : List Char → ℕ → Char
char_at [] i = "2"
char_at (c ∷ cs) zero = c
char_at (c ∷ cs) (suc i) = char_at cs i

-- The body of the loop of `generateUserCode` from index `i` on.
unfoldable pub draw_symbols : ℕ → List ℕ → List Char
unfolding char_at
draw_symbols i [] = []
draw_symbols i (b ∷ bytes) =
    let rest = draw_symbols (suc i) bytes in
    char_at alphabet (b % length alphabet) ∷ (if nat_eq i 3 then hyphen ∷ rest else rest)

-- From the eight bytes that `crypto.randomBytes(8)` returns.
unfoldable pub generate_user_code : List ℕ → String
unfolding draw_symbols
generate_user_code bytes = text (draw_symbols 0 bytes)

-- The letter at the same place of the second list.
unfoldable pub translate : List Char → List Char → Char → Char
unfolding is_char
translate [] to c = c
translate (a ∷ from) [] c = c
translate (a ∷ from) (b ∷ to) c = let rest = translate from to c in if is_char c a then b else rest

abbrev pub lower_letters : List Char
lower_letters = chars "abcdefghijklmnopqrstuvwxyz"

abbrev pub upper_letters : List Char
upper_letters = chars "ABCDEFGHIJKLMNOPQRSTUVWXYZ"

-- `toUpperCase` of one character, as far as a code can hold the result: the small letters, and
-- the characters outside ASCII whose upper case is made of symbols. Any other character outside
-- ASCII has one in its upper case too, and so has no place in a code either way.
unfoldable pub upper_of : Char → List Char
unfolding translate
upper_of c =
    if nat_eq (code c) 0xdf
    then chars "SS"
    else if nat_eq (code c) 0x17f
    then chars "S"
    else if nat_eq (code c) 0xfb00
    then chars "FF"
    else if nat_eq (code c) 0xfb05 || nat_eq (code c) 0xfb06
    then chars "ST"
    else translate lower_letters upper_letters c ∷ []

unfoldable pub to_upper_case : List Char → List Char
unfolding upper_of
to_upper_case [] = []
to_upper_case (c ∷ cs) = upper_of c ++ to_upper_case cs

unfoldable pub includes : List Char → Char → Bool
unfolding is_char
includes [] c = false
includes (a ∷ rest) c = is_char c a || includes rest c

abbrev pub insert_hyphen : List Char → List Char
insert_hyphen (a ∷ b ∷ c ∷ d ∷ rest) = a ∷ b ∷ c ∷ d ∷ hyphen ∷ rest
insert_hyphen cs = cs

-- `[…]{n}` of the pattern: what is left after `n` symbols.
unfoldable pub match_symbols : ℕ → List Char → Option (List Char)
unfolding includes
match_symbols zero cs = some cs
match_symbols (suc n) [] = none
match_symbols (suc n) (c ∷ cs) =
    let rest = match_symbols n cs in if includes alphabet c then rest else none

unfoldable pub match_hyphen : List Char → Option (List Char)
unfolding is_char
match_hyphen [] = none
match_hyphen (c ∷ cs) = if is_char c hyphen then some cs else none

abbrev is_end : List Char → Bool
is_end [] = true
is_end (c ∷ cs) = false

-- `USER_CODE_RE.test(s)`.
unfoldable pub is_user_code : List Char → Bool
unfolding match_symbols match_hyphen
is_user_code cs = elim (match_symbols 4 cs) [
  | none ↦ false
  | some tail ↦ elim (match_hyphen tail) [
    | none ↦ false
    | some tail ↦ elim (match_symbols 4 tail) [ none ↦ false | some tail ↦ is_end tail ]
  ]
]

-- The length counts code points, where the code counts UTF-16 units: they differ for texts that
-- the pattern refuses in any case.
unfoldable pub hyphenate : List Char → List Char
unfolding includes
hyphenate cs = if nat_eq (length cs) 8 && not (includes cs hyphen) then insert_hyphen cs else cs

-- `none` stands for the validation error.
unfoldable pub normalize_device_user_code : String → Option String
unfolding to_upper_case hyphenate is_user_code
normalize_device_user_code raw =
    let s = hyphenate (to_upper_case (chars (trim raw))) in
    if is_user_code s then some (text s) else none
