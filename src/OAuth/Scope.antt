-- ===== src/OAuth/Scope.antt =====
-- Scope strings of services/server/src/oauth/service.ts: `trim()`, `split(/\s+/)`,
-- `filter(Boolean)` and `join(" ")`, by code points.
pub mod Words
use Prim.Native.Char.{Char, code}
use Prim.Native.String
use chief_everything_officer.Base.{
  String, Bool, true, false, not, Option, none, some, List, [], ◌∷◌, ◌&&◌, ◌||◌, ◌==◌, leb, nat_eq,
  if◌then◌else◌,
}

-- The white space of JavaScript's `\s` and `trim`.
unfoldable pub is_space : Char → Bool
is_space c =
    leb 9 (code c) && leb (code c) 13
    || (nat_eq (code c) 32
        || (nat_eq (code c) 160
            || (nat_eq (code c) 0x1680
                || (leb 0x2000 (code c) && leb (code c) 0x200a
                    || (nat_eq (code c) 0x2028
                        || (nat_eq (code c) 0x2029
                            || (nat_eq (code c) 0x202f
                                || (nat_eq (code c) 0x205f
                                    || (nat_eq (code c) 0x3000 || nat_eq (code c) 0xfeff)))))))))

abbrev pub is_empty : String → Bool
is_empty String.[] = true
is_empty (String.◌∷◌ c s) = false

unfoldable pub trim_start : String → String
trim_start String.[] = ""
trim_start (String.◌∷◌ c s) = let rest = trim_start s in if is_space c then rest else String.◌∷◌ c s

-- A space is dropped when nothing but spaces follows it.
unfoldable pub trim_end : String → String
trim_end String.[] = ""
trim_end (String.◌∷◌ c s) =
    let rest = trim_end s in if is_space c && is_empty rest then "" else String.◌∷◌ c rest

unfoldable pub trim : String → String
unfolding trim_start trim_end is_space
trim s = trim_end (trim_start s)

abbrev pub push : String → Char → String
push s c = String.◌++◌ s (String.◌∷◌ c "")

-- `in_gap` says that the character before was a separator, and `word` is the word so far.
pub split_from : Bool → String → String → List String
split_from in_gap word String.[] = word ∷ []
split_from in_gap word (String.◌∷◌ c s) =
    let in_word = split_from false (push word c) s in
    let more_gap = split_from true word s in
    let closed = word ∷ split_from true "" s in
    if not (is_space c) then in_word else if in_gap then more_gap else closed

unfoldable pub split_spaces : String → List String
unfolding split_from is_space
split_spaces s = split_from false "" s

unfoldable pub filter_truthy : List String → List String
filter_truthy [] = []
filter_truthy (w ∷ ws) = if is_empty w then filter_truthy ws else w ∷ filter_truthy ws

-- `s.trim().split(/\s+/).filter(Boolean)`.
unfoldable pub scope_tokens : String → List String
unfolding trim split_spaces filter_truthy
scope_tokens s = filter_truthy (split_spaces (trim s))

unfoldable pub join_words : List String → String
join_words [] = ""
join_words (w ∷ []) = w
join_words (w ∷ v ∷ ws) = String.◌++◌ w (String.◌++◌ " " (join_words (v ∷ ws)))

-- `Set.has` and `includes`.
unfoldable pub has : List String → String → Bool
has [] s = false
has (w ∷ ws) s = w == s || has ws s

unfoldable pub all_in : List String → List String → Bool
unfolding has
all_in allowed [] = true
all_in allowed (w ∷ ws) = has allowed w && all_in allowed ws

pub data ScopeError : Type 0 where
  unsupported missing_mcp : ScopeError

pub data Scoped : Type 0 where
  scope : String → Scoped
  rejected : ScopeError → Scoped

abbrev pub allowed_scopes : List String
allowed_scopes = "mcp" ∷ "offline_access" ∷ []

-- An absent or empty scope asks for "mcp".
abbrev pub raw_scope : Option String → String
raw_scope none = "mcp"
raw_scope (some s) = if is_empty s then "mcp" else s

unfoldable pub requested_scope : Option String → Scoped
requested_scope given =
    let tokens = scope_tokens (raw_scope given) in
    if not (all_in allowed_scopes tokens)
    then rejected unsupported
    else if not (has tokens "mcp")
    then rejected missing_mcp
    else scope (join_words tokens)

-- A refresh may narrow the scope and not widen it; without one it stays.
unfoldable pub narrowed_scope : String → Option String → Option String
narrowed_scope existing none = some existing
narrowed_scope existing (some given) =
    let tokens = scope_tokens given in
    if is_empty given
    then some existing
    else if all_in (split_spaces existing) tokens
    then some (join_words tokens)
    else none
