-- ===== src/Connector/UserCode/Typed.antt =====
-- How a code that was drawn is read when its letters are typed in either case.
use Prim.Native.Char.{Char}
use chief_everything_officer.Base.{
  ℕ, String, Bool, true, false, some, List, [], ◌∷◌, ◌++◌, length, ◌≡◌, refl, ap, arith, All,
  All-imp, All-append, if◌then◌else◌,
}
use chief_everything_officer.OAuth.Scope.{is_space, trim, trim_start}
use chief_everything_officer.OAuth.Scope.Words.{NoSpace, trim_end-NoSpace}
use chief_everything_officer.Connector.UserCode.Symbols.{
  cased, Sym, IsTypable, Sym-IsTypable, hyphen-IsTypable, drawn, drawn-Sym,
}
use chief_everything_officer.Connector.UserCode.{
  chars, text, hyphen, is_char, draw_symbols, generate_user_code, to_upper_case, includes,
  match_symbols, match_hyphen, is_user_code, hyphenate, normalize_device_user_code,
}

-- Each letter of a text in the case of its flag.
unfoldable pub typed : List Bool → List Char → List Char
unfolding cased
typed flags [] = []
typed [] (c ∷ cs) = cased false c ∷ typed [] cs
typed (b ∷ flags) (c ∷ cs) = cased b c ∷ typed flags cs

-- Reading a text without white space.
chars-NoSpace : (cs : List Char) → All (λ c. is_space c ≡ false) cs → NoSpace (text cs)
chars-NoSpace [] h = tt
chars-NoSpace (c ∷ cs) h = (h.0, chars-NoSpace cs h.1)

trim_start-NoSpace : (s : String) → NoSpace s → trim_start s ≡ s
unfolding trim_start
trim_start-NoSpace String.[] h = refl
trim_start-NoSpace (String.◌∷◌ c s) h = ground (arith, h.0)

chars-text : (cs : List Char) → chars (text cs) ≡ cs
chars-text [] = refl
chars-text (c ∷ cs) = ap (◌∷◌ c) (chars-text cs)

chars-trim : (cs : List Char) → All (λ c. is_space c ≡ false) cs → chars (trim (text cs)) ≡ cs
unfolding trim
chars-trim cs h =
    rw (trim_start-NoSpace (text cs) (chars-NoSpace cs h))
      (rw (trim_end-NoSpace (text cs) (chars-NoSpace cs h)) (chars-text cs))

to_upper_case-typed :
    (flags : List Bool) (cs : List Char) → All IsTypable cs → to_upper_case (typed flags cs) ≡ cs
unfolding to_upper_case typed
to_upper_case-typed [] [] h = refl
to_upper_case-typed (b ∷ flags) [] h = refl
to_upper_case-typed [] (c ∷ cs) h = rw (h.0.0 false) (ap (◌∷◌ c) (to_upper_case-typed [] cs h.1))
to_upper_case-typed (b ∷ flags) (c ∷ cs) h =
    rw (h.0.0 b) (ap (◌∷◌ c) (to_upper_case-typed flags cs h.1))

typed-no_space :
    (flags : List Bool) (cs : List Char)
    → All IsTypable cs
    → All (λ c. is_space c ≡ false) (typed flags cs)
unfolding typed
typed-no_space [] [] h = tt
typed-no_space (b ∷ flags) [] h = tt
typed-no_space [] (c ∷ cs) h = (h.0.1 false, typed-no_space [] cs h.1)
typed-no_space (b ∷ flags) (c ∷ cs) h = (h.0.1 b, typed-no_space flags cs h.1)

-- A text without its hyphens.
unfoldable pub bare : List Char → List Char
unfolding is_char
bare [] = []
bare (c ∷ cs) = let rest = bare cs in if is_char c hyphen then rest else c ∷ rest

Symbols : List Char → Type 0
Symbols = All Sym

bare-Symbols : (cs : List Char) → Symbols cs → bare cs ≡ cs
unfolding bare Symbols
bare-Symbols [] h = refl
bare-Symbols (c ∷ cs) h = ground (arith, bare-Symbols cs h.1, h.0.no_hyphen)

bare-hyphen : (xs ys : List Char) → Symbols xs → Symbols ys → bare (xs ++ hyphen ∷ ys) ≡ xs ++ ys
unfolding bare Symbols
bare-hyphen [] ys h k = unfold is_char in bare-Symbols ys k
bare-hyphen (c ∷ cs) ys h k = ground (arith, bare-hyphen cs ys h.1 k, h.0.no_hyphen)

includes-hyphen : (cs : List Char) → Symbols cs → includes cs hyphen ≡ false
unfolding includes Symbols
includes-hyphen [] h = refl
includes-hyphen (c ∷ cs) h = ground (arith, includes-hyphen cs h.1, h.0.no_hyphen)

Symbols-IsTypable : (cs : List Char) → Symbols cs → All IsTypable cs
unfolding Symbols
Symbols-IsTypable cs h = All-imp Sym IsTypable Sym-IsTypable cs h

match_symbols-Symbols :
    (cs tail : List Char) → Symbols cs → match_symbols (length cs) (cs ++ tail) ≡ some tail
unfolding match_symbols Symbols
match_symbols-Symbols [] tail h = refl
match_symbols-Symbols (c ∷ cs) tail h =
    ground (arith, match_symbols-Symbols cs tail h.1, h.0.symbol)

-- A hyphen between two groups of four symbols makes a code, and a missing one is inserted.
module _ (a b c d e f g h : Char) where
  module _ (left : Symbols (a ∷ b ∷ c ∷ d ∷ [])) (right : Symbols (e ∷ f ∷ g ∷ h ∷ [])) where
    is_user_code-grouped : is_user_code (a ∷ b ∷ c ∷ d ∷ hyphen ∷ e ∷ f ∷ g ∷ h ∷ []) ≡ true
    unfolding is_user_code match_hyphen is_char
    is_user_code-grouped =
        let one = match_symbols-Symbols (a ∷ b ∷ c ∷ d ∷ []) (hyphen ∷ e ∷ f ∷ g ∷ h ∷ []) left in
        let two = match_symbols-Symbols (e ∷ f ∷ g ∷ h ∷ []) [] right in ground (arith, one, two)

    hyphenate-bare :
        hyphenate (a ∷ b ∷ c ∷ d ∷ e ∷ f ∷ g ∷ h ∷ []) ≡ a ∷ b ∷ c ∷ d ∷ hyphen ∷ e ∷ f ∷ g ∷ h ∷ []
    unfolding hyphenate Symbols
    hyphenate-bare =
        let none_there =
          includes-hyphen (a ∷ b ∷ c ∷ d ∷ e ∷ f ∷ g ∷ h ∷ [])
            (left.0, (left.1.0, (left.1.1.0, (left.1.1.1.0, right)))) in
        ground (arith, none_there)

-- Reading a text typed in either case is testing and hyphenating the characters themselves.
normalize-typed :
    (flags : List Bool) (cs code : List Char)
    → All IsTypable cs
    → hyphenate cs ≡ code
    → is_user_code code ≡ true
    → normalize_device_user_code (text (typed flags cs)) ≡ some (text code)
unfolding normalize_device_user_code
normalize-typed flags cs code h e ok =
    let read : hyphenate (to_upper_case (chars (trim (text (typed flags cs))))) ≡ code =
      rw (chars-trim (typed flags cs) (typed-no_space flags cs h))
        (rw (to_upper_case-typed flags cs h) e) in
    rw read (ground (arith, ok))

drawn-four : (a b c d : ℕ) → Symbols (drawn a ∷ drawn b ∷ drawn c ∷ drawn d ∷ [])
unfolding Symbols
drawn-four a b c d = (drawn-Sym a, (drawn-Sym b, (drawn-Sym c, (drawn-Sym d, tt))))

Symbols-append : (xs ys : List Char) → Symbols xs → Symbols ys → Symbols (xs ++ ys)
unfolding Symbols
Symbols-append xs ys h k = All-append Sym xs ys h k

-- A drawn code is read back as it was drawn when its letters are typed in any mixture of cases,
-- with its hyphen or without.
pub normalize-generate :
    (a b c d e f g h : ℕ) (flags : List Bool)
    → let code = generate_user_code (a ∷ b ∷ c ∷ d ∷ e ∷ f ∷ g ∷ h ∷ []) in
      (normalize_device_user_code (text (typed flags (chars code))) ≡ some code)
      × (normalize_device_user_code (text (typed flags (bare (chars code)))) ≡ some code)
unfolding generate_user_code draw_symbols
normalize-generate a b c d e f g h flags =
    let left = drawn-four a b c d in
    let right = drawn-four e f g h in
    let xs = drawn a ∷ drawn b ∷ drawn c ∷ drawn d ∷ [] in
    let ys = drawn e ∷ drawn f ∷ drawn g ∷ drawn h ∷ [] in
    let valid =
      is_user_code-grouped (drawn a) (drawn b) (drawn c) (drawn d) (drawn e) (drawn f) (drawn g)
        (drawn h) left right in
    let inserted =
      hyphenate-bare (drawn a) (drawn b) (drawn c) (drawn d) (drawn e) (drawn f) (drawn g) (drawn h)
        left right in
    let typable : All IsTypable (xs ++ hyphen ∷ ys) =
      All-append IsTypable xs (hyphen ∷ ys) (Symbols-IsTypable xs left)
        (hyphen-IsTypable, Symbols-IsTypable ys right) in
    let bare_typable : All IsTypable (xs ++ ys) =
      Symbols-IsTypable (xs ++ ys) (Symbols-append xs ys left right) in
    (
      normalize-typed flags (xs ++ hyphen ∷ ys) (xs ++ hyphen ∷ ys) typable
          (unfold hyphenate in refl) valid,
      rw (bare-hyphen xs ys left right)
          (normalize-typed flags (xs ++ ys) (xs ++ hyphen ∷ ys) bare_typable inserted valid),
    )
