-- ===== src/Connector/UserCode/Symbols.antt =====
-- The symbols of the user codes, and what reading one in either case gives.
use Prim.Native.Char.{Char}
use chief_everything_officer.Base.{
  ℕ, zero, suc, ◌<◌, ◌%◌, Bool, true, false, List, [], ◌∷◌, map, length, ◌≡◌, refl, arith,
}
use chief_everything_officer.OAuth.Scope.{is_space}
use chief_everything_officer.Connector.UserCode.{
  alphabet, hyphen, is_char, char_at, translate, lower_letters, upper_letters, upper_of, includes,
}

-- A letter in the case that is asked for.
unfoldable pub cased : Bool → Char → Char
unfolding translate
cased true c = translate upper_letters lower_letters c
cased false c = c

-- What reading a symbol of a code depends on, for each case.
pub record Sym (c : Char) : Type 0 where
  pub upper : (b : Bool) → upper_of (cased b c) ≡ c ∷ []
  pub space : (b : Bool) → is_space (cased b c) ≡ false
  pub symbol : includes alphabet c ≡ true
  pub no_hyphen : is_char c hyphen ≡ false

module _ {ℓ} {A : Type ℓ} (f g : Char → A) where
  char_at-map :
      (cs : List Char) (i : ℕ)
      → map f cs ≡ map g cs
      → i < length cs
      → f (char_at cs i) ≡ g (char_at cs i)
  unfolding char_at
  char_at-map [] i h lt = absurd (omega arith)
  char_at-map (c ∷ cs) zero h lt = cc
  char_at-map (c ∷ cs) (suc i) h lt =
      (let e : map f cs ≡ map g cs = cc in char_at-map cs i e (omega arith))

-- The facts of every symbol, each for the whole alphabet by computation.
symbol-upper_of :
    (b : Bool) (i : ℕ) → i < 30 → upper_of (cased b (char_at alphabet i)) ≡ char_at alphabet i ∷ []
symbol-upper_of true i lt =
    char_at-map (λ c. upper_of (cased true c)) (λ c. c ∷ []) alphabet i
      (unfold upper_of cased translate is_char in refl) lt
symbol-upper_of false i lt =
    char_at-map (λ c. upper_of (cased false c)) (λ c. c ∷ []) alphabet i
      (unfold upper_of cased translate is_char in refl) lt

symbol-is_space : (b : Bool) (i : ℕ) → i < 30 → is_space (cased b (char_at alphabet i)) ≡ false
symbol-is_space true i lt =
    char_at-map (λ c. is_space (cased true c)) (λ c. false) alphabet i
      (unfold is_space cased translate is_char in refl) lt
symbol-is_space false i lt =
    char_at-map (λ c. is_space (cased false c)) (λ c. false) alphabet i
      (unfold is_space cased translate is_char in refl) lt

pub symbol-Sym : (i : ℕ) → i < 30 → Sym (char_at alphabet i)
symbol-Sym i lt = record {
  upper = λ b. symbol-upper_of b i lt;
  space = λ b. symbol-is_space b i lt;
  symbol =
      char_at-map (includes alphabet) (λ c. true) alphabet i (unfold includes is_char in refl) lt;
  no_hyphen =
      char_at-map (λ c. is_char c hyphen) (λ c. false) alphabet i (unfold is_char in refl) lt;
}

-- What typing in either case keeps of a text: a hyphen is typed as it is.
abbrev pub IsTypable : Char → Type 0
IsTypable c =
    ((b : Bool) → upper_of (cased b c) ≡ c ∷ []) × ((b : Bool) → is_space (cased b c) ≡ false)

pub Sym-IsTypable : (c : Char) → Sym c → IsTypable c
Sym-IsTypable c h = (h.upper, h.space)

hyphen-upper_of : (b : Bool) → upper_of (cased b hyphen) ≡ hyphen ∷ []
unfolding upper_of cased translate is_char
hyphen-upper_of true = refl
hyphen-upper_of false = refl

hyphen-is_space : (b : Bool) → is_space (cased b hyphen) ≡ false
unfolding is_space cased translate is_char
hyphen-is_space true = refl
hyphen-is_space false = refl

pub hyphen-IsTypable : IsTypable hyphen
hyphen-IsTypable = (hyphen-upper_of, hyphen-is_space)

-- The symbol that a byte draws.
abbrev pub drawn : ℕ → Char
drawn b = char_at alphabet (b % length alphabet)

pub drawn-Sym : (b : ℕ) → Sym (drawn b)
drawn-Sym b = symbol-Sym (b % 30) (omega arith)
