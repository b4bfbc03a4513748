-- ===== src/OAuth/Scope/Words.antt =====
-- Words without white space, and what splitting and joining do with them.
use Prim.Native.Char.{Char}
use Prim.Native.String
use text.Mathlib.TextLemmas.{nil-append, cons-append, append-nil, append_assoc}
use chief_everything_officer.Base.{
  String, Bool, true, false, List, [], ◌∷◌, ◌≡◌, refl, sym, ◌∙◌, ap, arith, All,
}
use chief_everything_officer.OAuth.Scope.{
  is_space, is_empty, push, split_from, split_spaces, filter_truthy, scope_tokens, join_words,
  trim_start, trim_end, trim,
}

-- No character of the text is white space.
abbrev pub NoSpace : String → Type 0
NoSpace String.[] = Unit
NoSpace (String.◌∷◌ c s) = (is_space c ≡ false) × NoSpace s

abbrev pub IsWord : String → Type 0
IsWord w = (is_empty w ≡ false) × NoSpace w

NoSpace-push : (w : String) (c : Char) → NoSpace w → is_space c ≡ false → NoSpace (push w c)
NoSpace-push String.[] c h p = rw nil-append (p, tt)
NoSpace-push (String.◌∷◌ d w) c h p = rw cons-append (h.0, NoSpace-push w c h.1 p)

split_from-NoSpace : (gap : Bool) (w s : String) → NoSpace w → All NoSpace (split_from gap w s)
unfolding split_from
split_from-NoSpace gap w String.[] h = (h, tt)
split_from-NoSpace gap w (String.◌∷◌ c s) h = ground (
  arith,
  split_from-NoSpace false (push w c) s,
  NoSpace-push w c h,
  split_from-NoSpace true w s h,
  split_from-NoSpace true "" s tt,
)

filter_truthy-IsWord : (ws : List String) → All NoSpace ws → All IsWord (filter_truthy ws)
unfolding filter_truthy
filter_truthy-IsWord [] h = tt
filter_truthy-IsWord (w ∷ ws) h = ground (arith, filter_truthy-IsWord ws h.1)

-- Every token of a scope string is a word.
pub scope_tokens-IsWord : (s : String) → All IsWord (scope_tokens s)
unfolding scope_tokens split_spaces
scope_tokens-IsWord s = filter_truthy-IsWord _ (split_from-NoSpace false "" (trim s) tt)

split_step :
    (gap : Bool) (w : String) (c : Char) (s : String)
    → is_space c ≡ false
    → split_from gap w (String.◌∷◌ c s) ≡ split_from false (push w c) s
unfolding split_from
split_step gap w c s h = ground arith

-- A word is read onto the word so far.
split_word :
    (w v s : String)
    → NoSpace v
    → split_from false w (String.◌++◌ v s) ≡ split_from false (String.◌++◌ w v) s
split_word w String.[] s h = rw (nil-append, append-nil)
split_word w (String.◌∷◌ c v) s h =
    rw (cons-append, split_step false w c (String.◌++◌ v s) h.0, split_word (push w c) v s h.1)
      (rw append_assoc (rw cons-append (rw nil-append)))

-- After a separator too, where the word so far is empty.
split_word_fresh :
    (gap : Bool) (v s : String)
    → IsWord v
    → split_from gap "" (String.◌++◌ v s) ≡ split_from false v s
split_word_fresh gap String.[] s h = cc (h.0)
split_word_fresh gap (String.◌∷◌ c v) s h =
    rw (cons-append, split_step gap "" c (String.◌++◌ v s) h.1.0, split_word (push "" c) v s h.1.1)
      (rw nil-append (rw cons-append (rw nil-append)))

split_blank : (w s : String) → split_from false w (String.◌++◌ " " s) ≡ w ∷ split_from true "" s
unfolding split_from is_space
split_blank w s = rw cons-append (rw nil-append)

filter-word :
    (w : String) (ws : List String)
    → is_empty w ≡ false
    → filter_truthy (w ∷ ws) ≡ w ∷ filter_truthy ws
unfolding filter_truthy
filter-word w ws h = ground arith

split_end : (gap : Bool) (w : String) → IsWord w → split_from gap "" w ≡ w ∷ []
unfolding split_from
split_end gap w h = ap (split_from gap "") (sym (append-nil w)) ∙ split_word_fresh gap w "" h

filter-one : (w : String) → is_empty w ≡ false → filter_truthy (w ∷ []) ≡ w ∷ []
unfolding filter_truthy
filter-one w h = ground arith

split-join :
    (gap : Bool) (ws : List String)
    → All IsWord ws
    → filter_truthy (split_from gap "" (join_words ws)) ≡ ws
unfolding join_words
split-join gap [] h = unfold split_from filter_truthy in refl
split-join gap (w ∷ []) h = rw (split_end gap w h.0) (filter-one w h.0.0)
split-join gap (w ∷ v ∷ ws) h =
    rw (split_word_fresh gap w (String.◌++◌ " " (join_words (v ∷ ws))) h.0) (
      rw (split_blank w (join_words (v ∷ ws)))
        (rw (filter-word w _ h.0.0) (ap (◌∷◌ w) (split-join true (v ∷ ws) h.1))))

-- A joined text neither begins nor ends with white space, so `trim` keeps it.
trim_start-word : (w s : String) → IsWord w → trim_start (String.◌++◌ w s) ≡ String.◌++◌ w s
unfolding trim_start
trim_start-word String.[] s h = cc (h.0)
trim_start-word (String.◌∷◌ c w) s h = rw cons-append (ground (arith, h.1.0))

pub trim_end-NoSpace : (w : String) → NoSpace w → trim_end w ≡ w
unfolding trim_end
trim_end-NoSpace String.[] h = refl
trim_end-NoSpace (String.◌∷◌ c w) h = ground (arith, trim_end-NoSpace w h.1)

is_empty-append : (w s : String) → is_empty s ≡ false → is_empty (String.◌++◌ w s) ≡ false
is_empty-append String.[] s h = rw nil-append h
is_empty-append (String.◌∷◌ c w) s h = rw cons-append refl

trim_end-append :
    (w s : String)
    → is_empty s ≡ false
    → trim_end s ≡ s
    → trim_end (String.◌++◌ w s) ≡ String.◌++◌ w s
unfolding trim_end
trim_end-append String.[] s h e = rw nil-append e
trim_end-append (String.◌∷◌ c w) s h e =
    rw cons-append (ground (arith, trim_end-append w s h e, is_empty-append w s h))

join_words-nonempty :
    (w : String) (ws : List String) → IsWord w → is_empty (join_words (w ∷ ws)) ≡ false
unfolding join_words
join_words-nonempty w [] h = h.0
join_words-nonempty (String.[]) (v ∷ ws) h = cc (h.0)
join_words-nonempty (String.◌∷◌ c w) (v ∷ ws) h = rw cons-append refl

trim_end-join : (ws : List String) → All IsWord ws → trim_end (join_words ws) ≡ join_words ws
unfolding join_words
trim_end-join [] h = unfold trim_end in refl
trim_end-join (w ∷ []) h = trim_end-NoSpace w h.0.1
trim_end-join (w ∷ v ∷ ws) h =
    trim_end-append w _ (rw cons-append refl)
      (trim_end-append " " _ (join_words-nonempty v ws h.1.0) (trim_end-join (v ∷ ws) h.1))

trim_start-join : (ws : List String) → All IsWord ws → trim_start (join_words ws) ≡ join_words ws
unfolding join_words
trim_start-join [] h = unfold trim_start in refl
trim_start-join (w ∷ []) h =
    ap trim_start (sym (append-nil w)) ∙ (trim_start-word w "" h.0 ∙ append-nil w)
trim_start-join (w ∷ v ∷ ws) h = trim_start-word w _ h.0

-- Splitting a joined list of words gives the list back.
scope_tokens-join_words : (ws : List String) → All IsWord ws → scope_tokens (join_words ws) ≡ ws
unfolding scope_tokens trim split_spaces
scope_tokens-join_words ws h = rw (trim_start-join ws h, trim_end-join ws h) (split-join false ws h)

-- So the tokens of a normalised scope string are those of the given one.
pub scope_tokens-join_words-scope_tokens :
    (s : String) → scope_tokens (join_words (scope_tokens s)) ≡ scope_tokens s
scope_tokens-join_words-scope_tokens s = scope_tokens-join_words _ (scope_tokens-IsWord s)
