-- ===== src/Xsmp/Command/Quoting.antt =====
-- How the text of a command is read back. mate-session/gsm-session-save.c gives a discard command to
-- `g_shell_parse_argv`, which has the quotes of a shell, but neither its expansions nor its
-- assignments, and refuses a text without words. `words` is a reference for these rules: blanks
-- separate words, single quotes take everything up to the next one as it is, and letters, digits
-- and a few signs stand for themselves. Any other byte outside of quotes may mean something else,
-- and then, as for a text with a zero, the reference has no answer.
use mate_session_manager.Base.{
  ℕ, ◌≡◌, refl, ap, ◌∙◌, Bool, true, false, not, ◌||◌, Option, none, some, List, [], ◌∷◌, ◌++◌,
  if◌then◌else◌, is_nil, ◌==◌, arith, Bool-cases, inl, inr, contains,
}
use mate_session_manager.Xsmp.Command.{
  quote, space, is_safe, need_quotes, up_to_nul, quoted, word, more_words, prop_to_command,
}

-- Where the reader is: between words, in a word, or in quotes.
pub data Place : Type 0 where
  between inside quoting : Place

abbrev add_byte : ℕ → Option (List ℕ × List (List ℕ)) → Option (List ℕ × List (List ℕ))
add_byte c none = none
add_byte c (some (w, ws)) = some (c ∷ w, ws)

-- What was read is a word of its own.
abbrev cut_word : Option (List ℕ × List (List ℕ)) → Option (List ℕ × List (List ℕ))
cut_word none = none
cut_word (some (w, ws)) = some ([], w ∷ ws)

-- The rest of the word that is being read, and the words after it.
unfoldable pub scan : Place → List ℕ → Option (List ℕ × List (List ℕ))
scan between [] = some ([], [])
scan between (c ∷ r) =
    let blank = scan between r in
    let word_in_quotes = cut_word (scan quoting r) in
    let plain_word = cut_word (add_byte c (scan inside r)) in
    if c == space
    then blank
    else if c == quote
    then word_in_quotes
    else if is_safe c
    then plain_word
    else none
scan inside [] = some ([], [])
scan inside (c ∷ r) =
    let blank = scan between r in
    let in_quotes = scan quoting r in
    let plain = add_byte c (scan inside r) in
    if c == space
    then blank
    else if c == quote
    then in_quotes
    else if is_safe c
    then plain
    else none
scan quoting [] = none
scan quoting (c ∷ r) =
    let closed = scan inside r in
    let more = add_byte c (scan quoting r) in if c == quote then closed else more

abbrev words_of : Option (List ℕ × List (List ℕ)) → Option (List (List ℕ))
words_of none = none
words_of (some (_, [])) = none
words_of (some (_, v ∷ r)) = some (v ∷ r)

unfoldable pub words : List ℕ → Option (List (List ℕ))
unfolding scan
words s = if contains 0 s then none else words_of (scan between s)

-- The word has some bytes, and neither a quote nor a zero.
abbrev pub IsPlain : List ℕ → Type 0
IsPlain v = (is_nil v ≡ false) × (contains quote v ≡ false) × (contains 0 v ≡ false)

abbrev pub ArePlain : List (List ℕ) → Type 0
ArePlain [] = Unit {0}
ArePlain (v ∷ r) = IsPlain v × ArePlain r

-- What follows a word: the end, or a blank.
abbrev prepend : List ℕ → Option (List ℕ × List (List ℕ)) → Option (List ℕ × List (List ℕ))
prepend v none = none
prepend v (some (w, ws)) = some (v ++ w, ws)

add_byte-prepend :
    (c : ℕ) (v : List ℕ) (o : Option (List ℕ × List (List ℕ)))
    → add_byte c (prepend v o) ≡ prepend (c ∷ v) o
add_byte-prepend c v none = refl
add_byte-prepend c v (some p) = refl

or_false : (a b : Bool) → (a || b) ≡ false → (a ≡ false) × (b ≡ false)
or_false a b h = ground arith

scan-quoting_cons :
    (c : ℕ) (s : List ℕ) → (c == quote) ≡ false → scan quoting (c ∷ s) ≡ add_byte c (scan quoting s)
unfolding scan
scan-quoting_cons c s e = rw e refl

is_safe-space : (c : ℕ) → is_safe c ≡ true → ((c == space) ≡ false) × ((c == quote) ≡ false)
unfolding is_safe
is_safe-space c h = (ground arith, ground arith)

scan-inside_cons :
    (c : ℕ) (s : List ℕ) → is_safe c ≡ true → scan inside (c ∷ s) ≡ add_byte c (scan inside s)
unfolding scan
scan-inside_cons c s e = rw ((is_safe-space c e).0, (is_safe-space c e).1, e) refl

scan-between_cons :
    (c : ℕ) (s : List ℕ)
    → is_safe c ≡ true
    → scan between (c ∷ s) ≡ cut_word (add_byte c (scan inside s))
unfolding scan
scan-between_cons c s e = rw ((is_safe-space c e).0, (is_safe-space c e).1, e) refl

quoted-cons : (c : ℕ) (v : List ℕ) → (c == quote) ≡ false → quoted (c ∷ v) ≡ c ∷ quoted v
unfolding quoted
quoted-cons c v e = rw e refl

up_to_nul-cons : (c : ℕ) (v : List ℕ) → (c == 0) ≡ false → up_to_nul (c ∷ v) ≡ c ∷ up_to_nul v
unfolding up_to_nul
up_to_nul-cons c v e = rw e refl

scan-quoted :
    (v s : List ℕ)
    → contains quote v ≡ false
    → scan quoting ((quoted v ++ (quote ∷ [])) ++ s) ≡ prepend v (scan inside s)
unfolding scan quoted
scan-quoted [] s h = elim (scan inside s) as (λ o. o ≡ prepend [] o) [ none ↦ refl | some p ↦ refl ]
scan-quoted (c ∷ v) s h =
    let (e, k) = or_false (c == quote) (contains quote v) h in
    rw (quoted-cons c v e) (
      scan-quoting_cons c ((quoted v ++ (quote ∷ [])) ++ s) e
      ∙ ap (add_byte c) (scan-quoted v s k)
      ∙ add_byte-prepend c v (scan inside s))

needs_none :
    (c : ℕ) (v : List ℕ)
    → need_quotes (c ∷ v) ≡ false
    → (is_safe c ≡ true) × (need_quotes v ≡ false)
unfolding need_quotes
needs_none c v h = ground arith

scan-safe :
    (v s : List ℕ)
    → need_quotes v ≡ false
    → contains 0 v ≡ false
    → scan inside (up_to_nul v ++ s) ≡ prepend v (scan inside s)
unfolding up_to_nul
scan-safe [] s n z = elim (scan inside s) as (λ o. o ≡ prepend [] o) [ none ↦ refl | some p ↦ refl ]
scan-safe (c ∷ v) s n z =
    let (e, k) = or_false (c == 0) (contains 0 v) z in
    let (safe, rest) = needs_none c v n in
    rw (up_to_nul-cons c v e) (
      scan-inside_cons c (up_to_nul v ++ s) safe
      ∙ ap (add_byte c) (scan-safe v s rest k)
      ∙ add_byte-prepend c v (scan inside s))

-- One word, read where a word may begin.
scan-word :
    (v s : List ℕ) → IsPlain v → scan between (word v ++ s) ≡ cut_word (prepend v (scan inside s))
unfolding word scan
scan-word [] s (i, q, z) = cc
scan-word (c ∷ v) s (i, q, z) = elim (Bool-cases (need_quotes (c ∷ v))) [
  | inl e ↦ rw e (ap cut_word (scan-quoted (c ∷ v) s q))
  | inr e ↦
      let (safe, rest) = needs_none c v e in
      let (m, k) = or_false (c == 0) (contains 0 v) z in
      rw (e, up_to_nul-cons c v m)
        (scan-between_cons c (up_to_nul v ++ s) safe
          ∙ ap (λ o. cut_word (add_byte c o)) (scan-safe v s rest k)
          ∙ ap cut_word (add_byte-prepend c v (scan inside s)))
]

append_nil : (v : List ℕ) → v ++ [] ≡ v
append_nil [] = refl
append_nil (c ∷ v) = ap (λ u. c ∷ u) (append_nil v)

scan-more_words : (r : List (List ℕ)) → ArePlain r → scan inside (more_words r) ≡ some ([], r)
unfolding more_words scan
scan-more_words [] a = refl
scan-more_words (v ∷ r) (p, a) =
    scan-word v (more_words r) p
    ∙ ap (λ o. cut_word (prepend v o)) (scan-more_words r a)
    ∙ ap (λ u. some ([], u ∷ r)) (append_nil v)

contains-append :
    (a b : List ℕ) → contains 0 a ≡ false → contains 0 b ≡ false → contains 0 (a ++ b) ≡ false
contains-append [] b h k = k
contains-append (c ∷ a) b h k = ground (arith, contains-append a b)

contains-quoted : (v : List ℕ) → contains 0 v ≡ false → contains 0 (quoted v) ≡ false
unfolding quoted
contains-quoted [] h = refl
contains-quoted (c ∷ v) h = ground (arith, contains-quoted v)

contains-up_to_nul : (v : List ℕ) → contains 0 v ≡ false → contains 0 (up_to_nul v) ≡ false
unfolding up_to_nul
contains-up_to_nul [] h = refl
contains-up_to_nul (c ∷ v) h = ground (arith, contains-up_to_nul v)

contains-word : (v : List ℕ) → contains 0 v ≡ false → contains 0 (word v) ≡ false
unfolding word
contains-word v h = ground (
  arith,
  contains-up_to_nul v h,
  contains-append (quoted v) (quote ∷ []) (contains-quoted v h) refl,
)

contains-more_words : (r : List (List ℕ)) → ArePlain r → contains 0 (more_words r) ≡ false
unfolding more_words
contains-more_words [] a = refl
contains-more_words (v ∷ r) ((i, q, z), a) =
    contains-append (word v) (more_words r) (contains-word v z) (contains-more_words r a)

-- The text of a command of at least one word, whose words are not empty and have no quote and no zero,
-- is read back as exactly these words.
pub words-prop_to_command :
    (vs : List (List ℕ)) → is_nil vs ≡ false → ArePlain vs → words (prop_to_command vs) ≡ some vs
unfolding words prop_to_command scan
words-prop_to_command [] e a = cc
words-prop_to_command (v ∷ r) e ((i, q, z), a) =
    rw (contains-append (word v) (more_words r) (contains-word v z) (contains-more_words r a)) (
      ap words_of (
        scan-word v (more_words r) (i, q, z)
        ∙ ap (λ o. cut_word (prepend v o)) (scan-more_words r a)
        ∙ ap (λ u. some ([], u ∷ r)) (append_nil v)))

-- Whether the number of quotes is odd.
abbrev pub has_odd_quotes : List ℕ → Bool
has_odd_quotes [] = false
has_odd_quotes (c ∷ v) = if c == quote then not (has_odd_quotes v) else has_odd_quotes v

abbrev is_quoting : Place → Bool
is_quoting quoting = true
is_quoting _ = false

quoted-quote :
    (c : ℕ) (v : List ℕ) → (c == quote) ≡ true → quoted (c ∷ v) ≡ quote ∷ quote ∷ quote ∷ quoted v
unfolding quoted
quoted-quote c v e = rw e refl

has_odd_quotes-other :
    (c : ℕ) (v : List ℕ) → (c == quote) ≡ false → has_odd_quotes (c ∷ v) ≡ has_odd_quotes v
has_odd_quotes-other c v e = rw e refl

has_odd_quotes-quote :
    (c : ℕ) (v : List ℕ) → (c == quote) ≡ true → has_odd_quotes (c ∷ v) ≡ not (has_odd_quotes v)
has_odd_quotes-quote c v e = rw e refl

-- Each quote is three in the text, so that an odd number ends in the other place.
scan-odd :
    (p : Place) (v : List ℕ)
    → has_odd_quotes v ≡ is_quoting p
    → scan p (quoted v ++ (quote ∷ [])) ≡ none
unfolding scan quoted
scan-odd between [] h = refl
scan-odd inside [] h = refl
scan-odd quoting [] h = cc
scan-odd between (c ∷ v) h = elim (Bool-cases (c == quote)) [
  | inl e ↦
      rw (quoted-quote c v e)
        (ap cut_word (scan-odd quoting v (ground (arith, has_odd_quotes-quote c v e, h))))
  | inr e ↦
      let k : has_odd_quotes v ≡ false = ground (arith, has_odd_quotes-other c v e, h) in
      rw (quoted-cons c v e) (ground (arith, scan-odd between v k, scan-odd inside v k))
]
scan-odd inside (c ∷ v) h = elim (Bool-cases (c == quote)) [
  | inl e ↦
      rw (quoted-quote c v e) (scan-odd quoting v (ground (arith, has_odd_quotes-quote c v e, h)))
  | inr e ↦
      let k : has_odd_quotes v ≡ false = ground (arith, has_odd_quotes-other c v e, h) in
      rw (quoted-cons c v e) (ground (arith, scan-odd between v k, scan-odd inside v k))
]
scan-odd quoting (c ∷ v) h = elim (Bool-cases (c == quote)) [
  | inl e ↦
      rw (quoted-quote c v e) (scan-odd inside v (ground (arith, has_odd_quotes-quote c v e, h)))
  | inr e ↦ rw (quoted-cons c v e) (
      scan-quoting_cons c (quoted v ++ (quote ∷ [])) e
      ∙ ap (add_byte c) (scan-odd quoting v (ground (arith, has_odd_quotes-other c v e, h))))
]

odd_need_quotes : (v : List ℕ) → has_odd_quotes v ≡ true → need_quotes v ≡ true
unfolding need_quotes is_safe
odd_need_quotes [] h = cc
odd_need_quotes (c ∷ v) h = elim (Bool-cases (c == quote)) [
  | inl e ↦ ground (arith, e)
  | inr e ↦ ground (arith, odd_need_quotes v (ground (arith, has_odd_quotes-other c v e, h)))
]

-- A single word with an odd number of quotes makes a text that is not read: its quotes are not
-- balanced.
pub odd_quotes_break :
    (v : List ℕ) → has_odd_quotes v ≡ true → words (prop_to_command (v ∷ [])) ≡ none
unfolding words prop_to_command more_words word scan
odd_quotes_break v h = elim (Bool-cases (contains 0 (prop_to_command (v ∷ [])))) [
  | inl zero_there ↦ rw zero_there refl
  | inr no_zero ↦ rw no_zero (
      rw (odd_need_quotes v h, append_nil (quoted v ++ (quote ∷ [])))
        (ap (λ o. words_of (cut_word o)) (scan-odd quoting v h)))
]
