-- ===== src/Autostart/Parse.antt =====
-- The text of an autostart condition (mate-session/gsm-autostart-app.c, `parse_condition_string`).
use mate_session_manager.Base.{
  ℕ, ◌+◌, ◌≡◌, refl, ap, ◌∙◌, Bool, true, false, ◌&&◌, ◌||◌, Option, none, some, List, [], ◌∷◌,
  ◌++◌, if◌then◌else◌, ◌==◌, leb, arith, Bool-cases, inl, inr, contains, sym,
}
use mate_session_manager.Autostart.{
  ConditionKind, if_exists, unless_exists, mate, gsettings, unknown,
}

abbrev pub space : ℕ
space = 32

-- `isspace`.
abbrev pub is_space : ℕ → Bool
is_space c = (c == 32) || (leb 9 c && leb c 13)

-- `strcspn (s, " ")`: what comes before the first blank, and the rest from it on.
unfoldable pub first_word : List ℕ → List ℕ
first_word [] = []
first_word (c ∷ r) = let rest = first_word r in if c == space then [] else c ∷ rest

unfoldable pub after_word : List ℕ → List ℕ
after_word [] = []
after_word (c ∷ r) = let rest = after_word r in if c == space then c ∷ r else rest

unfoldable pub skip_spaces : List ℕ → List ℕ
skip_spaces [] = []
skip_spaces (c ∷ r) = let rest = skip_spaces r in if is_space c then rest else c ∷ r

-- `g_ascii_tolower`.
abbrev pub lower : ℕ → ℕ
lower c = if leb 65 c && leb c 90 then c + 32 else c

-- `g_ascii_strncasecmp (w, keyword, len) == 0` with the length of `w`: only the bytes of `w` are
-- compared.
unfoldable pub matches : List ℕ → List ℕ → Bool
matches [] k = true
matches (c ∷ w) [] = false
matches (c ∷ w) (d ∷ k) = let rest = matches w k in (lower c == lower d) && rest

-- The bytes of the keywords.
unfoldable pub keyword : ConditionKind → List ℕ
keyword if_exists = 105 ∷ 102 ∷ 45 ∷ 101 ∷ 120 ∷ 105 ∷ 115 ∷ 116 ∷ 115 ∷ []
keyword unless_exists =
    117 ∷ 110 ∷ 108 ∷ 101 ∷ 115 ∷ 115 ∷ 45 ∷ 101 ∷ 120 ∷ 105 ∷ 115 ∷ 116 ∷ 115 ∷ []
keyword mate = 77 ∷ 65 ∷ 84 ∷ 69 ∷ []
keyword gsettings = 71 ∷ 83 ∷ 101 ∷ 116 ∷ 116 ∷ 105 ∷ 110 ∷ 103 ∷ 115 ∷ []
keyword unknown = []

unfoldable pub kind_of : List ℕ → ConditionKind
unfolding matches keyword
kind_of w =
    if matches w (keyword if_exists)
    then if_exists
    else if matches w (keyword unless_exists)
    then unless_exists
    else if matches w (keyword mate)
    then mate
    else if matches w (keyword gsettings)
    then gsettings
    else unknown

abbrev key_for : ConditionKind → List ℕ → Option (List ℕ)
key_for unknown k = none
key_for _ k = some k

unfoldable pub parse_condition_string : List ℕ → ConditionKind × Option (List ℕ)
unfolding kind_of first_word after_word skip_spaces
parse_condition_string s =
    let kind = kind_of (first_word s) in (kind, key_for kind (skip_spaces (after_word s)))

-- A condition as one writes it.
abbrev pub print_condition : ConditionKind → List ℕ → List ℕ
print_condition kind key = keyword kind ++ (space ∷ key)

abbrev pub is_known : ConditionKind → Bool
is_known unknown = false
is_known _ = true

abbrev pub starts_with_space : List ℕ → Bool
starts_with_space [] = false
starts_with_space (c ∷ r) = is_space c

skip_spaces_none : (k : List ℕ) → starts_with_space k ≡ false → skip_spaces k ≡ k
unfolding skip_spaces
skip_spaces_none [] h = refl
skip_spaces_none (c ∷ r) h = rw h refl

-- A condition that is written out is read back, if its key does not begin with white space.
pub parse-print_condition :
    (kind : ConditionKind) (key : List ℕ)
    → is_known kind ≡ true
    → starts_with_space key ≡ false
    → parse_condition_string (print_condition kind key) ≡ (kind, some key)
unfolding parse_condition_string kind_of keyword first_word after_word skip_spaces matches
parse-print_condition if_exists key n h = ap (λ k. (if_exists, some k)) (skip_spaces_none key h)
parse-print_condition unless_exists key n h =
    ap (λ k. (unless_exists, some k)) (skip_spaces_none key h)
parse-print_condition mate key n h = ap (λ k. (mate, some k)) (skip_spaces_none key h)
parse-print_condition gsettings key n h = ap (λ k. (gsettings, some k)) (skip_spaces_none key h)
parse-print_condition unknown key n h = cc

word_ends :
    (w r : List ℕ)
    → contains space w ≡ false
    → (first_word (w ++ (space ∷ r)) ≡ w) × (after_word (w ++ (space ∷ r)) ≡ space ∷ r)
unfolding first_word after_word
word_ends [] r h = (refl, refl)
word_ends (c ∷ w) r h = elim (Bool-cases (c == space)) [
  | inl e ↦ cc
  | inr e ↦ let (f, g) = word_ends w r (ground (arith, h, e)) in rw e (ap (λ u. c ∷ u) f, g)
]

contains-prefix : (a : ℕ) (w r : List ℕ) → contains a (w ++ r) ≡ false → contains a w ≡ false
contains-prefix a [] r h = refl
contains-prefix a (c ∷ w) r h = elim (Bool-cases (c == a)) [
  | inl e ↦ cc
  | inr e ↦ rw e (contains-prefix a w r (ground (arith, h, e)))
]

matches-prefix : (w r : List ℕ) → matches w (w ++ r) ≡ true
unfolding matches
matches-prefix [] r = refl
matches-prefix (c ∷ w) r = ground (arith, matches-prefix w r)

-- Any beginning of the word "if-exists", down to no word at all, is taken for the whole.
pub beginning_is_if_exists :
    (w r key : List ℕ)
    → w ++ r ≡ keyword if_exists
    → starts_with_space key ≡ false
    → parse_condition_string (w ++ (space ∷ key)) ≡ (if_exists, some key)
unfolding parse_condition_string kind_of keyword skip_spaces
beginning_is_if_exists w r key e h =
    let n : contains space w ≡ false = contains-prefix space w r (ap (contains space) e ∙ refl) in
    let (f, g) = word_ends w key n in
    let m : matches w (keyword if_exists) ≡ true = ap (matches w) (sym e) ∙ matches-prefix w r in
    let k : skip_spaces (space ∷ key) ≡ key = skip_spaces_none key h in rw (f, g, m, k) refl
