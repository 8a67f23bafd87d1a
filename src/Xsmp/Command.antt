-- ===== src/Xsmp/Command.antt =====
-- The text of a command that an XSMP client gives as a list of words
-- (mate-session/gsm-xsmp-client.c, `prop_to_command`). A text is the list of its bytes.
pub mod Quoting
use mate_session_manager.Base.{
  ℕ, Bool, true, false, not, ◌&&◌, ◌||◌, List, [], ◌∷◌, ◌++◌, if◌then◌else◌, leb, ◌==◌,
}

abbrev pub quote : ℕ
quote = 39

abbrev pub space : ℕ
space = 32

-- `g_ascii_isalnum (c) || strchr ("-_=:./", c)`; `strchr` finds the zero at the end as well.
unfoldable pub is_safe : ℕ → Bool
is_safe c =
    (leb 48 c && leb c 57)
    || (leb 65 c && leb c 90)
    || (leb 97 c && leb c 122)
    || (c == 45)
    || (c == 95)
    || (c == 61)
    || (c == 58)
    || (c == 46)
    || (c == 47)
    || (c == 0)

unfoldable pub need_quotes : List ℕ → Bool
unfolding is_safe
need_quotes [] = false
need_quotes (c ∷ r) = not (is_safe c) || need_quotes r

-- What "%.*s" prints: up to the length, but no more than up to a zero.
unfoldable pub up_to_nul : List ℕ → List ℕ
up_to_nul [] = []
up_to_nul (c ∷ r) = let rest = up_to_nul r in if c == 0 then [] else c ∷ rest

-- The C text "'\''" is three quotes.
unfoldable pub quoted : List ℕ → List ℕ
quoted [] = []
quoted (c ∷ r) =
    let rest = quoted r in if c == quote then quote ∷ quote ∷ quote ∷ rest else c ∷ rest

unfoldable pub word : List ℕ → List ℕ
unfolding need_quotes up_to_nul quoted
word v = if need_quotes v then quote ∷ (quoted v ++ (quote ∷ [])) else up_to_nul v

-- The loop from the second value on.
unfoldable pub more_words : List (List ℕ) → List ℕ
unfolding word
more_words [] = []
more_words (v ∷ r) = space ∷ (word v ++ more_words r)

unfoldable pub prop_to_command : List (List ℕ) → List ℕ
unfolding word more_words
prop_to_command [] = []
prop_to_command (v ∷ r) = word v ++ more_words r
