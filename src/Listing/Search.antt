-- ===== src/Listing/Search.antt =====
-- The search of worker/repositories/transactions-repository.ts: LOWER(original_description) LIKE ?
-- ESCAPE '\', on texts as lists of characters. SQLite's LOWER changes the ASCII letters only, and its
-- LIKE takes no notice of their case.
pub mod Literal
use mono_finance.Common.{
  ℕ, ◌+◌, ◌-◌, Bool, true, false, ◌&&◌, ◌||◌, List, [], ◌∷◌, ◌++◌, map, leb, ◌==◌, if◌then◌else◌,
}
use mono_finance.Compensation.Tables.{Text}

-- '%', '_' and '\'
abbrev pub percent : ℕ
percent = 37

abbrev pub underscore : ℕ
underscore = 95

abbrev pub backslash : ℕ
backslash = 92

abbrev pub ascii_lower : ℕ → ℕ
ascii_lower c = if leb 65 c && leb c 90 then c + 32 else c

abbrev pub same_char : ℕ → ℕ → Bool
same_char c d = ascii_lower c == ascii_lower d

-- `replaceAll(found, '\' + found)`
unfoldable pub escape_char : ℕ → Text → Text
escape_char found [] = []
escape_char found (c ∷ s) =
    let rest = escape_char found s in if c == found then backslash ∷ c ∷ rest else c ∷ rest

unfoldable pub escape_like : Text → Text
unfolding escape_char
escape_like value = escape_char underscore (escape_char percent (escape_char backslash value))

-- The parts of a LIKE pattern; `nothing` is an escape character at its end.
pub data Token : Type 0 where
  any_run any_char nothing : Token
  exact : ℕ → Token

abbrev pub token : ℕ → Token
token c = if c == percent then any_run else if c == underscore then any_char else exact c

-- The flag tells that the character before was an escape.
unfoldable pub tokens : Bool → Text → List Token
tokens true [] = nothing ∷ []
tokens false [] = []
tokens true (c ∷ s) = exact c ∷ tokens false s
tokens false (c ∷ s) =
    let escaped = tokens true s in
    let rest = tokens false s in if c == backslash then escaped else token c ∷ rest

-- At this place of a text, or at a later one.
unfoldable pub at_some : (Text → Bool) → Text → Bool
at_some matches [] = matches []
at_some matches (c ∷ t) = matches (c ∷ t) || at_some matches t

unfoldable pub like_tokens : List Token → Text → Bool
unfolding at_some
like_tokens [] [] = true
like_tokens [] (c ∷ t) = false
like_tokens (any_run ∷ ps) t = at_some (like_tokens ps) t
like_tokens (any_char ∷ ps) [] = false
like_tokens (any_char ∷ ps) (c ∷ t) = like_tokens ps t
like_tokens (nothing ∷ ps) t = false
like_tokens (exact p ∷ ps) [] = false
like_tokens (exact p ∷ ps) (c ∷ t) = same_char p c && like_tokens ps t

-- `text LIKE pattern ESCAPE '\'`
unfoldable pub like : Text → Text → Bool
unfolding tokens like_tokens
like pattern t = like_tokens (tokens false pattern) t

-- `%${escapeLike(search)}%`
unfoldable pub search_pattern : Text → Text
unfolding escape_like
search_pattern search = percent ∷ escape_like search ++ percent ∷ []
