-- ===== src/Listing/Search/Literal.antt =====
-- What a search of worker/repositories/transactions-repository.ts finds.
use mono_finance.Common.{
  ◌≡◌, refl, ap, ◌∙◌, Bool, true, false, ◌&&◌, [], ◌∷◌, ◌++◌, map, ◌==◌, ==_to, Bool-cases, inl,
  inr,
}
use mono_finance.Compensation.Tables.{Text}
use mono_finance.Listing.Search.{
  percent, underscore, backslash, same_char, escape_char, escape_like, any_run, exact, tokens,
  at_some, like_tokens, like, search_pattern,
}

-- A text starts with another; capitals of ASCII are not told apart.
unfoldable pub starts_with : Text → Text → Bool
starts_with [] t = true
starts_with (c ∷ s) [] = false
starts_with (c ∷ s) (d ∷ t) = same_char c d && starts_with s t

-- A text contains another.
unfoldable pub contains : Text → Text → Bool
unfolding starts_with at_some
contains s t = at_some (starts_with s) t

tokens-escape_like :
    (s rest : Text) → tokens false (escape_like s ++ rest) ≡ map exact s ++ tokens false rest
unfolding tokens escape_like escape_char
tokens-escape_like [] rest = refl
tokens-escape_like (c ∷ s) rest = elim (Bool-cases (c == backslash)) [
  | inl b ↦ rw (==_to c backslash b) (ap (λ ts. exact backslash ∷ ts) (tokens-escape_like s rest))
  | inr b ↦ elim (Bool-cases (c == percent)) [
    | inl p ↦ rw (==_to c percent p) (ap (λ ts. exact percent ∷ ts) (tokens-escape_like s rest))
    | inr p ↦ elim (Bool-cases (c == underscore)) [
      | inl u ↦
          rw (==_to c underscore u) (ap (λ ts. exact underscore ∷ ts) (tokens-escape_like s rest))
      | inr u ↦ rw (b, p, u) (rw (b, p, u) (ap (λ ts. exact c ∷ ts) (tokens-escape_like s rest)))
    ]
  ]
]

at_some_end : (t : Text) → at_some (like_tokens []) t ≡ true
unfolding at_some like_tokens
at_some_end [] = refl
at_some_end (c ∷ t) = at_some_end t

like_tokens-exact : (s t : Text) → like_tokens (map exact s ++ any_run ∷ []) t ≡ starts_with s t
unfolding like_tokens starts_with
like_tokens-exact [] t = at_some_end t
like_tokens-exact (c ∷ s) [] = refl
like_tokens-exact (c ∷ s) (d ∷ t) = ap (λ b. same_char c d && b) (like_tokens-exact s t)

at_some-agree :
    (p q : Text → Bool) → ((t : Text) → p t ≡ q t) → (t : Text) → at_some p t ≡ at_some q t
unfolding at_some
at_some-agree p q h [] = h []
at_some-agree p q h (c ∷ t) = rw (h (c ∷ t), at_some-agree p q h t) refl

-- The pattern of a search matches the texts that contain it, whatever characters it has: a '%', a
-- '_' and a '\' stand for themselves.
pub like-search_pattern : (search t : Text) → like (search_pattern search) t ≡ contains search t
unfolding like search_pattern tokens like_tokens contains
like-search_pattern search t =
    ap (λ ts. like_tokens (any_run ∷ ts) t) (tokens-escape_like search (percent ∷ []))
    ∙ at_some-agree (like_tokens (map exact search ++ any_run ∷ [])) (starts_with search)
        (like_tokens-exact search) t
