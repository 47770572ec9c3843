-- ===== src/Release/Buildconf/Quoted.antt =====
-- Quoting tokens and taking them apart again.
use ovayra.Prelude.{
  ℕ, ◌≡◌, refl, ap, ◌∙◌, inl, inr, false, ◌||◌, none, some, List, [], ◌∷◌, ◌++◌, reverse, arith,
  ◌==◌, if◌then◌else◌, Bool-cases, ok, All, space_width, Text, is_empty,
}
use mathlib.Core.List.{reverse_aux, append-nil}
use ovayra.Release.Buildconf.{push_token, prepend, tokens_from, checked_tokens, parse_tokens}

-- A token between double quotes, with a backslash before each quote and backslash in it.
abbrev pub escape : Text → Text
escape [] = []
escape (c ∷ s) = if (c == 34) || (c == 92) then 92 ∷ c ∷ escape s else c ∷ escape s

-- The quoted tokens with a space after each.
abbrev pub quoted_all : List Text → Text
quoted_all [] = []
quoted_all (t ∷ tokens) = 34 ∷ (escape t ++ (34 ∷ 32 ∷ quoted_all tokens))

-- Inside double quotes an escaped byte is added, and so is a byte that is no quote or backslash.
escaped_step :
    (c : ℕ) (run s : Text)
    → tokens_from 0 (some 34) false run (92 ∷ c ∷ s) ≡ tokens_from 0 (some 34) false (c ∷ run) s
unfolding tokens_from
escaped_step c run s = refl

plain_step :
    (c : ℕ) (run s : Text)
    → (c == 34) ≡ false
    → (c == 92) ≡ false
    → tokens_from 0 (some 34) false run (c ∷ s) ≡ tokens_from 0 (some 34) false (c ∷ run) s
unfolding tokens_from
plain_step c run s not_quote not_slash = rw (tokens_from, not_quote, not_slash) refl

tokens_from-escape :
    (token run rest : Text)
    → tokens_from 0 (some 34) false run (escape token ++ rest)
      ≡ tokens_from 0 (some 34) false (reverse_aux token run) rest
tokens_from-escape [] run rest = refl
tokens_from-escape (c ∷ s) run rest = elim (Bool-cases ((c == 34) || (c == 92))) [
  | inl special ↦
      rw special (escaped_step c run (escape s ++ rest) ∙ tokens_from-escape s (c ∷ run) rest)
  | inr plain ↦ rw plain (
      plain_step c run (escape s ++ rest) (ground arith) (ground arith)
      ∙ tokens_from-escape s (c ∷ run) rest)
]

space_width-space : (s : Text) → space_width (32 ∷ s) ≡ 1
unfolding space_width
space_width-space [] = refl
space_width-space (d ∷ []) = refl
space_width-space (d ∷ e ∷ s) = refl

-- A closed token before a space is one of the tokens.
token_step :
    (run s : Text)
    → tokens_from 0 (some 34) false run (34 ∷ 32 ∷ s) ≡ prepend run (tokens_from 0 none false [] s)
unfolding tokens_from
token_step run s = rw (tokens_from, space_width-space s) refl

opening_step :
    (s : Text) → tokens_from 0 none false [] (34 ∷ s) ≡ tokens_from 0 (some 34) false [] s
unfolding tokens_from
opening_step s = refl

reverse_aux-reverse_aux :
    (s run rest : Text) → reverse_aux (reverse_aux s run) rest ≡ reverse_aux run (s ++ rest)
reverse_aux-reverse_aux [] run rest = refl
reverse_aux-reverse_aux (c ∷ s) run rest = reverse_aux-reverse_aux s (c ∷ run) rest

push_token-reverse_aux :
    (c : ℕ) (s run : Text) (rest : List Text)
    → push_token (reverse_aux s (c ∷ run)) rest ≡ reverse (reverse_aux s (c ∷ run)) ∷ rest
unfolding push_token
push_token-reverse_aux c [] run rest = refl
push_token-reverse_aux c (d ∷ s) run rest = push_token-reverse_aux d s (c ∷ run) rest

push_token-token :
    (t : Text) (rest : List Text)
    → is_empty t ≡ false
    → push_token (reverse_aux t []) rest ≡ t ∷ rest
unfolding is_empty
push_token-token [] rest h = cc
push_token-token (c ∷ s) rest h =
    push_token-reverse_aux c s [] rest
    ∙ ap (λ (t : Text). t ∷ rest)
        (reverse_aux-reverse_aux s (c ∷ []) [] ∙ ap (λ (t : Text). c ∷ t) (append-nil s))

prepend-some :
    (run : Text) (tokens : List Text) → prepend run (some tokens) ≡ some (push_token run tokens)
unfolding prepend
prepend-some run tokens = refl

tokens_from-quoted_all :
    (tokens : List Text)
    → All (λ t. is_empty t ≡ false) tokens
    → tokens_from 0 none false [] (quoted_all tokens) ≡ some tokens
unfolding tokens_from
tokens_from-quoted_all [] h = refl
tokens_from-quoted_all (t ∷ tokens) h =
    opening_step (escape t ++ (34 ∷ 32 ∷ quoted_all tokens))
    ∙ tokens_from-escape t [] (34 ∷ 32 ∷ quoted_all tokens)
    ∙ token_step (reverse_aux t []) (quoted_all tokens)
    ∙ rw (tokens_from-quoted_all tokens h.1) (prepend-some (reverse_aux t []) tokens)
    ∙ ap some (push_token-token t tokens h.0)

-- Quoting any list of tokens, of at least one, none of them empty, and taking the record apart gives
-- the tokens back, whatever bytes they hold.
pub parse_tokens-quoted_all :
    (t : Text) (tokens : List Text)
    → All (λ s. is_empty s ≡ false) (t ∷ tokens)
    → parse_tokens (quoted_all (t ∷ tokens)) ≡ ok (t ∷ tokens)
unfolding parse_tokens checked_tokens
parse_tokens-quoted_all t tokens h = rw (tokens_from-quoted_all (t ∷ tokens) h) refl
