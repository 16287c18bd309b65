-- ===== src/Redact/Doubled.antt =====
-- A secret that `Redact` of internal/errclass/errclass.go does not find.
use opencode_go_cliproxyapi.Prelude.{
  Bool, [], and-true, ap, arith, none, not, refl, true, ℕ, ◌&&◌, ◌++◌, ◌==◌, ◌||◌, ◌∙◌, ◌∷◌, ◌≡◌,
}
use opencode_go_cliproxyapi.Prelude.Text.{Text, codes, lower_byte}
use opencode_go_cliproxyapi.Redact.{
  Finder, bearer_redacted, cut_prefix_fold, find_api_key, find_bearer, find_query_key, redact,
  replace_from,
}
use opencode_go_cliproxyapi.Redact.Bearer.{redact_bearer_lem}

-- No place of the text starts a match.
abbrev pub NoMatch : Finder → Text → Type 0
NoMatch find [] = Unit
NoMatch find (c ∷ s) = (find (c ∷ s) ≡ none) × NoMatch find s

replace_from-id : (find : Finder) (s : Text) → NoMatch find s → replace_from find 0 s ≡ s
unfolding replace_from
replace_from-id find [] h = refl
replace_from-id find (c ∷ s) (h, k) = rw (h, replace_from) (rw (replace_from-id find s k) refl)

every : (ℕ → Bool) → Text → Bool
every p [] = true
every p (c ∷ s) = p c && every p s

-- Bytes at which no match starts, in front of a text in which none does.
NoMatch-append :
    (find : Finder) (p : ℕ → Bool)
    → ((c : ℕ) (s : Text) → p c ≡ true → find (c ∷ s) ≡ none)
    → (xs s : Text) → every p xs ≡ true
    → NoMatch find s
    → NoMatch find (xs ++ s)
unfolding every
NoMatch-append find p block [] s h k = k
NoMatch-append find p block (c ∷ xs) s h k =
    let (first, later) = and-true (p c) (every p xs) h in
    (block c (xs ++ s) first, NoMatch-append find p block xs s later k)

abbrev no_key_start : ℕ → Bool
no_key_start c = not (lower_byte c == b'x')

abbrev no_query_start : ℕ → Bool
no_query_start c = not (c == b'?' || c == b'&')

cut_prefix_fold-none :
    (c : ℕ) (s : Text) → no_key_start c ≡ true → cut_prefix_fold (c ∷ s) (codes "x-api-key") ≡ none
unfolding cut_prefix_fold
cut_prefix_fold-none c s h = ground arith

find_api_key-none : (c : ℕ) (s : Text) → no_key_start c ≡ true → find_api_key (c ∷ s) ≡ none
unfolding find_api_key
find_api_key-none c s h = rw (cut_prefix_fold-none c s h, find_api_key) refl

find_query_key-none : (c : ℕ) (s : Text) → no_query_start c ≡ true → find_query_key (c ∷ s) ≡ none
unfolding find_query_key
find_query_key-none c s h = ground arith

-- A doubled scheme defeats the redaction: the second "Bearer" is taken for the token, and a secret behind
-- it is left in the text as it stands, if none of the three regular expressions matches anywhere in the
-- blank and the secret.
pub redact-doubled :
    (secret : Text)
    → NoMatch find_bearer (32 ∷ secret)
    → NoMatch find_api_key (32 ∷ secret)
    → NoMatch find_query_key (32 ∷ secret)
    → redact (codes "Bearer" ++ (codes " " ++ (codes "Bearer" ++ 32 ∷ secret)))
      ≡ bearer_redacted ++ 32 ∷ secret
unfolding redact every
redact-doubled secret no_bearer no_key no_query =
    let left = bearer_redacted ++ 32 ∷ secret in
    ap (λ s. replace_from find_query_key 0 (replace_from find_api_key 0 s))
      (redact_bearer_lem (codes " ") b'B' (codes "earer") (32 ∷ secret) (refl, tt)
          (refl, (refl, (refl, (refl, (refl, (refl, tt)))))) refl (codes "Bearer") refl
        ∙ ap (λ s. bearer_redacted ++ s) (replace_from-id find_bearer (32 ∷ secret) no_bearer))
    ∙ ap (replace_from find_query_key 0) (
        replace_from-id find_api_key left (
          NoMatch-append find_api_key no_key_start find_api_key-none bearer_redacted (32 ∷ secret)
            refl no_key))
    ∙ replace_from-id find_query_key left (
        NoMatch-append find_query_key no_query_start find_query_key-none bearer_redacted
          (32 ∷ secret) refl no_query)
