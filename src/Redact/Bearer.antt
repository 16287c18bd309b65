-- ===== src/Redact/Bearer.antt =====
-- What `Redact` of internal/errclass/errclass.go does to a bearer token.

use mathlib.Core.List.{append_assoc}
use opencode_go_cliproxyapi.Prelude.{
  ==_iff, All, Bool, [], ap, arith, drop-append, false, length, length-append, length-map, map,
  refl, some, sym, true, ℕ, ◌++◌, ◌+◌, ◌-◌, ◌∙◌, ◌∷◌, ◌≡◌,
}
use opencode_go_cliproxyapi.Prelude.Text.{Text, codes, lower_byte}
use opencode_go_cliproxyapi.Redact.{
  Finder, bearer_redacted, cut_prefix_fold, find_bearer, in_token, is_tab_or_space, replace_from,
  run_length, token_length,
}

-- The first step of `redact`.
abbrev pub redact_bearer : Text → Text
redact_bearer s = replace_from find_bearer 0 s

-- The text does not go on with a byte that passes the test.
abbrev pub StopsAt : (ℕ → Bool) → Text → Type 0
StopsAt p [] = Unit
StopsAt p (c ∷ s) = p c ≡ false

run_length-append :
    (p : ℕ → Bool) (xs ys : Text)
    → All (λ c. p c ≡ true) xs
    → StopsAt p ys
    → run_length p (xs ++ ys) ≡ length xs
unfolding run_length
run_length-append p [] [] h k = refl
run_length-append p [] (y ∷ ys) h k = rw k refl
run_length-append p (x ∷ xs) ys h k = rw (h.0, run_length-append p xs ys h.1 k) refl

cut_prefix_fold-append : (h w s : Text) → map lower_byte h ≡ w → cut_prefix_fold (h ++ s) w ≡ some s
unfolding cut_prefix_fold
cut_prefix_fold-append h w s e = rw (← e) (go h)
  where
    go : (h : Text) → cut_prefix_fold (h ++ s) (map lower_byte h) ≡ some s
    go [] = refl
    go (c ∷ h) = rw ((==_iff (lower_byte c) (lower_byte c)).1 refl) (go h)

replace_from-skip :
    (find : Finder) (xs ys : Text)
    → replace_from find (length xs) (xs ++ ys) ≡ replace_from find 0 ys
unfolding replace_from
replace_from-skip find [] ys = refl
replace_from-skip find (x ∷ xs) ys = replace_from-skip find xs ys

token-StopsAt : (t : ℕ) → in_token t ≡ true → is_tab_or_space t ≡ false
token-StopsAt t h = ground arith

module _ (gap : Text) (t : ℕ) (ts rest : Text) (blanks : All (λ c. is_tab_or_space c ≡ true) gap)
    (token : All (λ c. in_token c ≡ true) (t ∷ ts)) (stop : StopsAt in_token rest) where
  token_length-append : token_length (gap ++ (t ∷ ts ++ rest)) ≡ length gap + length (t ∷ ts)
  unfolding token_length
  token_length-append =
      rw
        (
          run_length-append is_tab_or_space gap (t ∷ ts ++ rest) blanks (token-StopsAt t token.0),
          drop-append gap (t ∷ ts ++ rest),
          run_length-append in_token (t ∷ ts) rest token stop,
        )
        refl

  find_bearer-append :
      (h : Text)
      → map lower_byte h ≡ codes "bearer"
      → find_bearer (h ++ (gap ++ (t ∷ ts ++ rest)))
        ≡ some (bearer_redacted, 6 + (length gap + length (t ∷ ts)))
  unfolding find_bearer
  find_bearer-append h e =
      rw (cut_prefix_fold-append h (codes "bearer") (gap ++ (t ∷ ts ++ rest)) e, find_bearer)
        (rw token_length-append refl)

  skipped-length :
      (b : ℕ) (h : Text)
      → length (b ∷ h) ≡ 6
      → length (h ++ (gap ++ t ∷ ts)) ≡ 6 + (length gap + length (t ∷ ts)) - 1
  skipped-length b h e =
      omega (arith, length-append {0} h (gap ++ t ∷ ts), length-append {0} gap (t ∷ ts))

  regroup : (h : Text) → h ++ (gap ++ (t ∷ ts ++ rest)) ≡ (h ++ (gap ++ t ∷ ts)) ++ rest
  regroup h = simp append_assoc

  -- The word "bearer" in any case, blanks, and a token up to white space, a comma or a quote are
  -- replaced as a whole, so that nothing of the token is left; the scan goes on behind the token.
  pub redact_bearer_lem :
      (h : Text)
      → map lower_byte h ≡ codes "bearer"
      → redact_bearer (h ++ (gap ++ (t ∷ ts ++ rest))) ≡ bearer_redacted ++ redact_bearer rest
  unfolding replace_from
  redact_bearer_lem [] e = cc
  redact_bearer_lem (b ∷ h) e =
      rw (find_bearer-append (b ∷ h) e, replace_from)
        (rw (← skipped-length b h (length-eq e))
          (rw (regroup h, replace_from-skip find_bearer (h ++ (gap ++ t ∷ ts)) rest) refl))
    where
      length-eq : map lower_byte (b ∷ h) ≡ codes "bearer" → length (b ∷ h) ≡ 6
      length-eq eq = sym (length-map lower_byte (b ∷ h)) ∙ ap length eq
