-- ===== src/Redact.antt =====
-- internal/errclass/errclass.go, `Redact`: the three regular expressions as scans over bytes. A
-- match is found at the leftmost position and runs as far as it can, as in Go's `regexp`. Case is
-- folded in ASCII only: the long s and the Kelvin sign, which `(?i)` takes for `s` and `k`, are
-- not read as those letters.
pub mod Bearer
pub mod Doubled
use opencode_go_cliproxyapi.Prelude.{
  Bool, List, Option, [], drop, false, if◌then◌else◌, leb, length, none, not, some, suc, take, zero,
  ℕ, ◌&&◌, ◌++◌, ◌+◌, ◌-◌, ◌==◌, ◌||◌, ◌∷◌,
}
use opencode_go_cliproxyapi.Prelude.Text.{Text, codes, lower_byte}

-- What a regular expression finds at the head of a text: the replacement, and the bytes it covers.
abbrev pub Finder : Type 0
Finder = Text → Option (Text × ℕ)

-- `ReplaceAllStringFunc`; the number counts the bytes of the last match still to be passed over.
unfoldable pub replace_from : Finder → ℕ → Text → Text
replace_from find n [] = []
replace_from find (suc n) (c ∷ s) = replace_from find n s
replace_from find zero (c ∷ s) = elim (find (c ∷ s)) [
  | none ↦ c ∷ replace_from find 0 s
  | some (r, w) ↦ r ++ replace_from find (w - 1) s
]

-- The length of the longest run of bytes that pass a test.
unfoldable pub run_length : (ℕ → Bool) → Text → ℕ
run_length p [] = 0
run_length p (c ∷ s) = let rest = suc (run_length p s) in if p c then rest else 0

-- `(?i)` before a word in lower case.
unfoldable pub cut_prefix_fold : Text → Text → Option Text
cut_prefix_fold s [] = some s
cut_prefix_fold [] (p ∷ ps) = none
cut_prefix_fold (c ∷ s) (p ∷ ps) = if lower_byte c == p then cut_prefix_fold s ps else none

-- The class `\s`.
abbrev pub is_blank : ℕ → Bool
is_blank c = c == 9 || c == 10 || c == 12 || c == 13 || c == 32

abbrev pub is_tab_or_space : ℕ → Bool
is_tab_or_space c = c == 32 || c == 9

-- `[^\s,"]`.
abbrev pub in_token : ℕ → Bool
in_token c = not (is_blank c || c == b',' || c == 34)

abbrev pub redacted : Text
redacted = codes "[redacted]"

abbrev pub bearer_redacted : Text
bearer_redacted = codes "Bearer " ++ redacted

-- The bytes of `[ \t]*[^\s,"]*` at the head of a text.
unfoldable pub token_length : Text → ℕ
unfolding run_length
token_length rest =
    let gap = run_length is_tab_or_space rest in gap + run_length in_token (drop gap rest)

-- `bearerRe`.
unfoldable pub find_bearer : Finder
unfolding cut_prefix_fold
find_bearer s = elim (cut_prefix_fold s (codes "bearer")) [
  | none ↦ none
  | some rest ↦ some (bearer_redacted, 6 + token_length rest)
]

abbrev pub is_digit : ℕ → Bool
is_digit c = leb b'0' c && leb c b'9'

abbrev pub is_letter : ℕ → Bool
is_letter c = (leb b'a' c && leb c b'z') || (leb b'A' c && leb c b'Z')

-- `["':= ]` and `[A-Za-z0-9_\-.+/=]`.
abbrev pub in_separator : ℕ → Bool
in_separator c = c == 34 || c == 39 || c == b':' || c == b'=' || c == 32

abbrev pub in_key : ℕ → Bool
in_key c =
    is_letter c
    || is_digit c
    || c == b'_'
    || c == b'-'
    || c == b'.'
    || c == b'+'
    || c == b'/'
    || c == b'='

unfoldable pub has_digit : Text → Bool
has_digit [] = false
has_digit (c ∷ s) = is_digit c || has_digit s

-- `apiKeyRe` with `redactAPIKey`. The value starts behind every separator, `=` included; a value
-- that is no key stands as it is, and the scan goes on behind it.
unfoldable pub find_api_key : Finder
unfolding cut_prefix_fold run_length has_digit
find_api_key s = elim (cut_prefix_fold s (codes "x-api-key")) [
  | none ↦ none
  | some rest ↦
      let gap = run_length in_separator rest in
      let tail = drop gap rest in
      let size = run_length in_key tail in
      if size == 0
      then none
      else if has_digit (take size tail) && leb 8 size
      then some (take (9 + gap) s ++ redacted, 9 + gap + size)
      else some (take (9 + gap + size) s, 9 + gap + size)
]

-- The alternatives of `queryKeyRe` behind `?` or `&`, in the order of the expression.
unfoldable pub query_names : List Text
query_names =
    codes "api_key="
    ∷ codes "api-key="
    ∷ codes "apikey="
    ∷ codes "key="
    ∷ codes "access_token="
    ∷ codes "access-token="
    ∷ codes "accesstoken="
    ∷ codes "token="
    ∷ []

unfoldable pub cut_query_name : Text → List Text → Option (ℕ × Text)
unfolding cut_prefix_fold
cut_query_name s [] = none
cut_query_name s (name ∷ names) = elim (cut_prefix_fold s name) [
  | none ↦ cut_query_name s names
  | some rest ↦ some (length name, rest)
]

-- `[^\s&"']`.
abbrev pub in_query_value : ℕ → Bool
in_query_value c = not (is_blank c || c == b'&' || c == 34 || c == 39)

find_query_value : Text → Option (ℕ × Text) → Option (Text × ℕ)
find_query_value s none = none
find_query_value s (some (size, rest)) =
    let value = run_length in_query_value rest in
    if value == 0 then none else some (take (1 + size) s ++ redacted, 1 + size + value)

-- `queryKeyRe`.
unfoldable pub find_query_key : Finder
unfolding find_query_value cut_query_name run_length query_names
find_query_key [] = none
find_query_key (c ∷ s) =
    if c == b'?' || c == b'&' then find_query_value (c ∷ s) (cut_query_name s query_names) else none

unfoldable pub redact : Text → Text
unfolding find_bearer find_api_key find_query_key replace_from
redact msg =
    replace_from find_query_key 0 (replace_from find_api_key 0 (replace_from find_bearer 0 msg))
