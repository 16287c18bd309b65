-- ===== src/Protocol/Images/Back.antt =====
-- An image URL that becomes a Messages source and an image URL again.
use mathlib.Core.Option
use mathlib.Core.List.{reverse, reverse-append, reverse-reverse}
use opencode_go_cliproxyapi.Prelude.Outcome.{Outcome, ok}
use opencode_go_cliproxyapi.Prelude.{
  ==_iff, Bool-cases, Option, [], and-true, ap, append_assoc, if_false, if_split, if_true, inl, inr,
  none, or_default, refl, some, subst, sym, true, ℕ, ◌++◌, ◌==◌, ◌∙◌, ◌∷◌, ◌≡◌,
}
use opencode_go_cliproxyapi.Prelude.Text.{
  Text, codes, cut_byte, cut_prefix, has_prefix, has_suffix, text_eq, trim_prefix, trim_suffix,
}
use opencode_go_cliproxyapi.ErrorClass.{ClassifiedError}
use opencode_go_cliproxyapi.Protocol.Images.{
  ImageSource, base64_source, claude_image_url, data_source, image_source, or_octets, source_behind,
  source_url, url_source,
}
use opencode_go_cliproxyapi.ErrorClass.{ClassifiedError}

cut_prefix-append : (s p r : Text) → cut_prefix s p ≡ some r → s ≡ p ++ r
unfolding cut_prefix
cut_prefix-append s [] r h = cc
cut_prefix-append [] (p ∷ ps) r h = cc
cut_prefix-append (c ∷ s) (p ∷ ps) r h = elim (Bool-cases (c == p)) [
  | inl e ↦
      let known : c ≡ p = (==_iff c p).0 e in
      let t = cut_prefix-append s ps r (sym (if_true (c == p) _ _ e) ∙ h) in
      ap (λ b. b ∷ s) known ∙ ap (λ q. p ∷ q) t
  | inr n ↦ let f = sym (if_false (c == p) (cut_prefix s ps) none n) ∙ h in cc
]

has_prefix-cut : (s p : Text) → has_prefix s p ≡ true → (r : Text) × (cut_prefix s p ≡ some r)
unfolding cut_prefix has_prefix
has_prefix-cut s [] h = (s, refl)
has_prefix-cut [] (p ∷ ps) h = cc
has_prefix-cut (c ∷ s) (p ∷ ps) h =
    let (e, t) = and-true (c == p) (has_prefix s ps) h in
    let (r, k) = has_prefix-cut s ps t in (r, if_true (c == p) _ _ e ∙ k)

trim_suffix-append : (s p : Text) → has_suffix s p ≡ true → s ≡ trim_suffix s p ++ p
unfolding has_suffix trim_suffix trim_prefix
trim_suffix-append s p h =
    let (r, k) = has_prefix-cut (reverse s) (reverse p) h in
    sym (reverse-reverse s)
    ∙ ap reverse (cut_prefix-append (reverse s) (reverse p) r k)
    ∙ reverse-append (reverse p) r
    ∙ ap (λ q. reverse r ++ q) (reverse-reverse p)
    ∙ sym (ap (λ o. reverse (or_default o (reverse s)) ++ p) k)

abbrev behind : ℕ → Option (Text × Text) → Option (Text × Text)
behind c o = Option.map (λ p. (c ∷ p.0, p.1)) o

abbrev Cut : ℕ → Text → Option (Text × Text) → Type 0
Cut b s o = (before after : Text) → o ≡ some (before, after) → s ≡ before ++ b ∷ after

behind-Cut :
    (b c : ℕ) (s : Text) (o : Option (Text × Text)) → Cut b s o → Cut b (c ∷ s) (behind c o)
behind-Cut b c s none found before after h = cc
behind-Cut b c s (some (x, y)) found before after h =
    let front : c ∷ x ≡ before = cc in
    let back : y ≡ after = cc in
    ap (λ q. c ∷ q) (found x y refl)
    ∙ ap (λ r. (c ∷ x) ++ b ∷ r) back
    ∙ ap (λ q. q ++ b ∷ after) front

first-Cut : (b c : ℕ) (s : Text) → c ≡ b → Cut b (c ∷ s) (some ([], s))
first-Cut b c s known before after h =
    let front : [] ≡ before = cc in
    let back : s ≡ after = cc in
    ap (λ d. d ∷ s) known ∙ ap (λ r. b ∷ r) back ∙ ap (λ q. q ++ b ∷ after) front

cut_byte-Cut : (b : ℕ) (s : Text) → Cut b s (cut_byte b s)
unfolding cut_byte
cut_byte-Cut b [] = λ before after h. cc
cut_byte-Cut b (c ∷ s) =
    if_split (Cut b (c ∷ s)) (c == b) (some ([], s)) (behind c (cut_byte b s))
      (λ e. first-Cut b c s ((==_iff c b).0 e))
      (λ _. behind-Cut b c s (cut_byte b s) (cut_byte-Cut b s))

module _ (quote : Text → Text) where
  abbrev Back : ImageSource → Type 0
  Back src = (u : Text) → source_url quote src ≡ ok u → image_source u ≡ ok src

  url_of_base64 :
      (media body u : Text)
      → source_url quote (base64_source media body) ≡ ok u
      → codes "data:" ++ (or_octets media ++ (codes ";base64," ++ body)) ≡ u
  unfolding source_url claude_image_url text_eq
  url_of_base64 media [] u h = cc
  url_of_base64 media (c ∷ body) u h = cc

  url_of_url : (url u : Text) → source_url quote (url_source url) ≡ ok u → url ≡ u
  unfolding source_url claude_image_url text_eq
  url_of_url [] u h = cc
  url_of_url (c ∷ url) u h = cc

  octets :
      (body : Text)
      → image_source (codes "data:" ++ (or_octets (or_octets []) ++ (codes ";base64," ++ body)))
        ≡ ok (base64_source (or_octets []) body)
  unfolding image_source source_behind data_source cut_prefix cut_byte or_octets has_suffix
      has_prefix trim_suffix trim_prefix
  octets body = refl

  media-Back :
      (url header body media : Text)
      → url ≡ codes "data:" ++ (header ++ 44 ∷ body)
      → header ≡ media ++ codes ";base64"
      → image_source url ≡ ok (base64_source (or_octets media) body)
      → Back (base64_source (or_octets media) body)
  unfolding or_octets
  media-Back url header body [] e t m u h =
      ap image_source (sym (url_of_base64 (or_octets []) body u h)) ∙ octets body
  media-Back url header body (c ∷ media) e t m u h =
      let same =
        e
        ∙ ap (λ r. codes "data:" ++ (r ++ 44 ∷ body)) t
        ∙ ap (λ r. codes "data:" ++ r) (append_assoc (c ∷ media) (codes ";base64") (44 ∷ body))
        ∙ url_of_base64 (c ∷ media) body u h in
      ap image_source (sym same) ∙ m

  abbrev Kept : Text → Outcome ClassifiedError ImageSource → Type 0
  Kept url o = image_source url ≡ o → (src : ImageSource) → o ≡ ok src → Back src

  url-Kept : (url : Text) → Kept url (ok (url_source url))
  url-Kept url m src h u k =
      let known : url_source url ≡ src = cc in
      let same = url_of_url url u (ap (source_url quote) known ∙ k) in
      ap image_source (sym same) ∙ m ∙ h

  data-Kept :
      (url rest : Text) (o : Option (Text × Text))
      → url ≡ codes "data:" ++ rest
      → cut_byte 44 rest ≡ o
      → Kept url (data_source url o)
  unfolding data_source
  data-Kept url rest none e c = λ m src h. cc
  data-Kept url rest (some (header, body)) e c =
      if_split (Kept url) (has_suffix header (codes ";base64"))
        (ok (base64_source (or_octets (trim_suffix header (codes ";base64"))) body))
        (ok (url_source url))
        (λ s m src h.
          let known : base64_source (or_octets (trim_suffix header (codes ";base64"))) body ≡ src =
            cc in
          subst Back known (
            media-Back url header body (trim_suffix header (codes ";base64"))
              (e ∙ ap (λ r. codes "data:" ++ r) (cut_byte-Cut 44 rest header body c))
              (trim_suffix-append header (codes ";base64") s) m))
        (λ _. url-Kept url)

  source_behind-Kept :
      (url : Text) (o : Option Text)
      → cut_prefix url (codes "data:") ≡ o
      → Kept url (source_behind url o)
  unfolding source_behind
  source_behind-Kept url none e = url-Kept url
  source_behind-Kept url (some rest) e =
      data-Kept url rest (cut_byte 44 rest) (cut_prefix-append url (codes "data:") rest e) refl

  -- An image URL that became the source of a Messages block, and of it a URL that was not refused, becomes
  -- the same source again.
  pub image_source-source_url :
      (url u : Text) (src : ImageSource)
      → image_source url ≡ ok src
      → source_url quote src ≡ ok u
      → image_source u ≡ ok src
  unfolding image_source
  image_source-source_url url u src h k =
      source_behind-Kept url (cut_prefix url (codes "data:")) refl refl src h u k
