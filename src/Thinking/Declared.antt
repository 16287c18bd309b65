-- ===== src/Thinking/Declared.antt =====
-- Which levels `SupportedLevels` of internal/thinking/thinking.go takes for declared.
use opencode_go_cliproxyapi.Prelude.{
  All, Bool, List, [], and-true, ap, arith, false, inl, inr, is_empty, ltb, map, none, not, or-true,
  refl, some, subst, sym, true, ◌&&◌, ◌++◌, ◌↔◌, ◌∙◌, ◌∷◌, ◌≡◌, ◌⊎◌,
}
use opencode_go_cliproxyapi.Prelude.Text.{
  Text, codes, is_space, lower_byte, mem_text, text_eq, text_eq_iff, text_eq_refl, text_eq_sound,
  trim_space,
}
use opencode_go_cliproxyapi.Prelude.Text.Trim.{
  IsPlain, IsSpaces, trim_space-IsSpaces, trim_space-append,
}
use opencode_go_cliproxyapi.Thinking.Levels.{mem-declared_levels, mem-supported_canonical}
use opencode_go_cliproxyapi.Thinking.{
  ThinkingSupport, canonical_levels, declared_levels, declares, default_levels, names_level,
  or_default_levels, supported_levels,
}

-- A text is a level in any case, with white space around it.
pub record Names (level l : Text) : Type 0 where
  pub before : Text
  pub word : Text
  pub after : Text
  pub spaced : l ≡ before ++ (word ++ after)
  pub blank_before : IsSpaces before
  pub blank_after : IsSpaces after
  pub folded : map lower_byte word ≡ level

-- One of the texts is the level, in any case and with white space around it.
abbrev pub Declares : List Text → Text → Type 0
Declares ls level = (l : Text) × (mem_text l ls ≡ true) × Names level l

All-mem : (P : Text → Type 0) (ls : List Text) (t : Text) → All P ls → mem_text t ls ≡ true → P t
unfolding mem_text
All-mem P [] t h m = cc
All-mem P (l ∷ ls) t h m = elim (or-true (text_eq l t) (mem_text t ls) m) [
  | inl e ↦ subst P (text_eq_sound l t e) h.0
  | inr k ↦ All-mem P ls t h.1 k
]

-- A text that has a byte, and only bytes of ASCII that are no white space.
abbrev IsWord : Text → Type 0
IsWord t = (is_empty t ≡ false) × All IsPlain t

all_plain : Text → Bool
all_plain [] = true
all_plain (c ∷ s) = (ltb c 128 && not (is_space c)) && all_plain s

all_plain-IsPlain : (s : Text) → all_plain s ≡ true → All IsPlain s
unfolding all_plain
all_plain-IsPlain [] h = tt
all_plain-IsPlain (c ∷ s) h =
    let (first, later) = and-true (ltb c 128 && not (is_space c)) (all_plain s) h in
    (first, all_plain-IsPlain s later)

canonical-IsWord : (t : Text) → mem_text t canonical_levels ≡ true → IsWord t
unfolding all_plain is_space
canonical-IsWord t m =
    All-mem IsWord canonical_levels t
      (
        (refl, all_plain-IsPlain (codes "none") refl),
        (
          (refl, all_plain-IsPlain (codes "minimal") refl),
          (
            (refl, all_plain-IsPlain (codes "low") refl),
            (
              (refl, all_plain-IsPlain (codes "medium") refl),
              (
                (refl, all_plain-IsPlain (codes "high") refl),
                (
                  (refl, all_plain-IsPlain (codes "xhigh") refl),
                  ((refl, all_plain-IsPlain (codes "max") refl), tt),
                ),
              ),
            ),
          ),
        ),
      )
      m

folded-IsPlain : (word : Text) → All IsPlain (map lower_byte word) → All IsPlain word
unfolding is_space
folded-IsPlain [] h = tt
folded-IsPlain (c ∷ word) h = (ground (arith, h.0), folded-IsPlain word h.1)

word-trim :
    (level l word before after : Text)
    → IsWord level
    → map lower_byte word ≡ level
    → IsSpaces before
    → IsSpaces after
    → trim_space (before ++ (word ++ after)) ≡ word
word-trim level l [] before after w e h k = cc (w.0)
word-trim level l (c ∷ word) before after w e h k =
    trim_space-append before after c word h k
      (folded-IsPlain (c ∷ word) (subst (All IsPlain) (sym e) w.1))

names_level-Names :
    (level l : Text)
    → mem_text level canonical_levels ≡ true
    → (names_level level l ≡ true) ↔ Names level l
unfolding names_level
names_level-Names level l canonical = (
  λ h.
      let (before, after, k, k', e) = trim_space-IsSpaces l in
      record {
        before = before;
        word = trim_space l;
        after = after;
        spaced = e;
        blank_before = k;
        blank_after = k';
        folded = text_eq_sound _ _ h;
      },
  λ n. (text_eq_iff (map lower_byte (trim_space l)) level).1 (
      ap (λ r. map lower_byte (trim_space r)) n.spaced
      ∙ ap (map lower_byte) (
          word-trim level l n.word n.before n.after (canonical-IsWord level canonical) n.folded
            n.blank_before n.blank_after)
      ∙ n.folded),
)

declares-Declares :
    (ls : List Text) (level : Text)
    → mem_text level canonical_levels ≡ true
    → (declares ls level ≡ true) ↔ Declares ls level
unfolding declares mem_text
declares-Declares [] level canonical = (λ h. cc, λ d. cc (d.1))
declares-Declares (l ∷ ls) level canonical =
    let (found, shown) = declares-Declares ls level canonical in
    let (named, naming) = names_level-Names level l canonical in
    (
      λ h. elim (or-true (names_level level l) (declares ls level) h) [
        | inl n ↦ (l, ground (arith, text_eq_refl l), named n)
        | inr d ↦ let (m, listed, n) = found d in (m, ground (arith, listed), n)
      ],
      λ d. elim (or-true (text_eq l d.0) (mem_text d.0 ls) d.1) [
        | inl e ↦
            let known = naming (subst (Names level) (sym (text_eq_sound l d.0 e)) d.2) in
            ground (arith, known)
        | inr k ↦ let later = shown (d.0, k, d.2) in ground (arith, later)
      ],
    )

-- What the supported levels are, for the levels that a model declares.
abbrev Supports : List Text → Text → Type 0
Supports ls level =
    (mem_text level canonical_levels ≡ true)
    × (Declares ls level
        ⊎ (((c : Text) → mem_text c canonical_levels ≡ true → ¬ Declares ls c)
            × (mem_text level default_levels ≡ true)))

or_default_levels-Supports :
    (ls xs : List Text) (level : Text)
    → ((t : Text) → mem_text t xs ≡ (mem_text t canonical_levels && declares ls t))
    → (mem_text level (or_default_levels xs) ≡ true) ↔ Supports ls level
unfolding mem_text supported_levels
or_default_levels-Supports ls [] level h =
    let none_declared : (c : Text) → mem_text c canonical_levels ≡ true → ¬ Declares ls c =
      λ c known d. let k = (declares-Declares ls c known).1 d in cc (h c, known, k) in
    (
      λ m. (mem-supported_canonical none level m, inr (none_declared, m)),
      λ s. elim s.1 [ inl d ↦ absurd (none_declared level s.0 d) | inr other ↦ other.1 ],
    )
or_default_levels-Supports ls (x ∷ xs) level h = (
  λ m.
      let (known, d) =
        and-true (mem_text level canonical_levels) (declares ls level) (sym (h level) ∙ m) in
      (known, inl ((declares-Declares ls level known).0 d)),
  λ s. elim s.1 [
    | inl d ↦ let k = (declares-Declares ls level s.0).1 d in h level ∙ both _ _ s.0 k
    | inr other ↦
        let first : mem_text x (x ∷ xs) ≡ true = ground (arith, text_eq_refl x) in
        let (known, d) =
          and-true (mem_text x canonical_levels) (declares ls x) (sym (h x) ∙ first) in
        absurd (other.0 x known ((declares-Declares ls x known).0 d))
  ],
)
  where
    both : (a b : Bool) → a ≡ true → b ≡ true → (a && b) ≡ true
    both a b h k = ground arith

-- The levels that a model supports are the canonical levels that it declares, in any case and with white
-- space around them, where it declares one at least; else they are "low", "medium" and "high".
pub supported_levels-Declares :
    (ts : ThinkingSupport) (level : Text)
    → (mem_text level (supported_levels (some ts)) ≡ true) ↔ (
        (mem_text level canonical_levels ≡ true)
        × (Declares ts.levels level
            ⊎ (((c : Text) → mem_text c canonical_levels ≡ true → ¬ Declares ts.levels c)
                × (mem_text level default_levels ≡ true))))
unfolding supported_levels
supported_levels-Declares ts level =
    or_default_levels-Supports ts.levels (declared_levels ts.levels canonical_levels) level
      (mem-declared_levels ts.levels canonical_levels)
