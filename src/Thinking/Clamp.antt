-- ===== src/Thinking/Clamp.antt =====
-- `clampToSupported` of internal/thinking/thinking.go: the nearest supported level.
use opencode_go_cliproxyapi.Prelude.{
  All, Bool-cases, List, [], ap, arith, inl, inr, ltb, refl, some, subst, true, ℕ, ◌&&◌, ◌<◌, ◌==◌,
  ◌||◌, ◌∙◌, ◌∷◌, ◌≡◌, ◌≢◌, ◌≤◌, ◌⊎◌,
}
use opencode_go_cliproxyapi.Prelude.Text.{Text, mem_text, text_eq_refl}
use opencode_go_cliproxyapi.Thinking.Levels.{at_position-position, position-le, position_pos}
use opencode_go_cliproxyapi.Thinking.{
  at_position, canonical_levels, clamp_to_supported, closer, closest, distance, position,
}

-- Nearer, or as near and not stronger. A pair is a position and its distance.
abbrev pub NoFarther : ℕ × ℕ → ℕ × ℕ → Type 0
NoFarther r q = (r.1 < q.1) ⊎ ((r.1 ≡ q.1) × (r.0 ≤ q.0))

-- A level's position among the canonical levels, with its distance from a position.
abbrev pub spot : ℕ → Text → ℕ × ℕ
spot at s = (position s canonical_levels, distance at (position s canonical_levels))

closer-NoFarther :
    (at : ℕ) (best : ℕ × ℕ) (s : Text)
    → NoFarther (closer at best (position s canonical_levels)) best
      × NoFarther (closer at best (position s canonical_levels)) (spot at s)
unfolding closer
closer-NoFarther at best s = let idx = position s canonical_levels in (ground arith, ground arith)

NoFarther-trans : {p q r : ℕ × ℕ} → NoFarther p q → NoFarther q r → NoFarther p r
NoFarther-trans h k = ground arith

closest-NoFarther :
    (at : ℕ) (best : ℕ × ℕ) (supported : List Text)
    → NoFarther (closest at best supported) best
      × All (λ s. NoFarther (closest at best supported) (spot at s)) supported
unfolding closest
closest-NoFarther at best [] = (omega arith, tt)
closest-NoFarther at best (s ∷ ss) =
    let next = closer at best (position s canonical_levels) in
    let step = closer-NoFarther at best s in
    let rest = closest-NoFarther at next ss in
    (NoFarther-trans rest.0 step.0, (NoFarther-trans rest.0 step.1, rest.1))

closer-cases :
    (at : ℕ) (best : ℕ × ℕ) (idx : ℕ)
    → (closer at best idx ≡ best) ⊎ (closer at best idx ≡ (idx, distance at idx))
unfolding closer
closer-cases at best idx =
    elim (Bool-cases
      (ltb (distance at idx) best.1 || (distance at idx == best.1 && ltb idx best.0))) [
        | inl e ↦ inr (rw e refl)
        | inr e ↦ inl (rw e refl)
      ]

-- What the loop ends with is its start, or the spot of a level that it saw.
closest-seen :
    (at : ℕ) (best : ℕ × ℕ) (supported : List Text)
    → (closest at best supported ≡ best)
      ⊎ ((s : Text) × (mem_text s supported ≡ true) × (closest at best supported ≡ spot at s))
unfolding closest mem_text
closest-seen at best [] = inl refl
closest-seen at best (s ∷ ss) =
    elim (closest-seen at (closer at best (position s canonical_levels)) ss) [
      | inl e ↦ elim (closer-cases at best (position s canonical_levels)) [
        | inl f ↦ inl (e ∙ f)
        | inr f ↦ inr (s, ground (arith, text_eq_refl s), e ∙ f)
      ]
      | inr (t, m, e) ↦ inr (t, ground arith, e)
    ]

-- A nearest one of the supported levels, the weaker of two as near.
pub record IsNearest (level : Text) (supported : List Text) (r : Text) : Type 0 where
  pub listed : mem_text r supported ≡ true
  pub nearest :
      All
        (λ s.
          NoFarther
            (spot (position level canonical_levels) r)
            (spot (position level canonical_levels) s))
        supported

spot-in_range :
    (at : ℕ) (s : Text) → 0 < at → at ≤ 7 → mem_text s canonical_levels ≡ true → (spot at s).1 < 8
spot-in_range at s low high m =
    ground (arith, position_pos s canonical_levels m, position-le s canonical_levels)

closest-start :
    (at : ℕ) (s : Text) (ss : List Text)
    → 0 < at
    → at ≤ 7
    → mem_text s canonical_levels ≡ true
    → closest at (0, 8) (s ∷ ss) ≢ (0, 8)
closest-start at s ss low high m e =
    let near = (closest-NoFarther at (0, 8) (s ∷ ss)).1.0 in
    let room = spot-in_range at s low high m in
    let same : (closest at (0, 8) (s ∷ ss)).1 ≡ 8 = ap (λ (p : ℕ × ℕ). p.1) e in
    omega (arith, near, room, same)

-- For a canonical level and supported levels that are canonical, of which there is one, the clamp
-- does not go out of range, and returns a nearest supported level.
pub closest-IsNearest :
    (level s : Text) (ss : List Text)
    → mem_text level canonical_levels ≡ true
    → ((t : Text) → mem_text t (s ∷ ss) ≡ true → mem_text t canonical_levels ≡ true)
    → (r : Text) × (at_position
          (closest (position level canonical_levels) (0, 8) (s ∷ ss)).0
          canonical_levels
        ≡ some r)
      × IsNearest level (s ∷ ss) r
closest-IsNearest level s ss known canonical =
    let at = position level canonical_levels in
    let low = position_pos level canonical_levels known in
    let high : at ≤ 7 = position-le level canonical_levels in
    let first = canonical s (unfold mem_text in ground (arith, text_eq_refl s)) in
    elim (closest-seen at (0, 8) (s ∷ ss)) [
      | inl e ↦ absurd (closest-start at s ss low high first e)
      | inr (r, m, e) ↦ (
        r,
        rw e (at_position-position r canonical_levels (canonical r m)),
        record {
          listed = m;
          nearest =
              subst (λ (p : ℕ × ℕ). All (λ t. NoFarther p (spot at t)) (s ∷ ss)) e
                ((closest-NoFarther at (0, 8) (s ∷ ss)).1);
        },
      )
    ]

spot_self :
    (level s : Text)
    → NoFarther
        (spot (position level canonical_levels) level)
        (spot (position level canonical_levels) s)
spot_self level s = ground arith

All-spot_self :
    (level : Text) (ss : List Text)
    → All
        (λ s.
          NoFarther
            (spot (position level canonical_levels) level)
            (spot (position level canonical_levels) s))
        ss
All-spot_self level [] = tt
All-spot_self level (s ∷ ss) = (spot_self level s, All-spot_self level ss)

-- A canonical level is clamped to a nearest supported level, and a supported one to itself; there
-- is a first supported level, and all of them are canonical.
pub clamp_to_supported-IsNearest :
    (level s : Text) (ss : List Text)
    → mem_text level canonical_levels ≡ true
    → ((t : Text) → mem_text t (s ∷ ss) ≡ true → mem_text t canonical_levels ≡ true)
    → (r : Text) × (clamp_to_supported level (s ∷ ss) ≡ some r) × IsNearest level (s ∷ ss) r
unfolding clamp_to_supported
clamp_to_supported-IsNearest level s ss known canonical =
    elim (Bool-cases (mem_text level (s ∷ ss))) [
      | inl e ↦ (level, rw e refl, record { listed = e; nearest = All-spot_self level (s ∷ ss) })
      | inr e ↦ rw e (closest-IsNearest level s ss known canonical)
    ]
