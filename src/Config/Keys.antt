-- ===== src/Config/Keys.antt =====
-- The loops of `validate` in internal/config/config.go over the API keys.
use opencode_go_cliproxyapi.Prelude.Outcome.{ok}
use opencode_go_cliproxyapi.Prelude.{
  All, Bool-cases, List, [], false, inl, inr, is_empty, or-false, refl, suc, ℕ, ◌∷◌, ◌≡◌,
}
use opencode_go_cliproxyapi.Prelude.Text.{Distinct, Text, mem_text, text_eq, text_eq_comm}
use opencode_go_cliproxyapi.Config.{check_distinct, check_keys}

pub check_keys_sound :
    (i : ℕ) (ks : List Text) → check_keys i ks ≡ ok tt → All (λ k. is_empty k ≡ false) ks
unfolding check_keys
check_keys_sound i [] h = tt
check_keys_sound i (k ∷ ks) h = elim (Bool-cases (is_empty k)) [
  | inl e ↦ cc (rw e at h)
  | inr e ↦ (e, check_keys_sound (suc i) ks (rw e at h))
]

pub check_keys_complete :
    (i : ℕ) (ks : List Text) → All (λ k. is_empty k ≡ false) ks → check_keys i ks ≡ ok tt
unfolding check_keys
check_keys_complete i [] h = refl
check_keys_complete i (k ∷ ks) h = rw h.0 (check_keys_complete (suc i) ks h.1)

-- No element of the second list is in the first.
abbrev pub Fresh : List Text → List Text → Type 0
Fresh seen ks = All (λ k. mem_text k seen ≡ false) ks

Fresh-cons :
    (k : Text) (seen ks : List Text) → Fresh (k ∷ seen) ks → Fresh seen ks × (mem_text k ks ≡ false)
unfolding mem_text
Fresh-cons k seen [] h = (tt, refl)
Fresh-cons k seen (j ∷ ks) h =
    let rest = Fresh-cons k seen ks h.1 in
    let (differ, unseen) = or-false (text_eq k j) (mem_text j seen) h.0 in
    ((unseen, rest.0), rw (text_eq_comm j k, differ) (rest.1))

cons-Fresh :
    (k : Text) (seen ks : List Text) → Fresh seen ks → mem_text k ks ≡ false → Fresh (k ∷ seen) ks
unfolding mem_text
cons-Fresh k seen [] h m = tt
cons-Fresh k seen (j ∷ ks) h m =
    let (differ, later) = or-false (text_eq j k) (mem_text k ks) m in
    (rw (text_eq_comm k j, differ) (h.0), cons-Fresh k seen ks h.1 later)

pub check_distinct_sound :
    (seen ks : List Text) → check_distinct seen ks ≡ ok tt → Fresh seen ks × Distinct ks
unfolding check_distinct
check_distinct_sound seen [] h = (tt, tt)
check_distinct_sound seen (k ∷ ks) h = elim (Bool-cases (mem_text k seen)) [
  | inl e ↦ cc (rw e at h)
  | inr e ↦
      let rest = check_distinct_sound (k ∷ seen) ks (rw e at h) in
      let split = Fresh-cons k seen ks rest.0 in ((e, split.0), (split.1, rest.1))
]

pub check_distinct_complete :
    (seen ks : List Text) → Fresh seen ks → Distinct ks → check_distinct seen ks ≡ ok tt
unfolding check_distinct
check_distinct_complete seen [] f d = refl
check_distinct_complete seen (k ∷ ks) f d =
    rw f.0 (check_distinct_complete (k ∷ seen) ks (cons-Fresh k seen ks f.1 d.0) d.1)

pub Fresh-nil : (ks : List Text) → Fresh [] ks
unfolding mem_text
Fresh-nil [] = tt
Fresh-nil (k ∷ ks) = (refl, Fresh-nil ks)
