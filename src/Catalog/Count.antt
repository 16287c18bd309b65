-- ===== src/Catalog/Count.antt =====
-- Every entry of the catalog is accounted for by `swap` of internal/catalog/catalog.go.
use opencode_go_cliproxyapi.Prelude.{
  Bool-cases, IsSubsequence, IsSubsequence-keep_last, IsSubsequence-nil, IsSubsequence-skip_last,
  List, Option-cases, [], append-nil, append_assoc, arith, false, if◌then◌else◌, inl, inr, is_empty,
  length, length-append, map, not, refl, subst, suc, sym, true, ℕ, ◌&&◌, ◌++◌, ◌+◌, ◌∷◌, ◌≡◌,
}
use opencode_go_cliproxyapi.Prelude.Text.{Text, codes, mem_text}
use opencode_go_cliproxyapi.Prelude.Dict.{lookup}
use opencode_go_cliproxyapi.Config.{Config}
use opencode_go_cliproxyapi.Catalog.Route.{
  Library, Resolution, Route, by_family, endpoint_escapes_base, overridden, protocol_enabled,
  resolve, to_route, unresolved,
}
use opencode_go_cliproxyapi.Catalog.Entry.{ModelRecord, RawModel}
use opencode_go_cliproxyapi.Catalog.Step.{place-keeps}
use opencode_go_cliproxyapi.Catalog.Build.{
  Building, add_entries, add_entry, admit, build, clash_reason, duplicate_warning, exclude, install,
  place, start, warn,
}

-- The identifiers of the entries that repeat that of an earlier one, in a list read after others.
abbrev pub repeated : List Text → List RawModel → List Text
repeated seen [] = []
repeated seen (e ∷ es) =
    if is_empty e.id
    then repeated seen es
    else if mem_text e.id seen
    then e.id ∷ repeated seen es
    else repeated (e.id ∷ seen) es

abbrev sorted_out : Building → ℕ
sorted_out b = length b.models + length b.unsup

module _ (lib : Library) (cfg : Config) where
  exclude-sorted_out :
      (id reason : Text) (b : Building) → sorted_out (exclude id reason b) ≡ suc (sorted_out b)
  exclude-sorted_out id reason b =
      omega (arith, length-append {0} b.unsup (record { upstream_id = id; reason = reason } ∷ []))

  install-sorted_out :
      (rec : ModelRecord) (b : Building)
      → (sorted_out (install lib cfg rec b) ≡ suc (sorted_out b))
        × ((install lib cfg rec b).seen ≡ b.seen)
  unfolding install
  install-sorted_out rec b = elim (Option-cases (lookup rec.public_id b.index)) [
    | inr (taken, e1) ↦
        rw (e1, install)
          (
            exclude-sorted_out rec.upstream_id
                (clash_reason lib cfg rec.public_id taken.upstream_id)
                (warn (clash_reason lib cfg rec.public_id taken.upstream_id) b),
            refl,
          )
    | inl free ↦ elim (Option-cases (lookup rec.upstream_id b.index)) [
      | inr (taken, e2) ↦
          rw (free, install)
            (rw (e2, install)
              (
                exclude-sorted_out rec.upstream_id
                    (clash_reason lib cfg taken.public_id rec.upstream_id)
                    (warn (clash_reason lib cfg taken.public_id rec.upstream_id) b),
                refl,
              ))
      | inl free2 ↦
          rw (free, install)
            (rw (free2, install) (omega (arith, length-append {0} b.models (rec ∷ [])), refl))
    ]
  ]

  admit-sorted_out :
      (e : RawModel) (route : Route) (endpoint : Text) (b : Building)
      → (sorted_out (admit lib cfg e route endpoint b) ≡ suc (sorted_out b))
        × ((admit lib cfg e route endpoint b).seen ≡ b.seen)
  unfolding admit
  admit-sorted_out e route endpoint b = elim (Bool-cases (protocol_enabled cfg.protocols route)) [
    | inr off ↦ rw off (exclude-sorted_out _ _ b, refl)
    | inl on ↦
        elim (Bool-cases
          (not (is_empty endpoint) && endpoint_escapes_base lib cfg.base_url endpoint)) [
            | inl out ↦ rw (on, out) (exclude-sorted_out _ _ b, refl)
            | inr inside ↦ rw (on, inside) (install-sorted_out _ b)
          ]
  ]

  place-sorted_out :
      (e : RawModel) (r : Resolution) (b : Building)
      → (sorted_out (place lib cfg e r b) ≡ suc (sorted_out b))
        × ((place lib cfg e r b).seen ≡ b.seen)
  unfolding place
  place-sorted_out e (overridden o) b = admit-sorted_out e (to_route o.protocol) o.endpoint _
  place-sorted_out e (by_family r) b = admit-sorted_out e r [] b
  place-sorted_out e unresolved b = (exclude-sorted_out _ _ b, refl)

  add_entry-nameless :
      (e : RawModel) (b : Building)
      → is_empty e.id ≡ true
      → add_entry lib cfg e b ≡ exclude [] (codes "missing id") b
  unfolding add_entry
  add_entry-nameless e b h = rw h refl

  add_entry-again :
      (e : RawModel) (b : Building)
      → is_empty e.id ≡ false
      → mem_text e.id b.seen ≡ true
      → add_entry lib cfg e b ≡ warn (duplicate_warning lib cfg e.id) b
  unfolding add_entry
  add_entry-again e b h k = rw (h, k) refl

  add_entry-first :
      (e : RawModel) (b : Building)
      → is_empty e.id ≡ false
      → mem_text e.id b.seen ≡ false
      → add_entry lib cfg e b
        ≡ place lib cfg e (resolve cfg e.id) (record b { seen = e.id ∷ b.seen })
  unfolding add_entry
  add_entry-first e b h k = rw (h, k) refl

  add_entries-next :
      (e : RawModel) (es : List RawModel) (b b' : Building)
      → add_entry lib cfg e b ≡ b'
      → add_entries lib cfg (e ∷ es) b ≡ add_entries lib cfg es b'
  unfolding add_entries
  add_entries-next e es b b' h = rw h refl

  add_entries-sorted_out :
      (es : List RawModel) (b : Building)
      → sorted_out (add_entries lib cfg es b) + length (repeated b.seen es)
        ≡ sorted_out b + length es
  add_entries-sorted_out [] b = unfold add_entries in omega arith
  add_entries-sorted_out (e ∷ es) b = elim (Bool-cases (is_empty e.id)) [
    | inl nameless ↦
        let b' = exclude [] (codes "missing id") b in
        rw (add_entries-next e es b b' (add_entry-nameless e b nameless), nameless)
          (omega
            (arith, add_entries-sorted_out es b', exclude-sorted_out [] (codes "missing id") b))
    | inr named ↦ elim (Bool-cases (mem_text e.id b.seen)) [
      | inl again ↦
          rw (add_entries-next e es b _ (add_entry-again e b named again), named, again)
            (omega (arith, add_entries-sorted_out es (warn (duplicate_warning lib cfg e.id) b)))
      | inr first ↦
          let before : Building = record b { seen = e.id ∷ b.seen } in
          let b' = place lib cfg e (resolve cfg e.id) before in
          let (more, same) = place-sorted_out e (resolve cfg e.id) before in
          let ih = add_entries-sorted_out es b' in
          let ih' : sorted_out (add_entries lib cfg es b') + length (repeated (e.id ∷ b.seen) es)
              ≡ sorted_out b' + length es =
            subst
              (λ (seen : List Text).
                sorted_out (add_entries lib cfg es b') + length (repeated seen es)
                ≡ sorted_out b' + length es)
              same ih in
          rw (add_entries-next e es b b' (add_entry-first e b named first), named, first)
            (omega (arith, ih', more))
    ]
  ]

  -- What the loop warned of stays on its list.
  Warned : List Text → Building → Type 0
  Warned ws b = IsSubsequence ws b.warns

  place-Warned :
      (ws : List Text) (e : RawModel) (b : Building)
      → is_empty e.id ≡ false
      → Warned ws b
      → Warned ws (place lib cfg e (resolve cfg e.id) b)
  unfolding Warned
  place-Warned ws e b named h =
      place-keeps lib cfg (Warned ws) (λ id reason b k. k)
        (λ text b k. IsSubsequence-skip_last text k) (λ id b k. k) (λ e route endpoint b p f g k. k)
        e (resolve cfg e.id) b named refl h

  abbrev warnings : List Text → List RawModel → List Text
  warnings seen es = map (duplicate_warning lib cfg) (repeated seen es)

  add_entries-Warned :
      (es : List RawModel) (ws : List Text) (b : Building)
      → Warned ws b
      → Warned (ws ++ warnings b.seen es) (add_entries lib cfg es b)
  unfolding Warned
  add_entries-Warned [] ws b h =
      unfold add_entries in subst (λ (xs : List Text). Warned xs b) (sym (append-nil ws)) h
  add_entries-Warned (e ∷ es) ws b h = elim (Bool-cases (is_empty e.id)) [
    | inl nameless ↦
        let b' = exclude [] (codes "missing id") b in
        rw (add_entries-next e es b b' (add_entry-nameless e b nameless), nameless)
          (add_entries-Warned es ws b' h)
    | inr named ↦ elim (Bool-cases (mem_text e.id b.seen)) [
      | inl again ↦
          let warning = duplicate_warning lib cfg e.id in
          let b' : Building = warn warning b in
          let ih =
            add_entries-Warned es (ws ++ warning ∷ []) b' (IsSubsequence-keep_last warning h) in
          rw (add_entries-next e es b b' (add_entry-again e b named again), named, again)
            (subst (λ (xs : List Text). IsSubsequence xs (add_entries lib cfg es b').warns)
              (append_assoc ws (warning ∷ []) (warnings b.seen es)) ih)
      | inr first ↦
          let before : Building = record b { seen = e.id ∷ b.seen } in
          let b' = place lib cfg e (resolve cfg e.id) before in
          let same = (place-sorted_out e (resolve cfg e.id) before).1 in
          let ih = add_entries-Warned es ws b' (place-Warned ws e before named h) in
          rw (add_entries-next e es b b' (add_entry-first e b named first), named, first)
            (subst
              (λ (seen : List Text).
                IsSubsequence (ws ++ warnings seen es) (add_entries lib cfg es b').warns)
              same ih)
    ]
  ]

  -- The published models, the excluded entries and the entries that repeat an identifier add up to the
  -- entries, and the warnings hold one for each entry that repeats an identifier, in their order.
  pub build-accounts :
      (es : List RawModel) (warns : List Text)
      → (length (build lib cfg es warns).models
            + length (build lib cfg es warns).unsup
            + length (repeated [] es)
          ≡ length es)
        × IsSubsequence
            (map (duplicate_warning lib cfg) (repeated [] es))
            (build lib cfg es warns).warns
  unfolding build Warned
  build-accounts es warns = (
    omega (arith, add_entries-sorted_out es (start lib cfg warns)),
    add_entries-Warned es [] (start lib cfg warns) (IsSubsequence-nil warns),
  )
