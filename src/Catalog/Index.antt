-- ===== src/Catalog/Index.antt =====
-- The index of a snapshot built by `swap` of internal/catalog/catalog.go.
use opencode_go_cliproxyapi.Prelude.{
  All, All-append, All-imp, Bool, List, Member, Member-append_last, Member-append_left, [], arith,
  false, if◌then◌else◌, inl, inr, map, none, or-false, refl, some, subst, sym, true, ◌++◌, ◌||◌,
  ◌∙◌, ◌∷◌, ◌≡◌, ◌⊎◌,
}
use opencode_go_cliproxyapi.Prelude.Text.{
  Distinct, Text, Text-cases, mem_text, text_eq, text_eq_comm, text_eq_iff, text_eq_of_ne,
  text_eq_refl,
}
use opencode_go_cliproxyapi.Prelude.Dict.{Dict, insert, keys_differ, lookup, lookup-insert}
use opencode_go_cliproxyapi.Config.{Config}
use opencode_go_cliproxyapi.Catalog.Route.{Library}
use opencode_go_cliproxyapi.Catalog.Entry.{ModelRecord, RawModel}
use opencode_go_cliproxyapi.Catalog.Build.{Building, add_entries, build, make_record, start}
use opencode_go_cliproxyapi.Catalog.Step.{add_entries-keeps}

-- Both identifiers of a record resolve to it.
abbrev pub Resolves : Dict ModelRecord → ModelRecord → Type 0
Resolves index r = (lookup r.public_id index ≡ some r) × (lookup r.upstream_id index ≡ some r)

-- The index and the models say the same: what the index holds is a model, under one of its
-- identifiers; each model is held under both; and no two models share an upstream identifier.
pub record IsConsistent (models : List ModelRecord) (index : Dict ModelRecord) : Type 0 where
  pub sound :
      (id : Text) (r : ModelRecord)
      → lookup id index ≡ some r
      → Member r models × ((id ≡ r.public_id) ⊎ (id ≡ r.upstream_id))
  pub complete : All (Resolves index) models
  pub distinct : Distinct (map (λ (r : ModelRecord). r.upstream_id) models)

mem-append_last :
    (t u : Text) (ts : List Text) → mem_text t (ts ++ u ∷ []) ≡ (mem_text t ts || text_eq u t)
unfolding mem_text
mem-append_last t u [] = ground arith
mem-append_last t u (x ∷ xs) = ground (arith, mem-append_last t u xs)

Distinct-append_last :
    (t : Text) (ts : List Text) → Distinct ts → mem_text t ts ≡ false → Distinct (ts ++ t ∷ [])
unfolding mem_text
Distinct-append_last t [] d h = (refl, tt)
Distinct-append_last t (x ∷ xs) d h =
    let (differ, later) = or-false (text_eq x t) (mem_text t xs) h in
    (
      mem-append_last x t xs ∙ rw (d.0, text_eq_comm t x, differ) refl,
      Distinct-append_last t xs d.1 later,
    )

map-append_last :
    (r : ModelRecord) (rs : List ModelRecord)
    → map (λ (m : ModelRecord). m.upstream_id) (rs ++ r ∷ [])
      ≡ map (λ (m : ModelRecord). m.upstream_id) rs ++ r.upstream_id ∷ []
map-append_last r [] = refl
map-append_last r (x ∷ rs) = rw (map-append_last r rs) refl

-- An identifier that the index does not hold is no model's upstream identifier.
unlisted :
    (id : Text) (models : List ModelRecord) (index : Dict ModelRecord)
    → All (Resolves index) models
    → lookup id index ≡ none
    → mem_text id (map (λ (r : ModelRecord). r.upstream_id) models) ≡ false
unfolding mem_text
unlisted id [] index c h = refl
unlisted id (r ∷ rs) index c h =
    let differ =
      text_eq_of_ne r.upstream_id id (λ e. keys_differ id r.upstream_id r index h c.0.1 (sym e)) in
    rw (differ) (unlisted id rs index c.1 h)

module _ (rec : ModelRecord) (models : List ModelRecord) (index : Dict ModelRecord)
    (c : IsConsistent models index) (free_public : lookup rec.public_id index ≡ none)
    (free_upstream : lookup rec.upstream_id index ≡ none) where
  grown : Dict ModelRecord
  grown = insert rec.upstream_id rec (insert rec.public_id rec index)

  lookup-grown :
      (id : Text)
      → lookup id grown ≡ (
          if text_eq rec.upstream_id id
          then some rec
          else if text_eq rec.public_id id
          then some rec
          else lookup id index)
  unfolding grown
  lookup-grown id =
      lookup-insert rec.upstream_id id rec (insert rec.public_id rec index)
      ∙ rw (lookup-insert rec.public_id id rec index) refl

  grown-keeps : (id : Text) (r : ModelRecord) → lookup id index ≡ some r → lookup id grown ≡ some r
  grown-keeps id r h =
      lookup-grown id
      ∙ rw
          (
            text_eq_of_ne rec.upstream_id id
                (keys_differ rec.upstream_id id r index free_upstream h),
            text_eq_of_ne rec.public_id id (keys_differ rec.public_id id r index free_public h),
          )
          h

  grown-new : Resolves grown rec
  grown-new = (
    lookup-grown rec.public_id
        ∙ rw (text_eq_refl rec.public_id) (if-same (text_eq rec.upstream_id rec.public_id)),
    lookup-grown rec.upstream_id ∙ rw (text_eq_refl rec.upstream_id) refl,
  )
    where
      if-same : (b : Bool) → (if b then some rec else some rec) ≡ some rec
      if-same true = refl
      if-same false = refl

  grown_sound :
      (id : Text) (r : ModelRecord)
      → lookup id grown ≡ some r
      → Member r (models ++ rec ∷ []) × ((id ≡ r.public_id) ⊎ (id ≡ r.upstream_id))
  grown_sound id r h = elim (Text-cases rec.upstream_id id) [
    | inl same ↦
        let hit : lookup id grown ≡ some rec =
          lookup-grown id ∙ rw ((text_eq_iff rec.upstream_id id).1 same) refl in
        let eq : rec ≡ r = cc in subst Listed eq (Member-append_last rec models, inr (sym same))
    | inr foreign ↦ elim (Text-cases rec.public_id id) [
      | inl same ↦
          let hit : lookup id grown ≡ some rec =
            lookup-grown id
            ∙ rw (text_eq_of_ne rec.upstream_id id foreign, (text_eq_iff rec.public_id id).1 same)
                refl in
          let eq : rec ≡ r = cc in subst Listed eq (Member-append_last rec models, inl (sym same))
      | inr distinct ↦
          let old : lookup id grown ≡ lookup id index =
            lookup-grown id
            ∙ rw (text_eq_of_ne rec.upstream_id id foreign, text_eq_of_ne rec.public_id id distinct)
                refl in
          let (listed, which) = c.sound id r (sym old ∙ h) in
          (Member-append_left r models (rec ∷ []) listed, which)
    ]
  ]
    where
      Listed : ModelRecord → Type 0
      Listed s = Member s (models ++ rec ∷ []) × ((id ≡ s.public_id) ⊎ (id ≡ s.upstream_id))

  grown-IsConsistent : IsConsistent (models ++ rec ∷ []) grown
  grown-IsConsistent = record {
    sound = grown_sound;
    complete =
        All-append (Resolves grown) models (rec ∷ [])
          (All-imp (Resolves index) (Resolves grown) models
            (λ r h. (grown-keeps r.public_id r h.0, grown-keeps r.upstream_id r h.1)) c.complete)
          (grown-new, tt);
    distinct = rw (map-append_last rec models) (
        Distinct-append_last rec.upstream_id _ c.distinct
          (unlisted rec.upstream_id models index c.complete free_upstream));
  }

pub empty-IsConsistent : IsConsistent [] []
unfolding lookup
empty-IsConsistent = record { sound = λ id r h. cc; complete = tt; distinct = tt }

module _ (lib : Library) (cfg : Config) where
  add_entries-IsConsistent :
      (es : List RawModel) (b : Building)
      → IsConsistent b.models b.index
      → let b' = add_entries lib cfg es b in IsConsistent b'.models b'.index
  add_entries-IsConsistent es b h =
      add_entries-keeps lib cfg (λ d. IsConsistent d.models d.index) (λ id reason d k. k)
        (λ text d k. k) (λ id d k. k)
        (λ e route endpoint d passes p u k.
          unfold grown in
          unfold make_record in
          grown-IsConsistent (make_record lib cfg e route endpoint) d.models d.index k p u)
        es b h

  -- Whatever the entries of the catalog, the snapshot's index and its models say the same: an
  -- identifier resolves only to a model that carries it, every model is found under its public and
  -- under its upstream identifier, and no upstream identifier is published twice.
  pub build-IsConsistent :
      (es : List RawModel) (warns : List Text)
      → IsConsistent (build lib cfg es warns).models (build lib cfg es warns).index
  unfolding build
  build-IsConsistent es warns = add_entries-IsConsistent es (start lib cfg warns) empty-IsConsistent
