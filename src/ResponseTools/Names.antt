-- ===== src/ResponseTools/Names.antt =====
-- The names that `add` of internal/adapter/shared/responses_tools.go records.
use opencode_go_cliproxyapi.Prelude.Outcome.{>>=-eq-ok, Outcome, err, fail_if, ok}
use opencode_go_cliproxyapi.Prelude.{
  All, Bool, Bool-cases, List, Option-cases, [], ap, arith, false, if◌then◌else◌, inl, inr,
  is_empty, map, none, not, or_default, refl, some, subst, sym, true, ◌++◌, ◌||◌, ◌∙◌, ◌∷◌, ◌≡◌,
}
use opencode_go_cliproxyapi.Prelude.Text.{Text, codes, text_eq, text_eq_iff, trim_space}
use opencode_go_cliproxyapi.Prelude.Dict.{insert, lookup, lookup-insert_new, lookup-insert_self}
use opencode_go_cliproxyapi.ResponseTools.{
  Codec, Registry, RespTool, Target, ToolDecl, ToolIdentity, add_child, add_children, add_function,
  as_function, function_tool, identity_eq, is_custom, qualified_name, register,
}
use opencode_go_cliproxyapi.ErrorClass.{ClassifiedError, translation_error}

-- A later registry keeps what an earlier one has recorded.
abbrev pub Grows : Registry → Registry → Type 0
Grows r r' =
    (wire : Text) (i : ToolIdentity) → lookup wire r.names ≡ some i → lookup wire r'.names ≡ some i

identity_path :
    (a b : ToolIdentity) → a.name ≡ b.name → a.namespace ≡ b.namespace → a.custom ≡ b.custom → a ≡ b
identity_path a b h k l = cc

identity_eq_sound : (a b : ToolIdentity) → identity_eq a b ≡ true → a ≡ b
unfolding identity_eq
identity_eq_sound a b h =
    identity_path a b (ground (arith, h, text_eq_iff a.name b.name))
      (ground (arith, h, text_eq_iff a.namespace b.namespace)) (ground (arith, h))

guarded_ok :
    {E A : Type 0} (b : Bool) (e : E) (a a' : A)
    → (if not b then err e else ok a) ≡ ok a'
    → (b ≡ true) × (a ≡ a')
guarded_ok true e a a' h = (refl, cc)
guarded_ok false e a a' h = cc

-- The identity of a declaration in a namespace, or in none.
abbrev pub identity_in : Text → ToolDecl → ToolIdentity
identity_in namespace d = record { name = d.name; namespace = namespace; custom = is_custom d }

-- What a declaration declares: itself, or the tools of its namespace.
abbrev pub declares : RespTool → List (Text × ToolDecl)
declares tool =
    if text_eq tool.decl.kind (codes "namespace")
    then map (λ (d : ToolDecl). (tool.decl.name, d)) (or_default tool.tools [])
    else if is_custom tool.decl || text_eq tool.decl.kind (codes "function")
    then ([], tool.decl) ∷ []
    else []

abbrev pub declared : List RespTool → List (Text × ToolDecl)
declared [] = []
declared (tool ∷ rest) = declares tool ++ declared rest

pub ok_injective :
    (r r' : Registry) → ◌≡◌ {A = Outcome ClassifiedError Registry} (ok r) (ok r') → r ≡ r'
ok_injective r r' h = cc

pub Grows-of_eq : (r r' : Registry) → r ≡ r' → Grows r r'
Grows-of_eq r r' e w i k = ap (λ (q : Registry). lookup w q.names) (sym e) ∙ k

module _ (codec : Codec) where
  abbrev pub Recorded : Registry → Text × ToolDecl → Type 0
  Recorded r (namespace, d) =
      lookup (qualified_name codec d.name namespace) r.names ≡ some (identity_in namespace d)

  register_taken :
      (i prev : ToolIdentity) (tool : ToolDecl) (r r' : Registry)
      → lookup (qualified_name codec i.name i.namespace) r.names ≡ some prev
      → register codec i tool r ≡ ok r'
      → (prev ≡ i) × (r ≡ r')
  unfolding register
  register_taken i prev tool r r' e h =
      let (same, unchanged) =
        guarded_ok (identity_eq prev i)
          (translation_error (codes "Responses tool names collide after namespace conversion")) r r'
          (sym (rw (e, register) refl) ∙ h) in
      (identity_eq_sound prev i same, unchanged)

  register_free :
      (i : ToolIdentity) (tool : ToolDecl) (r r' : Registry)
      → lookup (qualified_name codec i.name i.namespace) r.names ≡ none
      → register codec i tool r ≡ ok r'
      → insert (qualified_name codec i.name i.namespace) i r.names ≡ r'.names
  unfolding register
  register_free i tool r r' e h =
      let wire = qualified_name codec i.name i.namespace in
      let after : Registry = record r {
        names = insert wire i r.names;
        tools = r.tools ++ record tool { name = wire } ∷ [];
      } in
      let step : register codec i tool r ≡ ok after = rw (e, register) refl in
      let same : after ≡ r' =
        (guarded_ok {E = ClassifiedError} true (translation_error []) after r' (sym step ∙ h)).1 in
      ap (λ (q : Registry). q.names) same

  register-ok :
      (i : ToolIdentity) (tool : ToolDecl) (r r' : Registry)
      → register codec i tool r ≡ ok r'
      → Grows r r' × (lookup (qualified_name codec i.name i.namespace) r'.names ≡ some i)
  register-ok i tool r r' h =
      let wire = qualified_name codec i.name i.namespace in
      elim (Option-cases (lookup wire r.names)) [
        | inr (prev, e) ↦
            let (same, unchanged) = register_taken i prev tool r r' e h in
            let names = ap (λ (q : Registry). q.names) unchanged in
            (
              λ w j k. ap (lookup w) (sym names) ∙ k,
              ap (lookup wire) (sym names) ∙ e ∙ ap some same,
            )
        | inl free ↦
            let names = register_free i tool r r' free h in
            (
              λ w j k. ap (lookup w) (sym names) ∙ lookup-insert_new wire w i j r.names free k,
              ap (lookup wire) (sym names) ∙ lookup-insert_self wire i r.names,
            )
      ]

  as_function-name : (d : ToolDecl) → (as_function d).name ≡ d.name
  as_function-name d = elim (Bool-cases (is_custom d)) [ inl e ↦ rw e refl | inr e ↦ rw e refl ]

  add_function-ok :
      (target : Target) (namespace : Text) (custom : Bool) (tool : ToolDecl) (r r' : Registry)
      → add_function codec target namespace custom tool r ≡ ok r'
      → Grows r r'
        × (lookup (qualified_name codec tool.name namespace) r'.names
            ≡ some (record { name = tool.name; namespace = namespace; custom = custom }))
  unfolding add_function
  add_function-ok target namespace custom tool r r' h =
      let (u, e1, h1) = >>=-eq-ok (function_tool codec.quote tool.kind target.label) _ h in
      let (v, e2, h2) =
        >>=-eq-ok
          (fail_if (is_empty (trim_space tool.name))
            (translation_error (codes "function tool requires a name")))
          _ h1 in
      register-ok (record { name = tool.name; namespace = namespace; custom = custom }) tool r r' h2

  -- A declaration that `add` takes for a function.
  pub decl-ok :
      (target : Target) (namespace : Text) (d : ToolDecl) (r r' : Registry)
      → add_function codec target namespace (is_custom d) (as_function d) r ≡ ok r'
      → Grows r r' × Recorded r' (namespace, d)
  decl-ok target namespace d r r' h =
      let (grows, held) = add_function-ok target namespace (is_custom d) (as_function d) r r' h in
      (
        grows,
        subst
            (λ (t : Text).
              lookup (qualified_name codec t namespace) r'.names
              ≡ some (record { name = t; namespace = namespace; custom = is_custom d }))
            (as_function-name d) held,
      )

  pub Recorded-Grows :
      (r r' : Registry) (ds : List (Text × ToolDecl))
      → Grows r r'
      → All (Recorded r) ds
      → All (Recorded r') ds
  Recorded-Grows r r' [] g a = tt
  Recorded-Grows r r' (d ∷ ds) g a = (g _ _ a.0, Recorded-Grows r r' ds g a.1)

  pub Grows-trans : (r s t : Registry) → Grows r s → Grows s t → Grows r t
  Grows-trans r s t g h w i k = h w i (g w i k)

  pub add_children-ok :
      (target : Target) (namespace : Text) (ds : List ToolDecl) (r r' : Registry)
      → add_children codec target namespace ds r ≡ ok r'
      → Grows r r' × All (Recorded r') (map (λ (d : ToolDecl). (namespace, d)) ds)
  unfolding add_children add_child
  add_children-ok target namespace [] r r' h = (Grows-of_eq r r' (ok_injective r r' h), tt)
  add_children-ok target namespace (d ∷ ds) r r' h =
      let (s, e, h') = >>=-eq-ok (add_child codec target namespace d r) _ h in
      let (g1, here) = decl-ok target namespace d r s e in
      let (g2, there) = add_children-ok target namespace ds s r' h' in
      (Grows-trans r s r' g1 g2, (g2 _ _ here, there))
