-- ===== src/ResponseTools/Declarations.antt =====
-- What an accepted list of declarations records, in internal/adapter/shared/responses_tools.go.
use opencode_go_cliproxyapi.Prelude.Outcome.{>>=-eq-ok, ok}
use opencode_go_cliproxyapi.Prelude.{
  All, All-append, Bool-cases, List, Option, [], ap, arith, false, if_false, if_true, inl, inr,
  is_empty, map, none, not, or_default, refl, some, subst, sym, true, ◌&&◌, ◌||◌, ◌∙◌, ◌∷◌, ◌≡◌,
  ◌⊎◌,
}
use opencode_go_cliproxyapi.Prelude.Text.{
  Text, codes, text_eq, text_eq_iff, text_eq_refl, trim_space,
}
use opencode_go_cliproxyapi.Prelude.Dict.{lookup}
use opencode_go_cliproxyapi.ResponseTools.{
  Codec, Registry, RespTool, Target, ToolDecl, add_namespace, add_tool, add_tools, as_function,
  custom_tool_parameters, is_custom, is_optional_hosted_tool, pass_native,
}
use opencode_go_cliproxyapi.ResponseTools.Names.{
  Grows, Grows-of_eq, Grows-trans, Recorded, Recorded-Grows, add_children-ok, decl-ok, declared,
  declares, ok_injective,
}

hosted_cases :
    (kind : Text)
    → is_optional_hosted_tool kind ≡ true
    → (kind ≡ codes "web_search")
      ⊎ ((kind ≡ codes "web_search_preview")
          ⊎ ((kind ≡ codes "tool_search") ⊎ (kind ≡ codes "image_generation")))
unfolding is_optional_hosted_tool
hosted_cases kind h = ground (
  arith,
  h,
  text_eq_iff kind (codes "web_search"),
  text_eq_iff kind (codes "web_search_preview"),
  text_eq_iff kind (codes "tool_search"),
  text_eq_iff kind (codes "image_generation"),
)

-- A kind that is none of the three declares nothing.
declares_none :
    (tool : RespTool)
    → text_eq tool.decl.kind (codes "namespace") ≡ false
    → text_eq tool.decl.kind (codes "custom") ≡ false
    → text_eq tool.decl.kind (codes "function") ≡ false
    → declares tool ≡ []
declares_none tool h k l = rw (h, k, l) refl

declares_hosted :
    (tool : RespTool) → is_optional_hosted_tool tool.decl.kind ≡ true → declares tool ≡ []
unfolding text_eq
declares_hosted tool h = elim (hosted_cases tool.decl.kind h) [
  | inl e ↦ declares_none tool (rw e refl) (rw e refl) (rw e refl)
  | inr (inl e) ↦ declares_none tool (rw e refl) (rw e refl) (rw e refl)
  | inr (inr (inl e)) ↦ declares_none tool (rw e refl) (rw e refl) (rw e refl)
  | inr (inr (inr e)) ↦ declares_none tool (rw e refl) (rw e refl) (rw e refl)
]

declares_native :
    (tool : RespTool)
    → text_eq tool.decl.kind (codes "namespace") ≡ false
    → text_eq (as_function tool.decl).kind (codes "function") ≡ false
    → declares tool ≡ []
declares_native tool h k = elim (Bool-cases (is_custom tool.decl)) [
  | inl c ↦ absurd (function_kind (sym k ∙ custom_kind c))
  | inr c ↦
      declares_none tool h c
        (sym (ap (λ (d : ToolDecl). text_eq d.kind (codes "function")) (as_function_plain c)) ∙ k)
]
  where
    custom_kind :
        is_custom tool.decl ≡ true → text_eq (as_function tool.decl).kind (codes "function") ≡ true
    custom_kind c =
        ap (λ (d : ToolDecl). text_eq d.kind (codes "function"))
          (if_true (is_custom tool.decl)
            (record tool.decl { kind = codes "function"; parameters = custom_tool_parameters })
            tool.decl c)
        ∙ text_eq_refl (codes "function")

    as_function_plain : is_custom tool.decl ≡ false → as_function tool.decl ≡ tool.decl
    as_function_plain c =
        if_false (is_custom tool.decl)
          (record tool.decl { kind = codes "function"; parameters = custom_tool_parameters })
          tool.decl c

    function_kind : ¬ (false ≡ true)
    function_kind e = cc

module _ (codec : Codec) (target : Target) where
  add_namespace-ok :
      (name : Text) (tools : Option (List ToolDecl)) (r r' : Registry)
      → add_namespace codec target name tools r ≡ ok r'
      → Grows r r'
        × All (Recorded codec r') (map (λ (d : ToolDecl). (name, d)) (or_default tools []))
  unfolding add_namespace
  add_namespace-ok name none r r' h = cc
  add_namespace-ok name (some tools) r r' h = elim (Bool-cases (is_empty (trim_space name))) [
    | inl e ↦ cc (sym (if_true _ _ _ e) ∙ h)
    | inr e ↦ add_children-ok codec target name tools r r' (sym (if_false _ _ _ e) ∙ h)
  ]

  nothing :
      (r : Registry) (tool : RespTool) → declares tool ≡ [] → All (Recorded codec r) (declares tool)
  nothing r tool e = subst (All (Recorded codec r)) (sym e) tt

  pass_native-names :
      (d : ToolDecl) (r : Registry) (w : Text) → lookup w (pass_native d r).names ≡ lookup w r.names
  unfolding pass_native
  pass_native-names d r w =
      elim (Bool-cases
        (text_eq d.kind (codes "tool_search") || text_eq d.kind (codes "image_generation"))) [
          | inl e ↦ rw e refl
          | inr e ↦ rw e refl
        ]

  function_only :
      (r : Registry) (tool : RespTool)
      → text_eq tool.decl.kind (codes "namespace") ≡ false
      → Recorded codec r ([], tool.decl)
      → All (Recorded codec r) (declares tool)
  function_only r tool e here =
      elim (Bool-cases (is_custom tool.decl || text_eq tool.decl.kind (codes "function"))) [
        | inl f ↦
            subst (All (Recorded codec r)) (sym (if_false _ _ _ e ∙ if_true _ _ _ f)) (here, tt)
        | inr f ↦ nothing r tool (if_false _ _ _ e ∙ if_false _ _ _ f)
      ]

  add_tool-ok :
      (tool : RespTool) (r r' : Registry)
      → add_tool codec target tool r ≡ ok r'
      → Grows r r' × All (Recorded codec r') (declares tool)
  unfolding add_tool
  add_tool-ok tool r r' h =
      let d = tool.decl in
      elim (Bool-cases (target.strip && is_optional_hosted_tool d.kind)) [
        | inl e ↦
            let same = ok_injective _ r' (sym (if_true _ _ _ e) ∙ h) in
            (
              λ w i k. ap (λ (q : Registry). lookup w q.names) (sym same) ∙ k,
              nothing r' tool (declares_hosted tool (ground (arith, e))),
            )
        | inr e1 ↦
            let h1 = sym (if_false _ _ _ e1) ∙ h in
            elim (Bool-cases (text_eq d.kind (codes "namespace"))) [
              | inl e ↦
                  let (g, all) =
                    add_namespace-ok d.name tool.tools r r' (sym (if_true _ _ _ e) ∙ h1) in
                  (g, subst (All (Recorded codec r')) (sym (if_true _ _ _ e)) all)
              | inr e2 ↦
                  let h2 = sym (if_false _ _ _ e2) ∙ h1 in
                  let test =
                    target.native && not (text_eq (as_function d).kind (codes "function")) in
                  elim (Bool-cases test) [
                    | inl e ↦
                        let same = ok_injective (pass_native d r) r' (sym (if_true _ _ _ e) ∙ h2) in
                        (
                          λ w i k.
                              ap (λ (q : Registry). lookup w q.names) (sym same)
                              ∙ pass_native-names d r w
                              ∙ k,
                          nothing r' tool (declares_native tool e2 (ground (arith, e))),
                        )
                    | inr e3 ↦
                        let (g, here) =
                          decl-ok codec target [] d r r' (sym (if_false _ _ _ e3) ∙ h2) in
                        (g, function_only r' tool e2 here)
                  ]
            ]
      ]

  pub add_tools-ok :
      (tools : List RespTool) (r r' : Registry)
      → add_tools codec target tools r ≡ ok r'
      → Grows r r' × All (Recorded codec r') (declared tools)
  unfolding add_tools
  add_tools-ok [] r r' h = (Grows-of_eq r r' (ok_injective r r' h), tt)
  add_tools-ok (tool ∷ rest) r r' h =
      let (s, e, h') = >>=-eq-ok (add_tool codec target tool r) _ h in
      let (g1, here) = add_tool-ok tool r s e in
      let (g2, there) = add_tools-ok rest s r' h' in
      (
        Grows-trans codec r s r' g1 g2,
        All-append (Recorded codec r') (declares tool) (declared rest)
            (Recorded-Grows codec s r' (declares tool) g2 here) there,
      )
