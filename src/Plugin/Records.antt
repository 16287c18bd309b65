-- ===== src/Plugin/Records.antt =====
-- `materializeAuthRecords` of internal/plugin/plugin.go is idempotent.
use opencode_go_cliproxyapi.Prelude.{
  All, Bool-cases, List, Option, [], ap, arith, if_false, if_true, inl, inr, length, length-append,
  none, ok, refl, some, subst, suc, sym, true, ℕ, ◌++◌, ◌∙◌, ◌∷◌, ◌≡◌,
}
use opencode_go_cliproxyapi.Prelude.Text.{
  Text, codes, mem_text, text_eq, text_eq_iff, text_eq_of_ne,
}
use opencode_go_cliproxyapi.Plugin.Auth.{
  AuthEntry, AuthHost, AuthSave, after_save, auth_record, existing_names, is_known, key_file,
  key_id, materialize, save_keys, save_unlisted,
}

module _ (digest : Text → Text) (sized : (t : Text) → length (digest t) ≡ 64) where
  -- A file is never called what a key is called.
  file_is_no_id : (k key : Text) → ¬ (key_file digest k ≡ key_id digest key)
  file_is_no_id k key e = omega (
    arith,
    ap length e,
    length-append (key_id digest k) (codes ".json"),
    length-append (codes "opencode-go-key-") (digest k),
    length-append (codes "opencode-go-key-") (digest key),
    sized k,
    sized key,
  )

  same_file :
      (key k name : Text) (later : List Text)
      → text_eq (key_id digest key) (key_id digest k) ≡ true
      → mem_text (key_file digest key) later ≡ true
      → mem_text (key_file digest k) later ≡ true
  same_file key k name later e m =
      subst (λ t. mem_text (t ++ codes ".json") later ≡ true)
        ((text_eq_iff (key_id digest key) (key_id digest k)).0 e) m

  -- Every key that one list of names knows, the other knows.
  abbrev KnownBy : List Text → List Text → Type 0
  KnownBy existing later =
      (k : Text) → is_known digest existing k ≡ true → is_known digest later k ≡ true

  KnownBy-saved :
      (key : Text) (existing later : List Text)
      → KnownBy existing later
      → mem_text (key_file digest key) later ≡ true
      → KnownBy (key_id digest key ∷ key_file digest key ∷ existing) later
  unfolding mem_text
  KnownBy-saved key existing later h m k known =
      let file_id = text_eq_of_ne (key_file digest key) (key_id digest k) (file_is_no_id key k) in
      let id_file =
        text_eq_of_ne (key_id digest key) (key_file digest k) (λ e. file_is_no_id k key (sym e)) in
      let by_id = same_file key k [] later in
      let by_file = λ (e : text_eq (key_file digest key) (key_file digest k) ≡ true).
        subst (λ t. mem_text t later ≡ true)
          ((text_eq_iff (key_file digest key) (key_file digest k)).0 e) m in
      ground (arith, file_id, id_file, by_id, by_file, h k)

  -- Every save is under a name of the list.
  abbrev ListedIn : List Text → List AuthSave → Type 0
  ListedIn later saves = All (λ (save : AuthSave). mem_text save.name later ≡ true) saves

  -- A save that was made is listed, and so are those behind it.
  after_save-ListedIn :
      (o : Option Text) (save : AuthSave) (rest : List AuthSave × Option Text)
      (saves : List AuthSave) (later : List Text)
      → after_save o save rest ≡ (saves, none)
      → ListedIn later saves
      → (mem_text save.name later ≡ true) × (rest ≡ (rest.0, none)) × ListedIn later rest.0
  after_save-ListedIn (some problem) save rest saves later e l = cc
  after_save-ListedIn none save (made, problem) saves later e l =
      let listed =
        subst (ListedIn later) (sym (ap (λ (p : List AuthSave × Option Text). p.0) e)) l in
      (listed.0, ap (λ o. (made, o)) (ap (λ (p : List AuthSave × Option Text). p.1) e), listed.1)

  save_keys-again :
      (save_error again : ℕ → Option Text) (keys existing later : List Text) (n n' : ℕ)
      (saves : List AuthSave)
      → save_keys digest save_error n existing keys ≡ (saves, none)
      → KnownBy existing later
      → ListedIn later saves
      → save_keys digest again n' later keys ≡ ([], none)
  unfolding save_keys auth_record
  save_keys-again save_error again [] existing later n n' saves run h l = refl
  save_keys-again save_error again (key ∷ keys) existing later n n' saves run h l =
      elim (Bool-cases (is_known digest existing key)) [
        | inl k ↦
            if_true _ _ _ (h key k)
            ∙ save_keys-again save_error again keys existing later n n' saves
                (sym (if_true _ _ _ k) ∙ run) h l
        | inr k ↦
            let existing' = key_id digest key ∷ key_file digest key ∷ existing in
            let rest = save_keys digest save_error (suc n) existing' keys in
            let (m, went, listed) =
              after_save-ListedIn (save_error n) (auth_record digest key) rest saves later
                (sym (if_false _ _ _ k) ∙ run) l in
            let known : is_known digest later key ≡ true = ground (arith, m) in
            if_true _ _ _ known
            ∙ save_keys-again save_error again keys existing' later (suc n) n' rest.0 went
                (KnownBy-saved key existing later h m) listed
      ]

  -- Let a run over the keys succeed, and the host list later the records that were there and those that the
  -- run saved. Then another run over the same keys saves nothing and succeeds, whatever the host would
  -- answer to a save. The digests are hexadecimal, of 64 digits.
  pub materialize-again :
      (host again : AuthHost) (keys : List Text) (entries later : List AuthEntry)
      (saves : List AuthSave)
      → host.listed ≡ ok entries
      → again.listed ≡ ok later
      → materialize digest host keys ≡ (saves, none)
      → KnownBy (existing_names entries) (existing_names later)
      → ListedIn (existing_names later) saves
      → materialize digest again keys ≡ ([], none)
  unfolding materialize save_unlisted
  materialize-again host again keys entries later saves e f run h l =
      ap (λ o. save_unlisted digest again.save_error o keys) f
      ∙ save_keys-again host.save_error again.save_error keys (existing_names entries)
          (existing_names later) 0 0 saves
          (sym (ap (λ o. save_unlisted digest host.save_error o keys) e) ∙ run) h l
