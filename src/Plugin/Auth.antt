-- ===== src/Plugin/Auth.antt =====
-- `materializeAuthRecords` of internal/plugin/plugin.go, over what the host lists and what it answers to
-- each save; the hexadecimal SHA-256 of a text is a parameter.
use opencode_go_cliproxyapi.Prelude.Outcome.{Outcome, err, ok}
use opencode_go_cliproxyapi.Prelude.{
  Bool, List, Option, [], if◌then◌else◌, is_empty, none, some, suc, ℕ, ◌++◌, ◌||◌, ◌∷◌,
}
use opencode_go_cliproxyapi.Prelude.Text.{Text, codes, mem_text, trim_space}
use opencode_go_cliproxyapi.Prelude.Json.{Json, member, no_member, object, string}

pub record AuthEntry : Type 0 where
  pub name : Text
  pub id : Text

-- What `AuthSave` is called with.
pub record AuthSave : Type 0 where
  pub name : Text
  pub json : Json

-- `AuthList`, and the answer to the n-th `AuthSave`.
pub record AuthHost : Type 0 where
  pub listed : Outcome Text (List AuthEntry)
  pub save_error : ℕ → Option Text

-- The map `existing`, as the list of its keys.
unfoldable pub existing_names : List AuthEntry → List Text
existing_names [] = []
existing_names (entry ∷ entries) =
    let rest = existing_names entries in
    let name = trim_space entry.name in
    let id = trim_space entry.id in
    (if is_empty name then [] else name ∷ []) ++ ((if is_empty id then [] else id ∷ []) ++ rest)

abbrev pub key_id : (Text → Text) → Text → Text
key_id digest key = codes "opencode-go-key-" ++ digest key

abbrev pub key_file : (Text → Text) → Text → Text
key_file digest key = key_id digest key ++ codes ".json"

unfoldable pub auth_record : (Text → Text) → Text → AuthSave
auth_record digest key = record {
  name = key_file digest key;
  json = object (
      member (codes "type") (string (codes "opencode-go")) (
        member (codes "id") (string (key_id digest key)) (
          member (codes "label") (string (codes "OpenCode Go credential " ++ digest key))
            (member (codes "api_key") (string key) no_member))));
}

-- Whether a key has a record.
abbrev pub is_known : (Text → Text) → List Text → Text → Bool
is_known digest existing key =
    mem_text (key_id digest key) existing || mem_text (key_file digest key) existing

-- What a save comes to: the loop goes on only if the host took it.
abbrev pub after_save :
    Option Text → AuthSave → List AuthSave × Option Text → List AuthSave × Option Text
after_save (some problem) save rest = ([], some problem)
after_save none save (saves, problem) = (save ∷ saves, problem)

module _ (digest : Text → Text) where
  -- The loop over the keys, from the n-th save on: the saves that succeeded, and the error.
  unfoldable pub save_keys :
      (ℕ → Option Text) → ℕ → List Text → List Text → List AuthSave × Option Text
  unfolding auth_record
  save_keys save_error n existing [] = ([], none)
  save_keys save_error n existing (key ∷ keys) =
      let skipped = save_keys save_error n existing keys in
      let rest =
        save_keys save_error (suc n) (key_id digest key ∷ key_file digest key ∷ existing) keys in
      if is_known digest existing key
      then skipped
      else after_save (save_error n) (auth_record digest key) rest

  unfoldable pub save_unlisted :
      (ℕ → Option Text) → Outcome Text (List AuthEntry) → List Text → List AuthSave × Option Text
  unfolding save_keys existing_names
  save_unlisted save_error (err problem) keys =
      ([], some (codes "list existing auth records: " ++ problem))
  save_unlisted save_error (ok entries) keys = save_keys save_error 0 (existing_names entries) keys

  -- `materializeAuthRecords`, for a bridge.
  unfoldable pub materialize : AuthHost → List Text → List AuthSave × Option Text
  unfolding save_unlisted
  materialize host keys = save_unlisted host.save_error host.listed keys
