-- ===== src/Stores/Artifacts.antt =====
-- InMemoryArtifactStore of stores/in_memory.py. `bytes`, its `len` and SHA-256 are parameters.
use base_agent.Base.{
  ℕ, String, true, false, ◌||◌, none, some, some_inj, List, [], map, keep, ltb, ◌==◌, ==_sound,
  nat_eq, Result, Error, ok, ok_inj, ◌>>◌, >>=-eq-ok, fail_if, or_fail, or_fail-ok, if◌then◌else◌,
  ◌≡◌, refl, sym, ap, ◌∙◌, subst, Bool-cases, inl, inr,
}
use base_agent.Base.Text.{is_empty_text, text_length}
use base_agent.Base.Dict.{Dict, lookup, insert, lookup-insert}
use base_agent.Models.Json.{Fields}
use base_agent.Models.Artifact.{Artifact, Attachment}

-- `bytes`, with `len` and `hashlib.sha256(...).hexdigest()`.
pub record Content {ℓ} (B : Type ℓ) : Type ℓ where
  pub size : B → ℕ
  pub sha256 : B → String

pub record ArtifactStore {ℓ} (B : Type ℓ) : Type ℓ where
  pub attachments : Dict ℕ Attachment
  pub artifacts : Dict ℕ Artifact
  pub content : Dict ℕ B

-- The bounds of the fields `name` and `media_type`, of 1 to 255 characters.
abbrev pub validate_name : String → Result (Unit {0})
validate_name name =
    fail_if (is_empty_text name || ltb 255 (text_length name)) Error.validation_error

module _ {ℓ} {B : Type ℓ} (c : Content B) where
  unfoldable pub add_attachment :
      ArtifactStore B
      → (name media_type : String) → B
      → Fields
      → (id created_at : ℕ) → Result (ArtifactStore B × Attachment)
  add_attachment store name media_type payload metadata id created_at = do
    validate_name name
    validate_name media_type
    let attachment : Attachment = record {
      id = id;
      name = name;
      media_type = media_type;
      size_bytes = c.size payload;
      checksum_sha256 = c.sha256 payload;
      created_at = created_at;
      metadata = metadata;
    }
    ok (
      record store {
        attachments = insert id attachment store.attachments;
        content = insert id payload store.content;
      },
      attachment,
    )

  unfoldable pub create_artifact :
      ArtifactStore B
      → (run_id : ℕ) → (name media_type : String) → B
      → Fields
      → (id created_at : ℕ) → Result (ArtifactStore B × Artifact)
  create_artifact store run_id name media_type payload metadata id created_at = do
    validate_name name
    validate_name media_type
    let artifact : Artifact = record {
      id = id;
      run_id = run_id;
      name = name;
      media_type = media_type;
      size_bytes = c.size payload;
      checksum_sha256 = c.sha256 payload;
      created_at = created_at;
      metadata = metadata;
    }
    ok (
      record store {
        artifacts = insert id artifact store.artifacts;
        content = insert id payload store.content;
      },
      artifact,
    )

module _ {ℓ} {B : Type ℓ} where
  unfoldable pub get_attachment : ArtifactStore B → ℕ → Result Attachment
  get_attachment store id = or_fail (lookup id store.attachments) Error.attachment_not_found

  unfoldable pub get_artifact : ArtifactStore B → ℕ → Result Artifact
  get_artifact store id = or_fail (lookup id store.artifacts) Error.artifact_not_found

  unfoldable pub read : ArtifactStore B → ℕ → Result B
  read store id = or_fail (lookup id store.content) Error.artifact_not_found

  unfoldable pub list_artifacts : ArtifactStore B → ℕ → List Artifact
  list_artifacts store run_id =
      keep (λ a. a.run_id == run_id) (map (λ entry. entry.1) store.artifacts)

-- The stores that calls on a new one reach. The id of each new content is one that no content has, which
-- a fresh UUID is.
pub data Kept {ℓ} {B : Type ℓ} (c : Content B) : ArtifactStore B → Type ℓ where
  new : Kept c (record { attachments = []; artifacts = []; content = [] })
  attaches :
      {store next : ArtifactStore B} (name media_type : String) (payload : B) (metadata : Fields)
      (id created_at : ℕ) (attachment : Attachment)
      → Kept c store
      → lookup id store.content ≡ none
      → add_attachment c store name media_type payload metadata id created_at
        ≡ ok (next, attachment)
      → Kept c next
  creates :
      {store next : ArtifactStore B} (run_id : ℕ) (name media_type : String) (payload : B)
      (metadata : Fields) (id created_at : ℕ) (artifact : Artifact)
      → Kept c store
      → lookup id store.content ≡ none
      → create_artifact c store run_id name media_type payload metadata id created_at
        ≡ ok (next, artifact)
      → Kept c next

lookup_same {ℓ} :
    {V : Type ℓ} (id j : ℕ) (v : V) (m : Dict ℕ V)
    → (id == j) ≡ true
    → lookup j (insert id v m) ≡ some v
lookup_same id j v m same = lookup-insert id j v m ∙ ap (λ b. if b then some v else lookup j m) same

lookup_other {ℓ} :
    {V : Type ℓ} (id j : ℕ) (v : V) (m : Dict ℕ V)
    → (id == j) ≡ false
    → lookup j (insert id v m) ≡ lookup j m
lookup_other id j v m other =
    lookup-insert id j v m ∙ ap (λ b. if b then some v else lookup j m) other

module _ {ℓ} {B : Type ℓ} (c : Content B) where
  -- Content is stored under the id, with this size and digest.
  pub record IsWhole (content : Dict ℕ B) (id size : ℕ) (digest : String) : Type ℓ where
    pub payload : B
    pub stored : lookup id content ≡ some payload
    pub size_bytes : c.size payload ≡ size
    pub checksum : c.sha256 payload ≡ digest

  record AllWhole (store : ArtifactStore B) : Type ℓ where
    attached :
        (id : ℕ) (a : Attachment)
        → lookup id store.attachments ≡ some a
        → IsWhole store.content id a.size_bytes a.checksum_sha256
    created :
        (id : ℕ) (a : Artifact)
        → lookup id store.artifacts ≡ some a
        → IsWhole store.content id a.size_bytes a.checksum_sha256

  -- New content displaces none.
  stored_beside :
      (content : Dict ℕ B) (id : ℕ) (payload : B) (j size : ℕ) (digest : String)
      → lookup id content ≡ none
      → IsWhole content j size digest
      → IsWhole (insert id payload content) j size digest
  stored_beside content id payload j size digest fresh w = elim (Bool-cases (id == j)) [
    | inl same ↦ absurd (cc (ap (λ k. lookup k content) (==_sound id j same), fresh, w.stored))
    | inr other ↦ record {
      payload = w.payload;
      stored = lookup_other id j payload content other ∙ w.stored;
      size_bytes = w.size_bytes;
      checksum = w.checksum;
    }
  ]

  stored_here :
      (content : Dict ℕ B) (id : ℕ) (payload : B) (j : ℕ)
      → (id == j) ≡ true
      → IsWhole (insert id payload content) j (c.size payload) (c.sha256 payload)
  stored_here content id payload j same = record {
    payload = payload;
    stored = lookup_same id j payload content same;
    size_bytes = refl;
    checksum = refl;
  }

  Kept-AllWhole : {store : ArtifactStore B} → Kept c store → AllWhole store
  unfolding lookup add_attachment create_artifact
  Kept-AllWhole new = record { attached = λ id a h. absurd (cc); created = λ id a h. absurd (cc) }
  Kept-AllWhole
        (attaches {store} {next} name media_type payload metadata id at attachment before fresh h) =
      let (_, named, h1) = >>=-eq-ok (validate_name name) _ h in
      let (_, typed, h2) = >>=-eq-ok (validate_name media_type) _ h1 in
      let whole = Kept-AllWhole before in
      subst AllWhole (ap (λ k. k.0) (ok_inj h2)) (record {
        attached = λ j a found. elim (Bool-cases (id == j)) [
          | inl same ↦
              subst
                (λ (k : Attachment).
                  IsWhole (insert id payload store.content) j k.size_bytes k.checksum_sha256)
                (some_inj (sym (lookup_same id j _ store.attachments same) ∙ found))
                (stored_here store.content id payload j same)
          | inr other ↦
              stored_beside store.content id payload j a.size_bytes a.checksum_sha256 fresh
                (whole.attached j a (sym (lookup_other id j _ store.attachments other) ∙ found))
        ];
        created = λ j a found.
            stored_beside store.content id payload j a.size_bytes a.checksum_sha256 fresh
              (whole.created j a found);
      })
  Kept-AllWhole
        (creates {store} {next} run_id name media_type payload metadata id at artifact before fresh
          h) =
      let (_, named, h1) = >>=-eq-ok (validate_name name) _ h in
      let (_, typed, h2) = >>=-eq-ok (validate_name media_type) _ h1 in
      let whole = Kept-AllWhole before in
      subst AllWhole (ap (λ k. k.0) (ok_inj h2)) (record {
        attached = λ j a found.
            stored_beside store.content id payload j a.size_bytes a.checksum_sha256 fresh
              (whole.attached j a found);
        created = λ j a found. elim (Bool-cases (id == j)) [
          | inl same ↦
              subst
                (λ (k : Artifact).
                  IsWhole (insert id payload store.content) j k.size_bytes k.checksum_sha256)
                (some_inj (sym (lookup_same id j _ store.artifacts same) ∙ found))
                (stored_here store.content id payload j same)
          | inr other ↦
              stored_beside store.content id payload j a.size_bytes a.checksum_sha256 fresh
                (whole.created j a (sym (lookup_other id j _ store.artifacts other) ∙ found))
        ];
      })

  -- After any calls, with a fresh id for each content, the id of an artifact that `get_artifact` returns
  -- reads back bytes of the size and with the SHA-256 digest that the artifact states.
  pub get_artifact-read :
      (store : ArtifactStore B) (id : ℕ) (a : Artifact)
      → Kept c store
      → get_artifact store id ≡ ok a
      → (payload : B) × (read store id ≡ ok payload)
        × (c.size payload ≡ a.size_bytes)
        × (c.sha256 payload ≡ a.checksum_sha256)
  unfolding get_artifact read
  get_artifact-read store id a kept h =
      let w =
        (Kept-AllWhole kept).created id a
          (or_fail-ok (lookup id store.artifacts) Error.artifact_not_found h) in
      (w.payload, ap (λ k. or_fail k Error.artifact_not_found) w.stored, w.size_bytes, w.checksum)
