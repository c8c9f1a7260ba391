-- ===== src/Envelope/Aad/Laws.antt =====
-- The additional data determines what it encodes: scope, item, type and revision.
use nopass.Prelude.{
  ℕ, ◌≤◌, ◌<◌, ◌≡◌, refl, sym, ap, ◌∙◌, List, ◌∷◌, ◌++◌, ok, arith, inl, inr, length, append_inj,
  Result-cases,
}
use nopass.Prelude.Bytes.{be, be_limit, be-injective}
use nopass.Types.Vault.{type_name, type_name-injective}
use nopass.Platform.{Platform, TextLaws}
use nopass.Uuid.{uuid_bytes, length-uuid_bytes}
use nopass.Envelope.Aad.{
  ItemScope, personal, org, ItemBinding, format_v2, max_safe_integer, u64be, scope_bytes, item_aad,
}

-- What an encoding of an item consists of.
pub record Parts {K : Type 0} (env : Platform K) (b : ItemBinding) (r : ℕ) (aad : List ℕ)
    : Type 0 where
  pub scope : List ℕ
  pub id : List ℕ
  pub scope_eq : scope_bytes b.scope ≡ ok scope
  pub id_eq : uuid_bytes b.item_id ≡ ok id
  pub safe : r ≤ max_safe_integer
  pub aad_eq :
      aad
      ≡ env.encode_text "nopwd-item"
        ++ (0
            ∷ format_v2
            ∷ (scope
                ++ (id
                    ++ (length (env.encode_text (type_name b.item_type))
                        ∷ (env.encode_text (type_name b.item_type) ++ be 8 r)))))

u64be-eq-ok : (n : ℕ) {bs : List ℕ} → u64be n ≡ ok bs → (n ≤ max_safe_integer) × (bs ≡ be 8 n)
unfolding u64be
u64be-eq-ok n e = ground arith

pub item_aad-Parts :
    {K : Type 0} (env : Platform K) (b : ItemBinding) (r : ℕ) {aad : List ℕ}
    → item_aad env b r ≡ ok aad
    → Parts env b r aad
unfolding item_aad u64be
item_aad-Parts env b r e = elim (Result-cases (scope_bytes b.scope)) [
  | inr (x, no_scope) ↦ absurd (ground arith)
  | inl (scope, scope_eq) ↦ elim (Result-cases (uuid_bytes b.item_id)) [
    | inr (x, no_id) ↦ absurd (ground arith)
    | inl (id, id_eq) ↦ record {
      scope = scope;
      id = id;
      scope_eq = scope_eq;
      id_eq = id_eq;
      safe = ground arith;
      aad_eq = ground arith;
    }
  ]
]

-- Two scope encodings that begin the same text are the same scope.
scope_bytes-prefix :
    (s t : ItemScope) (x y u v : List ℕ)
    → scope_bytes s ≡ ok x
    → scope_bytes t ≡ ok y
    → x ++ u ≡ y ++ v
    → length x ≡ length y
unfolding scope_bytes
scope_bytes-prefix personal personal x y u v p q e = ground arith
scope_bytes-prefix personal (org o) x y u v p q e = ground arith
scope_bytes-prefix (org o) personal x y u v p q e = ground arith
scope_bytes-prefix (org o) (org o') x y u v p q e = grind (arith, length-uuid_bytes)

-- What two bindings and revisions have in common when their additional data agrees.
pub record SameBinding {K : Type 0} (env : Platform K) (b b' : ItemBinding) (r r' : ℕ)
    : Type 0 where
  pub scope : scope_bytes b.scope ≡ scope_bytes b'.scope
  pub item : uuid_bytes b.item_id ≡ uuid_bytes b'.item_id
  pub type : b.item_type ≡ b'.item_type
  pub revision : r ≡ r'

-- Two items with the same additional data agree in every bound field: owner scope and item id (as
-- the bytes of their UUIDs), item type and revision. `TextEncoder` is assumed injective.
pub item_aad-injective :
    {K : Type 0} (env : Platform K) (laws : TextLaws env) (b b' : ItemBinding) (r r' : ℕ)
    (aad : List ℕ)
    → item_aad env b r ≡ ok aad
    → item_aad env b' r' ≡ ok aad
    → SameBinding env b b' r r'
item_aad-injective env laws b b' r r' aad e e' =
    let p = item_aad-Parts env b r e in
    let q = item_aad-Parts env b' r' e' in
    let label = env.encode_text "nopwd-item" in
    let t = env.encode_text (type_name b.item_type) in
    let t' = env.encode_text (type_name b'.item_type) in
    let (_, rest) = append_inj label label refl (sym p.aad_eq ∙ q.aad_eq) in
    let after : p.scope ++ (p.id ++ (length t ∷ (t ++ be 8 r)))
        ≡ q.scope ++ (q.id ++ (length t' ∷ (t' ++ be 8 r'))) =
      cc rest in
    let (scopes, rest₂) =
      append_inj p.scope q.scope
        (scope_bytes-prefix b.scope b'.scope p.scope q.scope _ _ p.scope_eq q.scope_eq after)
        after in
    let (ids, rest₃) =
      append_inj p.id q.id
        (length-uuid_bytes b.item_id p.id_eq ∙ sym (length-uuid_bytes b'.item_id q.id_eq)) rest₂ in
    let lengths : length t ≡ length t' = cc rest₃ in
    let after₃ : t ++ be 8 r ≡ t' ++ be 8 r' = cc rest₃ in
    let (types, revs) = append_inj t t' lengths after₃ in
    record {
      scope = p.scope_eq ∙ ap ok scopes ∙ sym q.scope_eq;
      item = p.id_eq ∙ ap ok ids ∙ sym q.id_eq;
      type = type_name-injective _ _ (laws.encode_injective _ _ types);
      revision = be-injective 8 r r' (fits r p.safe) (fits r' q.safe) revs;
    }
  where
    fits : (n : ℕ) → n ≤ max_safe_integer → n < be_limit 8
    fits n h = omega arith
