-- ===== src/Authverify/Keys/Sound.antt =====
-- The keys of a document that is read, as a source of keys for the verifiers (authverify/jwks.go,
-- StaticKeys of authverify/accesstoken.go).
use dev_health_go.Base.{
  ◌≡◌, ◌≢◌, refl, subst, sym, Str, eq_str→eq, eq_str_refl, length, List, [], ◌∷◌, Bool, true, false,
  Option, some, arith, Option-cases, inl, inr,
}
use dev_health_go.Platform.{Platform}
use dev_health_go.Pep.Json.{contains, distinct}
use dev_health_go.Authverify.Verifier.{public_key_size}
use dev_health_go.Authverify.Keys.{
  Jwk, JwksKey, KeySet, kids, key_entry, key_entries, parse_jwks_document, valid_key_id,
}

module _ (p : Platform) where
  -- Each candidate gives one key, under its own id, which is its decoded x of 32 bytes.
  abbrev pub AreKeysOf : List Jwk → KeySet → Type 0
  AreKeysOf [] [] = Unit {0}
  AreKeysOf (k ∷ ks) ((kid, key) ∷ rest) =
      (kid ≡ k.key_id)
      × (p.decode_loose k.x ≡ some key.public)
      × (length key.public ≡ public_key_size)
      × (valid_key_id p kid ≡ true)
      × (key.retire_after ≡ k.retire_after)
      × AreKeysOf ks rest
  AreKeysOf _ _ = ⊥

  key_entry_holds :
      (admit : Bool) (seen : List Str) (k : Jwk) (key : JwksKey)
      → key_entry p admit seen k ≡ some key
      → (p.decode_loose k.x ≡ some key.public)
        × (length key.public ≡ public_key_size)
        × (valid_key_id p k.key_id ≡ true)
        × (key.retire_after ≡ k.retire_after)
        × (contains seen k.key_id ≡ false)
  unfolding key_entry
  key_entry_holds admit seen k key h =
      (ground arith, ground arith, ground arith, ground arith, ground arith)

  -- None of the ids is among those seen.
  abbrev AreNew : List Str → List Str → Type 0
  AreNew seen ks = (j : Str) → contains ks j ≡ true → contains seen j ≡ false

  key_entries-cons :
      (admit : Bool) (seen : List Str) (k : Jwk) (ks : List Jwk) (set : KeySet)
      → key_entries p admit seen (k ∷ ks) ≡ some set
      → (key : JwksKey) × (rest : KeySet) × (key_entry p admit seen k ≡ some key)
        × (key_entries p admit (k.key_id ∷ seen) ks ≡ some rest)
        × (set ≡ (k.key_id, key) ∷ rest)
  unfolding key_entries
  key_entries-cons admit seen k ks set h = elim (Option-cases (key_entry p admit seen k)) [
    | inl e ↦ absurd (ground arith)
    | inr (key, e) ↦ elim (Option-cases (key_entries p admit (k.key_id ∷ seen) ks)) [
      | inl f ↦ absurd (ground arith)
      | inr (rest, f) ↦ (key, rest, e, f, ground arith)
    ]
  ]

  abbrev Read : List Str → List Jwk → KeySet → Type 0
  Read seen ks set = AreKeysOf ks set × (distinct (kids set) ≡ true) × AreNew seen (kids set)

  key_entries-AreKeysOf :
      (admit : Bool) (seen : List Str) (ks : List Jwk) (set : KeySet)
      → key_entries p admit seen ks ≡ some set
      → Read seen ks set
  unfolding key_entries distinct contains
  key_entries-AreKeysOf admit seen [] [] h = (tt, refl, λ j a. absurd (ground arith))
  key_entries-AreKeysOf admit seen [] (e ∷ set) h = absurd (ground arith)
  key_entries-AreKeysOf admit seen (k ∷ ks) set h =
      let (key, rest, e, f, same) = key_entries-cons admit seen k ks set h in
      let (decoded, sized, named, retires, fresh) = key_entry_holds admit seen k key e in
      let (are, once, new) = key_entries-AreKeysOf admit (k.key_id ∷ seen) ks rest f in
      subst (Read seen (k ∷ ks)) (sym same) (
        (refl, decoded, sized, named, retires, are),
        ground (arith, once, new k.key_id, eq_str_refl k.key_id),
        λ j a. ground (arith, fresh, new j, eq_str→eq k.key_id j, a),
      )

  -- A document that is read gives, for each of its keys in order and with none left out, one key under its own
  -- id: the 32 bytes that its x decodes to. There is at least one key, and no id twice.
  pub parse_jwks_document-AreKeysOf :
      (bind : Str → Option (List Jwk)) (encoded : Str) (admit : Bool) (set : KeySet)
      → parse_jwks_document p bind encoded admit ≡ some set
      → (document : List Jwk) × (bind encoded ≡ some document)
        × (document ≢ [])
        × AreKeysOf document set
        × (distinct (kids set) ≡ true)
  unfolding parse_jwks_document
  parse_jwks_document-AreKeysOf bind encoded admit set h = elim (Option-cases (bind encoded)) [
    | inl e ↦ absurd (ground arith)
    | inr (document, e) ↦ from_document document e
  ]
    where
      from_document :
          (document : List Jwk)
          → bind encoded ≡ some document
          → (document : List Jwk) × (bind encoded ≡ some document)
            × (document ≢ [])
            × AreKeysOf document set
            × (distinct (kids set) ≡ true)
      from_document [] e = absurd (ground arith)
      from_document (k ∷ ks) e =
          let (are, once, new) = key_entries-AreKeysOf admit [] (k ∷ ks) set (ground arith) in
          (k ∷ ks, e, λ n. ground (arith, n), are, once)
