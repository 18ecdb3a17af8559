-- ===== src/Clickhouse/Bindings/Names.antt =====
-- The names of the parameters (clickhouse/bindings.go, translateBindings).
use dev_health_go.Base.{
  ℕ, suc, ◌+◌, Str, List, [], ◌∷◌, Bool, true, not, ◌&&◌, all, length, ◌⊎◌, inl, inr, ◌≡◌, refl,
  arith, subst,
}
use mathlib.Core.Sum.{inr-injective}
use dev_health_go.Pep.Json.{contains}
use dev_health_go.Clickhouse.Bindings.{
  BindingError, Binding, is_name, names_of, parameter, translate_one, translate_from,
  translate_bindings,
}

-- No two names are the same text.
abbrev pub apart : List Str → Bool
apart [] = true
apart (s ∷ l) = not (contains l s) && apart l

module _ (format_uint : ℕ → Str) (format_int : Bool → ℕ → Str) (format_time : ℕ → Str) where
  abbrev names : List (Str × Str) → List Str
  names ps = names_of format_uint format_int format_time ps

  -- The parameters of bindings: as many, their names well formed and all different.
  pub record AreParameters (n : ℕ) (ps : List (Str × Str)) : Type 0 where
    pub counted : length ps ≡ n
    pub formed : all is_name (names ps) ≡ true
    pub different : apart (names ps) ≡ true

  translate_one-AreParameters :
      (n : ℕ) (done : List (Str × Str)) (b : Binding) (p : Str × Str)
      → AreParameters n done
      → translate_one format_uint format_int format_time done b ≡ inr p
      → AreParameters (n + 1) (p ∷ done)
  unfolding translate_one
  translate_one-AreParameters n done b (k, v) a h =
      from_value (parameter format_uint format_int format_time b.value) refl
    where
      from_value :
          (x : BindingError ⊎ Str)
          → parameter format_uint format_int format_time b.value ≡ x
          → AreParameters (n + 1) ((k, v) ∷ done)
      from_value (inl e) q = absurd (ground arith)
      from_value (inr t) q =
          let counted = a.counted in
          let formed = a.formed in
          let different = a.different in
          record { counted = omega arith; formed = ground arith; different = ground arith }

  translate_from-AreParameters :
      (n : ℕ) (done : List (Str × Str)) (bs : List Binding) (ps : List (Str × Str))
      → AreParameters n done
      → translate_from format_uint format_int format_time done bs ≡ inr ps
      → AreParameters (n + length bs) ps
  unfolding translate_from
  translate_from-AreParameters n done [] ps a h =
      let counted = a.counted in
      let formed = a.formed in
      let different = a.different in
      let same : done ≡ ps = inr-injective done ps h in
      record {
        counted = subst (λ x. length x ≡ n + 0) same (omega arith);
        formed = subst (λ x. all is_name (names x) ≡ true) same formed;
        different = subst (λ x. apart (names x) ≡ true) same different;
      }
  translate_from-AreParameters n done (b ∷ bs) ps a h =
      from_one (translate_one format_uint format_int format_time done b) refl h (λ p one rest.
        translate_from-AreParameters (n + 1) (p ∷ done) bs ps
          (translate_one-AreParameters n done b p a one) rest)
    where
      from_one :
          (x : BindingError ⊎ (Str × Str))
          → translate_one format_uint format_int format_time done b ≡ x
          → (elim x as (λ _. BindingError ⊎ List (Str × Str)) [
            | inl e ↦ inl e
            | inr p ↦ translate_from format_uint format_int format_time (p ∷ done) bs
          ])
            ≡ inr ps
          → ((p : Str × Str)
              → translate_one format_uint format_int format_time done b ≡ inr p
              → translate_from format_uint format_int format_time (p ∷ done) bs ≡ inr ps
              → AreParameters (n + 1 + length bs) ps)
          → AreParameters (n + suc (length bs)) ps
      from_one (inl e) q r ih = absurd (ground arith)
      from_one (inr p) q r ih = subst (λ m. AreParameters m ps) (omega arith) (ih p q r)

  -- Bindings that are translated give one parameter each, with well-formed names that are all
  -- different.
  pub translate_bindings-AreParameters :
      (bs : List Binding) (ps : List (Str × Str))
      → translate_bindings format_uint format_int format_time bs ≡ inr ps
      → AreParameters (length bs) ps
  unfolding translate_bindings
  translate_bindings-AreParameters bs ps h =
      subst (λ m. AreParameters m ps) (omega arith)
        (translate_from-AreParameters 0 [] bs ps
          (record { counted = refl; formed = refl; different = refl }) h)
