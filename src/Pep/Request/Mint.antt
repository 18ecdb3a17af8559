-- ===== src/Pep/Request/Mint.antt =====
-- The request id that the client mints is one that the PDP accepts (pep/request.go).
use dev_health_go.Base.{
  ℕ, suc, zero, ◌%◌, ◌<◌, ◌≡◌, refl, Str, length, length-map, [], ◌∷◌, map, true, all, arith,
}
use dev_health_go.Pep.Request.{
  at, request_id_alphabet, is_token_char, is_request_id, mint_request_id,
}

-- A byte taken inside a text of token characters is one.
at-token :
    (s : Str) (i : ℕ) → all is_token_char s ≡ true → i < length s → is_token_char (at s i) ≡ true
at-token [] i h inside = absurd (omega arith)
at-token (c ∷ s) zero h inside = ground arith
at-token (c ∷ s) (suc i) h inside = at-token s i (ground arith) (omega arith)

minted_tokens :
    (raw : Str) → all is_token_char (map (λ b. at request_id_alphabet (b % 64)) raw) ≡ true
minted_tokens [] = refl
minted_tokens (b ∷ raw) =
    rw (at-token request_id_alphabet (b % 64) refl (omega arith)) (minted_tokens raw)

-- Whatever 26 random bytes it is made of, a minted request id has the form that request ids must have.
pub mint_request_id-is_request_id :
    (raw : Str) → length raw ≡ 26 → is_request_id (mint_request_id raw) ≡ true
unfolding mint_request_id is_request_id
mint_request_id-is_request_id raw h =
    ground (arith, minted_tokens raw, length-map (λ b. at request_id_alphabet (b % 64)) raw)
