-- ===== src/Pep/Wire/Batch.antt =====
-- A batch is answered whole or denied whole (pep/wire.go, parseBatch).
use dev_health_go.Base.{
  ℕ, ◌+◌, ◌≡◌, refl, length, List, [], ◌∷◌, true, false, ◌==◌, Option, none, some, ◌⊎◌, inl, inr,
  arith,
}
use dev_health_go.Pep.Json.{Value, Members}
use dev_health_go.Pep.Checked.{Checked, ok, fail_status, >>=-eq-ok, require->>-eq-ok, ok-injective}
use dev_health_go.Pep.Request.{Request}
use dev_health_go.Pep.Decision.{
  Decision, Cause, error, no_decision_error, inconsistent_error, is_local_deny,
}
use dev_health_go.Pep.Decision.Reasons.{Reason, malformed, mismatch}
use dev_health_go.Pep.Wire.{
  decode_decision, deny_all, deny_all_by, read_entry, read_entries, in_order, decode_entries,
  read_batch, to_decisions, answer_batch, parse_batch, batch_items, batch_entries,
}

-- The decisions answer the requests one to one: each is what the entry at its own position, which
-- names that position as its index, says about its own request; and none is a local deny.
abbrev pub Answers : ℕ → ℕ → List (ℕ × Members) → List Request → List Decision → Type 0
Answers now i [] [] [] = Unit {0}
Answers now i ((index, inner) ∷ es) (r ∷ rs) (d ∷ ds) =
    (index ≡ i)
    × (d ≡ decode_decision inner r now)
    × (is_local_deny d ≡ false)
    × Answers now (i + 1) es rs ds
Answers now i _ _ _ = ⊥

decode_entries-Answers :
    (now i : ℕ) (es : List (ℕ × Members)) (reqs : List Request) (ds : List Decision)
    → length es ≡ length reqs
    → in_order i es ≡ true
    → decode_entries now es reqs ≡ inr ds
    → Answers now i es reqs ds
unfolding decode_entries in_order
decode_entries-Answers now i [] [] [] n o h = tt
decode_entries-Answers now i [] [] (d ∷ ds) n o h = absurd (ground arith)
decode_entries-Answers now i [] (r ∷ rs) ds n o h = absurd (omega arith)
decode_entries-Answers now i (e ∷ es) [] ds n o h = absurd (omega arith)
decode_entries-Answers now i ((index, inner) ∷ es) (r ∷ rs) [] n o h =
    absurd (split inner r es rs h)
  where
    split :
        (inner : Members) (r : Request) (es : List (ℕ × Members)) (rs : List Request)
        → decode_entries now ((index, inner) ∷ es) (r ∷ rs) ≡ inr []
        → ⊥
    split inner r es rs h = ground arith
decode_entries-Answers now i ((index, inner) ∷ es) (r ∷ rs) (d ∷ ds) n o h = (
  ground arith,
  ground arith,
  ground arith,
  decode_entries-Answers now (i + 1) es rs ds (omega arith) (ground arith) (ground arith),
)

length-read_entries :
    (vs : List Value) (es : List (ℕ × Members)) → read_entries vs ≡ ok es → length es ≡ length vs
unfolding read_entries
length-read_entries [] es h = ground arith
length-read_entries (v ∷ vs) es h =
    let (e, one, more) = >>=-eq-ok (read_entry v) _ h in
    let (rest, tail, whole) = >>=-eq-ok (read_entries vs) _ more in
    ground (arith, length-read_entries vs rest tail)

read_batch-in_order :
    (body : Option Value) (n : ℕ) (es : List (ℕ × Members))
    → read_batch body n ≡ ok es
    → (in_order 0 es ≡ true) × (length es ≡ n)
unfolding read_batch batch_entries
read_batch-in_order body n es h =
    let (items, _, h1) = >>=-eq-ok (batch_items body) (batch_entries n) h in
    let (entries, read, h2) = >>=-eq-ok (read_entries items) _ h1 in
    let (counted, h3) = require->>-eq-ok (length items == n) mismatch _ h2 in
    let (ordered, h4) = require->>-eq-ok (in_order 0 entries) mismatch (ok entries) h3 in
    let same = ok-injective h4 in
    let sizes = length-read_entries items entries read in (ground arith, ground arith)

deny_all_by-denies :
    (e : Option Cause) (n : ℕ)
    → (r : Reason) × (status : ℕ) × (deny_all_by e n ≡ deny_all r status n)
deny_all_by-denies none n = (malformed, 0, refl)
deny_all_by-denies (some (error r status)) n = (r, status, refl)
deny_all_by-denies (some no_decision_error) n = (malformed, 0, refl)
deny_all_by-denies (some inconsistent_error) n = (malformed, 0, refl)

-- However the response reads, either every request is denied for one local reason, or the response's
-- entries stand one to one with the requests, each at its own index, and every answer is the PDP's
-- verdict from its own entry for its own request.
pub parse_batch_whole :
    (body : Option Value) (reqs : List Request) (now : ℕ)
    → ((r : Reason) × (status : ℕ) × (parse_batch body reqs now ≡ deny_all r status (length reqs)))
      ⊎ ((es : List (ℕ × Members)) × (read_batch body (length reqs) ≡ ok es)
          × Answers now 0 es reqs (parse_batch body reqs now))
unfolding parse_batch
parse_batch_whole body reqs now = from_read (read_batch body (length reqs)) refl
  where
    from_entries :
        (es : List (ℕ × Members)) (x : Option Cause ⊎ List Decision)
        → read_batch body (length reqs) ≡ ok es
        → decode_entries now es reqs ≡ x
        → ((r : Reason) × (status : ℕ) × (to_decisions x (length reqs)
              ≡ deny_all r status (length reqs)))
          ⊎ ((es : List (ℕ × Members)) × (read_batch body (length reqs) ≡ ok es)
              × Answers now 0 es reqs (to_decisions x (length reqs)))
    from_entries es (inl e) read h = inl (deny_all_by-denies e (length reqs))
    from_entries es (inr ds) read h =
        let (order, n) = read_batch-in_order body (length reqs) es read in
        inr (es, read, decode_entries-Answers now 0 es reqs ds n order h)

    from_read :
        (x : Checked (List (ℕ × Members)))
        → read_batch body (length reqs) ≡ x
        → ((r : Reason) × (status : ℕ) × (answer_batch x reqs now
              ≡ deny_all r status (length reqs)))
          ⊎ ((es : List (ℕ × Members)) × (read_batch body (length reqs) ≡ ok es)
              × Answers now 0 es reqs (answer_batch x reqs now))
    from_read (fail_status r status) h = inl (r, status, refl)
    from_read (ok es) h = from_entries es (decode_entries now es reqs) h refl
