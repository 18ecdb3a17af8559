-- ===== src/Workload/RequestKey/Injective.antt =====
-- No two requests share a slot's key (workloadtoken/client.go, requestKey).
use dev_health_go.Base.{
  ◌≡◌, refl, sym, ◌∙◌, Str, List, [], ◌∷◌, ◌++◌, split, Bool, true, all, some, arith,
}
use dev_health_go.Workload.Exchange.{join}
use dev_health_go.Workload.RequestKey.{printable, is_word, compact, request_key, max_action_bytes}

-- A word is not cut, and one before a space is the first piece.
split-word : (s : Str) → printable s ≡ true → split b' ' s ≡ s ∷ []
unfolding split printable
split-word [] h = refl
split-word (c ∷ s) h = ground (arith, split-word s)

split-append :
    (s rest : Str) → printable s ≡ true → split b' ' (s ++ b' ' ∷ rest) ≡ s ∷ split b' ' rest
unfolding split printable
split-append [] rest h = refl
split-append (c ∷ s) rest h = ground (arith, split-append s rest)

words : List Str → List Str
words [] = [] ∷ []
words (s ∷ ss) = s ∷ ss

split-join :
    (ss : List Str) → all (is_word max_action_bytes) ss ≡ true → split b' ' (join ss) ≡ words ss
unfolding join words split
split-join [] h = refl
split-join (s ∷ []) h = split-word s (ground arith)
split-join (s ∷ t ∷ ss) h =
    let later = split-join (t ∷ ss) (ground arith) in
    let here = split-append s (join (t ∷ ss)) (ground arith) in ground (arith, here, later)

words-injective :
    (xs ys : List Str)
    → all (is_word max_action_bytes) xs ≡ true
    → all (is_word max_action_bytes) ys ≡ true
    → words xs ≡ words ys
    → xs ≡ ys
unfolding words
words-injective [] [] a b h = refl
words-injective [] (y ∷ ys) a b h = absurd (ground arith)
words-injective (x ∷ xs) [] a b h = absurd (ground arith)
words-injective (x ∷ xs) (y ∷ ys) a b h = h

compact-all : (f : Str → Bool) (ss : List Str) → all f ss ≡ true → all f (compact ss) ≡ true
unfolding compact
compact-all f [] h = refl
compact-all f (s ∷ []) h = h
compact-all f (s ∷ t ∷ ss) h = ground (arith, compact-all f (t ∷ ss))

-- A sort keeps what holds of every element.
abbrev pub KeepsAll : (List Str → List Str) → Type 0
KeepsAll sort = (f : Str → Bool) (ss : List Str) → all f ss ≡ true → all f (sort ss) ≡ true

module _ (sort : List Str → List Str) (keeps : KeepsAll sort) (audience : Str) (scope : List Str)
    (key : Str) (actions : List Str) where
  key_parts :
      request_key sort audience scope ≡ some (key, actions)
      → (split b' ' key ≡ audience ∷ words actions)
        × (all (is_word max_action_bytes) actions ≡ true)
  unfolding request_key words
  key_parts h =
      let fine =
        compact-all (is_word max_action_bytes) (sort scope)
          (keeps (is_word max_action_bytes) scope (ground arith)) in
      let cut = split-append audience (join (compact (sort scope))) (ground arith) in
      let rest = split-join (compact (sort scope)) fine in
      (ground (arith, fine, cut, rest), ground (arith, fine))

-- Two requests that requestKey gives one key, in whatever order and however often each lists its actions, have
-- the same audience and send the same actions; slices.Sort keeps what holds of every element.
pub request_key-injective :
    (sort : List Str → List Str)
    → KeepsAll sort
    → (audience other : Str) (scope others : List Str) (key : Str) (actions sent : List Str)
    → request_key sort audience scope ≡ some (key, actions)
    → request_key sort other others ≡ some (key, sent)
    → (audience ≡ other) × (actions ≡ sent)
request_key-injective sort keeps audience other scope others key actions sent h g =
    let (cut, fine) = key_parts sort keeps audience scope key actions h in
    let (cut2, fine2) = key_parts sort keeps other others key sent g in
    let same = sym cut ∙ cut2 in
    (ground (arith, same), words-injective actions sent fine fine2 (ground (arith, same)))
