-- ===== src/Ssv/Message/Aggregate.antt =====
-- `SignedSSVMessage::aggregate` of anchor/common/ssv_types/src/message.rs.
use anchor.Base.{ℕ, ◌+◌, List, [], ◌∷◌, ◌++◌, map, ◌==◌, leb, if◌then◌else◌, length}
use anchor.Base.Result.{Result, ok, err, ◌>>=◌, guard}
use anchor.Ssv.Committee.{max_signatures}
use anchor.Ssv.Message.{
  Bytes, SignedSsvMessage, SignedSsvMessageError, too_many_signatures, too_many_operator_ids,
  signers_and_signatures_with_different_length,
}

-- The loop of pushes: `VariableList::push` refuses at its bound.
unfoldable pub push_all {ℓ} : {A E : Type ℓ} → List A → List A → (ℕ → ℕ → E) → Result E (List A)
push_all xs [] error_fn = ok xs
push_all xs (y ∷ ys) error_fn =
    let rest = push_all (xs ++ y ∷ []) ys error_fn in
    if leb max_signatures (length xs) then err (error_fn (length xs + 1) max_signatures) else rest

-- The loop over the other messages. A refusal leaves the message half extended in the source,
-- whose only caller then drops it.
unfoldable pub extend :
    SignedSsvMessage → List SignedSsvMessage → Result SignedSsvMessageError SignedSsvMessage
extend m [] = ok m
extend m (o ∷ others) =
    guard (length o.operator_ids == length o.signatures)
      signers_and_signatures_with_different_length
    >>= λ _. push_all m.signatures o.signatures too_many_signatures >>= λ sigs.
        push_all m.operator_ids o.operator_ids too_many_operator_ids >>= λ ids.
        extend (record m { signatures = sigs; operator_ids = ids }) others

-- `Iterator::zip`
unfoldable pub zip {ℓ κ} : {A : Type ℓ} {B : Type κ} → List A → List B → List (A × B)
zip [] ys = []
zip (x ∷ xs) [] = []
zip (x ∷ xs) (y ∷ ys) = (x, y) ∷ zip xs ys

-- `sort_by_key` on the identifier, a stable sort.
unfoldable pub insert_pair : Bytes × ℕ → List (Bytes × ℕ) → List (Bytes × ℕ)
insert_pair p [] = p ∷ []
insert_pair p (q ∷ qs) = if leb p.1 q.1 then p ∷ q ∷ qs else q ∷ insert_pair p qs

unfoldable pub sort_pairs : List (Bytes × ℕ) → List (Bytes × ℕ)
sort_pairs [] = []
sort_pairs (p ∷ ps) = insert_pair p (sort_pairs ps)

unfoldable pub aggregate :
    SignedSsvMessage → List SignedSsvMessage → Result SignedSsvMessageError SignedSsvMessage
aggregate m others = do
  extended ← extend m others
  let sig_pairs = sort_pairs (zip extended.signatures extended.operator_ids)
  ok (record extended {
    signatures = map (λ p. p.0) sig_pairs;
    operator_ids = map (λ p. p.1) sig_pairs;
  })
