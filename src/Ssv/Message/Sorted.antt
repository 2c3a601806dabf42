-- ===== src/Ssv/Message/Sorted.antt =====
-- What `SignedSSVMessage::aggregate` of anchor/common/ssv_types/src/message.rs returns.
use mathlib.Core.List.{Permᴰ, append-nil, append_assoc}
use mathlib.Core.List.Permᴰ
use anchor.Base.{
  eq_of_==, ℕ, ◌≤◌, ◌≡◌, refl, ap, sym, ◌∙◌, inl, inr, List, [], ◌∷◌, ◌++◌, arith, leb, length,
  length-append, Bool-cases, All, map,
}
use anchor.Base.Result.{ok, guard-eq-ok, >>=-eq-ok}
use anchor.Ssv.Committee.{max_signatures}
use anchor.Ssv.Message.{Bytes, SignedSsvMessage, too_many_signatures, too_many_operator_ids}
use anchor.Ssv.Message.Aggregate.{push_all, extend, zip, insert_pair, sort_pairs, aggregate}

-- The list ascends.
abbrev pub Ascending : List ℕ → Type 0
Ascending [] = Unit
Ascending (x ∷ xs) = All (λ y. x ≤ y) xs × Ascending xs

abbrev signers_of : List (Bytes × ℕ) → List ℕ
signers_of = map (λ p. p.1)

abbrev signatures_of : List (Bytes × ℕ) → List Bytes
signatures_of = map (λ p. p.0)

All-insert_pair :
    (n : ℕ) (p : Bytes × ℕ) (ps : List (Bytes × ℕ))
    → n ≤ p.1
    → All (λ y. n ≤ y) (signers_of ps)
    → All (λ y. n ≤ y) (signers_of (insert_pair p ps))
unfolding insert_pair
All-insert_pair n p [] h a = (h, tt)
All-insert_pair n p (q ∷ qs) h a = ground (arith, All-insert_pair n p qs h a.1)

All-le : (m n : ℕ) (xs : List ℕ) → m ≤ n → All (λ y. n ≤ y) xs → All (λ y. m ≤ y) xs
All-le m n [] h a = tt
All-le m n (x ∷ xs) h a = (omega (arith, a.0), All-le m n xs h a.1)

insert_pair-Ascending :
    (p : Bytes × ℕ) (ps : List (Bytes × ℕ))
    → Ascending (signers_of ps)
    → Ascending (signers_of (insert_pair p ps))
unfolding insert_pair
insert_pair-Ascending p [] a = (tt, tt)
insert_pair-Ascending p (q ∷ qs) a = elim (Bool-cases (leb p.1 q.1)) [
  | inl before ↦ rw before ((ground arith, All-le p.1 q.1 (signers_of qs) (ground arith) a.0), a)
  | inr after ↦
      rw after (All-insert_pair q.1 p qs (ground arith) a.0, insert_pair-Ascending p qs a.1)
]

sort_pairs-Ascending : (ps : List (Bytes × ℕ)) → Ascending (signers_of (sort_pairs ps))
unfolding sort_pairs
sort_pairs-Ascending [] = tt
sort_pairs-Ascending (p ∷ ps) = insert_pair-Ascending p (sort_pairs ps) (sort_pairs-Ascending ps)

insert_pair-Perm : (p : Bytes × ℕ) (ps : List (Bytes × ℕ)) → Permᴰ (p ∷ ps) (insert_pair p ps)
unfolding insert_pair
insert_pair-Perm p [] = Permᴰ.refl _
insert_pair-Perm p (q ∷ qs) = elim (Bool-cases (leb p.1 q.1)) [
  | inl before ↦ rw before (Permᴰ.refl _)
  | inr after ↦
      rw after (Permᴰ.trans (Permᴰ.swap refl refl) (Permᴰ.cons refl (insert_pair-Perm p qs)))
]

sort_pairs-Perm : (ps : List (Bytes × ℕ)) → Permᴰ ps (sort_pairs ps)
unfolding sort_pairs
sort_pairs-Perm [] = Permᴰ.nil
sort_pairs-Perm (p ∷ ps) =
    Permᴰ.trans (Permᴰ.cons refl (sort_pairs-Perm ps)) (insert_pair-Perm p (sort_pairs ps))

zip-pairs : (ps : List (Bytes × ℕ)) → zip (signatures_of ps) (signers_of ps) ≡ ps
unfolding zip
zip-pairs [] = refl
zip-pairs (p ∷ ps) = ap (λ x. p ∷ x) (zip-pairs ps)

-- The signers and signatures of all the messages, in order.
abbrev pub pairs_of : SignedSsvMessage → List (Bytes × ℕ)
pairs_of m = zip m.signatures m.operator_ids

abbrev pub pairs_of_all : List SignedSsvMessage → List (Bytes × ℕ)
pairs_of_all [] = []
pairs_of_all (m ∷ ms) = pairs_of m ++ pairs_of_all ms

push_all-ok :
    {A E : Type 0} (xs ys zs : List A) (f : ℕ → ℕ → E) → push_all xs ys f ≡ ok zs → zs ≡ xs ++ ys
unfolding push_all
push_all-ok xs [] zs f e = ground (arith, append-nil xs)
push_all-ok xs (y ∷ ys) zs f e = elim (Bool-cases (leb max_signatures (length xs))) [
  | inl full ↦ absurd (ground (arith, full))
  | inr room ↦
      push_all-ok (xs ++ y ∷ []) ys zs f (ground (arith, room)) ∙ append_assoc xs (y ∷ []) ys
]

zip-append :
    (as' : List Bytes) (is : List ℕ) (bs : List Bytes) (js : List ℕ)
    → length as' ≡ length is
    → zip (as' ++ bs) (is ++ js) ≡ zip as' is ++ zip bs js
unfolding zip
zip-append [] [] bs js e = refl
zip-append [] (i ∷ is) bs js e = absurd (omega arith)
zip-append (a ∷ as') [] bs js e = absurd (omega arith)
zip-append (a ∷ as') (i ∷ is) bs js e = ap (λ x. (a, i) ∷ x) (zip-append as' is bs js (omega arith))

record Extended (m e : SignedSsvMessage) (others : List SignedSsvMessage) : Type 0 where
  pub pairs : pairs_of e ≡ pairs_of m ++ pairs_of_all others
  pub paired : length e.operator_ids ≡ length e.signatures
  pub inner : e.ssv_message ≡ m.ssv_message
  pub bytes : e.full_data ≡ m.full_data

-- The pushes of one message.
module _ (m o : SignedSsvMessage) (sigs : List Bytes) (ids : List ℕ)
    (l : length m.operator_ids ≡ length m.signatures)
    (k : length o.operator_ids ≡ length o.signatures) (es : sigs ≡ m.signatures ++ o.signatures)
    (ei : ids ≡ m.operator_ids ++ o.operator_ids) where
  pushed-paired : length ids ≡ length sigs
  pushed-paired =
      rw (es, ei)
        (omega (
          arith,
          length-append m.signatures o.signatures,
          length-append m.operator_ids o.operator_ids,
        ))

  pushed-Extended :
      (e : SignedSsvMessage) (others : List SignedSsvMessage)
      → Extended (record m { signatures = sigs; operator_ids = ids }) e others
      → Extended m e (o ∷ others)
  pushed-Extended e others x = record {
    pairs =
        x.pairs
        ∙ (rw (es, ei, zip-append m.signatures m.operator_ids o.signatures o.operator_ids (sym l))
            (append_assoc (pairs_of m) (pairs_of o) (pairs_of_all others)));
    paired = x.paired;
    inner = x.inner;
    bytes = x.bytes;
  }

extend-Extended :
    (m e : SignedSsvMessage) (others : List SignedSsvMessage)
    → length m.operator_ids ≡ length m.signatures
    → extend m others ≡ ok e
    → Extended m e others
unfolding extend
extend-Extended m e [] l h = ok-Extended m e l (ground arith)
  where
    ok-Extended :
        (m e : SignedSsvMessage)
        → length m.operator_ids ≡ length m.signatures
        → m ≡ e
        → Extended m e []
    ok-Extended m e l h =
        rw (sym h)
          (record { pairs = sym (append-nil (pairs_of m)); paired = l; inner = refl; bytes = refl })
extend-Extended m e (o ∷ others) l h =
    let (even, h₁) = guard-eq-ok _ _ _ h in
    let (sigs, es, h₂) = >>=-eq-ok _ _ h₁ in
    let (ids, ei, h₃) = >>=-eq-ok _ _ h₂ in
    let es' = push_all-ok m.signatures o.signatures sigs too_many_signatures es in
    let ei' = push_all-ok m.operator_ids o.operator_ids ids too_many_operator_ids ei in
    let k = eq_of_== _ _ even in
    pushed-Extended m o sigs ids l k es' ei' e others (
      extend-Extended (record m { signatures = sigs; operator_ids = ids }) e others
        (pushed-paired m o sigs ids l k es' ei') h₃)

-- The message with its signers sorted.
abbrev sort_message : SignedSsvMessage → SignedSsvMessage
sort_message e = record e {
  signatures = signatures_of (sort_pairs (pairs_of e));
  operator_ids = signers_of (sort_pairs (pairs_of e));
}

-- An aggregate carries each signature with its signer, those of the message and of all the others,
-- none lost and none added; its signers ascend; the message inside and the full data stay.
pub aggregate_lem :
    (m a : SignedSsvMessage) (others : List SignedSsvMessage)
    → length m.operator_ids ≡ length m.signatures
    → aggregate m others ≡ ok a
    → Permᴰ (pairs_of m ++ pairs_of_all others) (pairs_of a)
      × Ascending a.operator_ids
      × (a.ssv_message ≡ m.ssv_message)
      × (a.full_data ≡ m.full_data)
unfolding aggregate
aggregate_lem m a others l h =
    let (e, ee, h') = >>=-eq-ok _ _ h in
    sorted e (extend-Extended m e others l ee) (ground (arith, h'))
  where
    sorted :
        (e : SignedSsvMessage)
        → Extended m e others
        → sort_message e ≡ a
        → Permᴰ (pairs_of m ++ pairs_of_all others) (pairs_of a)
          × Ascending a.operator_ids
          × (a.ssv_message ≡ m.ssv_message)
          × (a.full_data ≡ m.full_data)
    sorted e x h =
        rw (sym h, sym x.pairs)
          (
            rw (zip-pairs (sort_pairs (pairs_of e))) (sort_pairs-Perm (pairs_of e)),
            sort_pairs-Ascending (pairs_of e),
            x.inner,
            x.bytes,
          )
