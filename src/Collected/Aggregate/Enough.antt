-- ===== src/Collected/Aggregate/Enough.antt =====
-- What `aggregate` of node/src/types/attestation/mod.rs returns.
use ackinacki.Collected.Aggregate.Round.{round-Meets, round-IsFiled, IsFiled, Meets}
use ackinacki.Envelope.{Envelope, BlsSignatureScheme}
use ackinacki.Collected.Aggregate.{put_before, aggregate, aggregate_one}
use ackinacki.Common.{
  Result-cases, err, Result, ok, inr, inl, arith, ◌≡◌, Option, List, some, none, ◌∷◌, [],
}
use ackinacki.Collected.{
  AggregateError, AttestationData, AggregateFilter, BlockFacts, CollectedAttestations, key_eq,
}

module _ {Signature PubKey : Type 0} where
  -- The envelopes answer some of the requests, in their order.
  pub data Answers
      : List (BlockFacts Signature PubKey × AggregateFilter)
        → List (Envelope Signature AttestationData)
        → Type 0 where
    end : Answers [] []
    skipped :
        {rs : List (BlockFacts Signature PubKey × AggregateFilter)}
        {es : List (Envelope Signature AttestationData)}
        (r : BlockFacts Signature PubKey × AggregateFilter)
        → Answers rs es
        → Answers (r ∷ rs) es
    answered :
        {rs : List (BlockFacts Signature PubKey × AggregateFilter)}
        {es : List (Envelope Signature AttestationData)} (b : BlockFacts Signature PubKey)
        (f : AggregateFilter) (e : Envelope Signature AttestationData)
        → Meets b f e
        → Answers rs es
        → Answers ((b, f) ∷ rs) (e ∷ es)

module _ {Signature PubKey Secret : Type 0}
    (bls : BlsSignatureScheme Signature PubKey Secret AttestationData) where
  -- `put_before` adds an answer.
  push_answer :
      (b : BlockFacts Signature PubKey) (f : AggregateFilter)
      (required : List (BlockFacts Signature PubKey × AggregateFilter))
      (found : Option (Envelope Signature AttestationData))
      (r : Result AggregateError (List (Envelope Signature AttestationData)))
      (result : List (Envelope Signature AttestationData))
      → ((e : Envelope Signature AttestationData) → found ≡ some e → Meets b f e)
      → ((rest : List (Envelope Signature AttestationData)) → r ≡ ok rest → Answers required rest)
      → put_before found r ≡ ok result
      → Answers ((b, f) ∷ required) result
  push_answer b f required none (err e) result m a h = cc
  push_answer b f required (some x) (err e) result m a h = cc
  push_answer b f required none (ok rest) result m a h = skipped (b, f) (a result h)
  push_answer b f required (some x) (ok rest) [] m a h = absurd (ground arith)
  push_answer b f required (some x) (ok rest) (e ∷ es) m a h =
      answered b f e (m e (ground arith)) (a es (ground arith))

  -- If each folded envelope is kept under the key of its own data, then `aggregate` keeps it so, also
  -- when it ends with an error, and where it succeeds the envelopes that it returns answer some of the
  -- requests, in their order: each has at least as many signatures as the filter asks for, and is the
  -- proof that the block's state holds, whatever it signs, or signs the block, its number and the target
  -- of the filter.
  pub aggregate-Answers :
      (s : CollectedAttestations Signature)
      (required : List (BlockFacts Signature PubKey × AggregateFilter))
      → IsFiled s
      → IsFiled (aggregate bls s required).0
        × ((result : List (Envelope Signature AttestationData))
            → (aggregate bls s required).1 ≡ ok result
            → Answers required result)
  unfolding aggregate
  aggregate-Answers s [] filed = (filed, λ result h. ok_nil result h)
    where
      ok_nil :
          (result : List (Envelope Signature AttestationData))
          → (aggregate bls s []).1 ≡ ok result
          → Answers {Signature = Signature} {PubKey = PubKey} [] result
      ok_nil [] h = end
      ok_nil (e ∷ es) h = absurd (ground arith)
  aggregate-Answers s ((b, f) ∷ required) filed = elim (Result-cases (aggregate_one bls s b f)) [
    | inl (e, failed) ↦ (rw (failed, aggregate) filed, λ result h. cc (rw (failed, aggregate) at h))
    | inr ((next, found), round) ↦
        let (later, answers) =
          aggregate-Answers next required (round-IsFiled bls s next b f found round filed) in
        (
          rw (round, aggregate) later,
          λ result h.
              push_answer b f required found _ result
                (λ e is_found. round-Meets bls s next b f found round e filed is_found) answers
                (rw (round, aggregate) at h),
        )
  ]
