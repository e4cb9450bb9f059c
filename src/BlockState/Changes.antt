-- ===== src/BlockState/Changes.antt =====
-- How the facts of node/src/node/block_state/state.rs change, one setter at a time.
use ackinacki.Common.Assoc.{get, get-insert}
use ackinacki.Common.{
  pair_eq, contains-set_insert, set_insert, ◌^◌, ◌%◌, ◌+◌, ◌||◌, some, ◌==◌, nat_eq, ◌&&◌, arith,
  not, contains, if◌then◌else◌, false, true, [], ◌≡◌, ◌∷◌, List,
}
use ackinacki.BlockState.{
  or_empty, try_add_attestations_interest, set_applied, add_child, add_verified_attestations_for,
  notify_changed, is_set, set_stored, known_children_of, verified_attestations_for, set_invalidated,
  can_be_finalized, AckiNackiBlockState, set_finalized,
}
use ackinacki.Types.{
  target_eq, ThreadIdentifier, SignerIndex, NodeIdentifier, AttestationTargetType, BlockIdentifier,
}
use ackinacki.Common.{refl}

-- The setters that are modelled, with their arguments.
pub data Change : Type 0 where
  finalized invalidated stored applied : Change
  attestations : BlockIdentifier → AttestationTargetType → List SignerIndex → Change
  interest : NodeIdentifier → Change
  child : ThreadIdentifier → BlockIdentifier → Change

pub make : Change → AckiNackiBlockState → AckiNackiBlockState
unfolding set_finalized set_invalidated set_stored set_applied add_verified_attestations_for
    try_add_attestations_interest add_child notify_changed
make finalized s = set_finalized s
make invalidated s = set_invalidated s
make stored s = set_stored s
make applied s = set_applied s
make (attestations b t signers) s = add_verified_attestations_for s b t signers
make (interest n) s = (try_add_attestations_interest s n).0
make (child t b) s = add_child s t b

pub make_all : List Change → AckiNackiBlockState → AckiNackiBlockState
make_all [] s = s
make_all (c ∷ cs) s = make_all cs (make c s)

invalidated-make :
    (c : Change) (s : AckiNackiBlockState)
    → is_set s.invalidated ≡ true
    → is_set (make c s).invalidated ≡ true
unfolding make
invalidated-make finalized s h = h
invalidated-make invalidated s h = ground arith
invalidated-make stored s h = ground arith
invalidated-make applied s h = ground arith
invalidated-make (attestations b t signers) s h = ground arith
invalidated-make (interest n) s h = ground arith
invalidated-make (child t b) s h = ground arith

pub cannot_be_finalized :
    (s : AckiNackiBlockState) → is_set s.invalidated ≡ true → can_be_finalized s ≡ false
unfolding can_be_finalized
cannot_be_finalized s h = ground arith

invalidated-make_all :
    (cs : List Change) (s : AckiNackiBlockState)
    → is_set s.invalidated ≡ true
    → is_set (make_all cs s).invalidated ≡ true
unfolding make_all
invalidated-make_all [] s h = h
invalidated-make_all (c ∷ cs) s h = invalidated-make_all cs (make c s) (invalidated-make c s h)

-- Once a block is invalidated it can not be finalized, whatever setters run afterwards.
pub can_be_finalized-set_invalidated :
    (cs : List Change) (s : AckiNackiBlockState)
    → can_be_finalized (make_all cs (set_invalidated s)) ≡ false
unfolding set_invalidated notify_changed
can_be_finalized-set_invalidated cs s =
    cannot_be_finalized _ (invalidated-make_all cs (set_invalidated s) refl)

-- The signers recorded for a block and a target are those added last for that very pair, once the
-- block's signatures are verified, and nothing is known before.
pub verified_attestations_for-add :
    (s : AckiNackiBlockState) (b b' : BlockIdentifier) (t t' : AttestationTargetType)
    (signers : List SignerIndex)
    → verified_attestations_for (add_verified_attestations_for s b t signers) b' t' ≡ (
        if is_set s.signatures_verified && b == b' && t == t'
        then some signers
        else verified_attestations_for s b' t')
unfolding verified_attestations_for add_verified_attestations_for notify_changed
verified_attestations_for-add s b b' t t' signers =
    ground (arith, get-insert (b, t) (b', t') signers s.verified_attestations)

-- A child is a known child of its thread after it was added, no other child of any thread is gained
-- or lost, and the version of the state moves exactly when the child is new.
pub known_children_of-add_child :
    (s : AckiNackiBlockState) (t t' : ThreadIdentifier) (c c' : BlockIdentifier)
    → (contains c' (or_empty (known_children_of (add_child s t c) t'))
        ≡ (((t == t') && (c == c')) || contains c' (or_empty (known_children_of s t'))))
      × ((add_child s t c).object_state_version ≡ (
          if contains c (or_empty (known_children_of s t))
          then s.object_state_version
          else (s.object_state_version + 1) % 2 ^ 64))
unfolding known_children_of add_child notify_changed
known_children_of-add_child s t t' c c' = ground (
  arith,
  get-insert t t' (set_insert c (or_empty (get t s.known_children))) s.known_children,
  contains-set_insert c c' (or_empty (get t s.known_children)),
)

interested-make :
    (n : NodeIdentifier) (c : Change) (s : AckiNackiBlockState)
    → contains n s.known_attestation_interested_parties ≡ true
    → contains n (make c s).known_attestation_interested_parties ≡ true
unfolding make
interested-make n finalized s h = h
interested-make n invalidated s h = h
interested-make n stored s h = ground arith
interested-make n applied s h = ground arith
interested-make n (attestations b t signers) s h = ground arith
interested-make n (interest m) s h =
    ground (arith, contains-set_insert m n s.known_attestation_interested_parties)
interested-make n (child t b) s h = ground arith

interested-make_all :
    (n : NodeIdentifier) (cs : List Change) (s : AckiNackiBlockState)
    → contains n s.known_attestation_interested_parties ≡ true
    → contains n (make_all cs s).known_attestation_interested_parties ≡ true
unfolding make_all
interested-make_all n [] s h = h
interested-make_all n (c ∷ cs) s h = interested-make_all n cs (make c s) (interested-make n c s h)

try_add-known :
    (s : AckiNackiBlockState) (n : NodeIdentifier)
    → contains n s.known_attestation_interested_parties ≡ true
    → try_add_attestations_interest s n ≡ (s, false)
unfolding try_add_attestations_interest
try_add-known s n h = ground arith

try_add-first :
    (s : AckiNackiBlockState) (n : NodeIdentifier)
    → let (next, added) = try_add_attestations_interest s n in
      (added ≡ not (contains n s.known_attestation_interested_parties))
      × (contains n next.known_attestation_interested_parties ≡ true)
unfolding try_add_attestations_interest notify_changed
try_add-first s n = ground (arith, contains-set_insert n n s.known_attestation_interested_parties)

-- A party's interest is taken once: a call for it answers true exactly when the party is not known
-- yet, and any later call, whatever setters run in between, answers false and changes nothing.
pub try_add_attestations_interest-once :
    (s : AckiNackiBlockState) (n : NodeIdentifier) (cs : List Change)
    → let (next, added) = try_add_attestations_interest s n in
      let later = make_all cs next in
      (added ≡ not (contains n s.known_attestation_interested_parties))
      × (try_add_attestations_interest later n ≡ (later, false))
try_add_attestations_interest-once s n cs =
    let (first, known) = try_add-first s n in
    (first, try_add-known _ n (interested-make_all n cs _ known))
