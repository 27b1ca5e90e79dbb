-- ===== src/Network/Events/Passes.antt =====
-- A pass of the core's event queue is a history of the replica.
use mathlib.Core.Path.{subst}
use cs244b_fp.Prelude.{
  refl, ap, ◌++◌, ◌^◌, ◌<◌, ◌≡◌, ◌∙◌, Bool, true, false, some, List, [], ◌∷◌, arith, All, Result,
  ok, err, Result-cases, err_injective, Bool-cases, not, ◌==◌, leb, inl, inr, Error,
  safety_breached, wrong_certificate, invalid_replica_id, if◌then◌else◌,
}
use cs244b_fp.Config.{ReplicaId, max_replicas}
use cs244b_fp.Wire.{PartialCertificate}
use cs244b_fp.Crypto.Certs.{add_partial_certificate}
use cs244b_fp.Consensus.ThreeChain.{Reacts, quiet, commits, breach}
use cs244b_fp.Block.{Ptr, Heap}
use cs244b_fp.Block.Shape.{SameShape}
use cs244b_fp.Consensus.{Core, cast_vote, on_receive_proposal, on_receive_vote}
use cs244b_fp.Consensus.Advance.{Advances}
use cs244b_fp.Consensus.Voting.{on_receive_proposal-Reacts}
use cs244b_fp.Consensus.Counting.{Reacts-Advances, after_ok, on_receive_vote-Advances}
use cs244b_fp.Consensus.Invariant.{Inv}
use cs244b_fp.Consensus.Run.{Step, proposed, voted, Reach, here, next, Step-Inv}
use cs244b_fp.Network.Events.{Event, vote_event, proposal_event, on_event, run_events}

-- A proposal is linked to the block it certifies, at a height of 32 bits.
pub data IsReady (h : Heap) : Event → Type 0 where
  votes_ready :
      {cert : PartialCertificate} {blk : Ptr} {rid : ReplicaId}
      → IsReady h (vote_event cert blk rid)
  proposal_ready :
      {blk : Ptr} {rid : ReplicaId} (j : Ptr)
      → (h.cell blk).justify_block_ptr ≡ some j
      → (h.cell blk).block_height < 2 ^ 32
      → IsReady h (proposal_event blk rid)

IsReady-same : {h g : Heap} {e : Event} → SameShape h g → IsReady h e → IsReady g e
IsReady-same s votes_ready = votes_ready
IsReady-same s (proposal_ready {blk} j e small) =
    proposal_ready j (s.same_justify blk ∙ e) (omega (arith, small, s.same_height blk))

All-IsReady-same :
    {h g : Heap} (es : List Event) → SameShape h g → All (IsReady h) es → All (IsReady g) es
All-IsReady-same [] s a = tt
All-IsReady-same (e ∷ es) s a = (IsReady-same s a.0, All-IsReady-same es s a.1)

voted_shape :
    (c d : Core) (blk : Ptr) (rid : ReplicaId) (vote : Bool)
    → SameShape (if vote then cast_vote blk rid c else c).heap d.heap
    → SameShape c.heap d.heap
unfolding cast_vote
voted_shape c d blk rid true s = s
voted_shape c d blk rid false s = s

on_event-Step :
    (e : Event) (c d : Core)
    → Inv c
    → IsReady c.heap e
    → on_event e c ≡ ok d
    → Step c d × SameShape c.heap d.heap
unfolding on_event
on_event-Step (vote_event cert blk rid) c d i ready r = (
  voted cert blk rid r,
  (after_ok (Advances c) (on_receive_vote-Advances cert blk rid c) r).shape,
)
on_event-Step (proposal_event blk rid) c d i (proposal_ready j e small) r =
    let (vote, iff, reacts) = on_receive_proposal-Reacts c blk j rid i.linked i.with_qc e in
    (
      proposed blk j rid e small r,
      voted_shape c d blk rid vote (after_ok (Advances _) (Reacts-Advances reacts) r).shape,
    )

Reach-after : {c d e : Core} → Step c d → Reach d e → Reach c e
Reach-after s here = next here s
Reach-after s (next r t) = next (Reach-after s r) t

-- The exceptions of the core: a breach of safety, and votes that do not fit.
pub data Throws : Error → Type 0 where
  breached : Throws safety_breached
  wrong_vote : Throws wrong_certificate
  wrong_voter : Throws invalid_replica_id

never : (b : Bool) (x y : Core) {e : Error} → (if b then ok x else ok y) ≡ err e → Throws e
never true x y r = cc
never false x y r = cc

on_receive_vote-Throws :
    (cert : PartialCertificate) (blk : Ptr) (rid : ReplicaId) (c : Core) (e : Error)
    → on_receive_vote cert blk rid c ≡ err e
    → Throws e
unfolding on_receive_vote add_partial_certificate
on_receive_vote-Throws cert blk rid c e r =
    elim (Bool-cases (not (cert.hash == (c.heap.cell blk).self_qc.obj_hash))) [
      | inl wrong ↦
          subst Throws (err_injective (rw (wrong, on_receive_vote, add_partial_certificate) at r))
            wrong_vote
      | inr right ↦ elim (Bool-cases (leb max_replicas rid)) [
        | inl big ↦
            subst Throws
              (err_injective (rw (right, big, on_receive_vote, add_partial_certificate) at r))
              wrong_voter
        | inr small ↦ never _ _ _ (rw (right, small, on_receive_vote, add_partial_certificate) at r)
      ]
    ]

Reacts-Throws :
    {c : Core} {blk : Ptr} {r : Result Core} (e : Error) → Reacts c blk r → r ≡ err e → Throws e
Reacts-Throws e (quiet q) r = cc
Reacts-Throws e (commits a t) r = cc
Reacts-Throws e (breach t new f) r = subst Throws (err_injective r) breached

on_event-Throws :
    (e : Event) (c : Core) (x : Error) → Inv c → IsReady c.heap e → on_event e c ≡ err x → Throws x
unfolding on_event
on_event-Throws (vote_event cert blk rid) c x i ready r = on_receive_vote-Throws cert blk rid c x r
on_event-Throws (proposal_event blk rid) c x i (proposal_ready j e small) r =
    Reacts-Throws x (on_receive_proposal-Reacts c blk j rid i.linked i.with_qc e).2 r

-- What the core does with one event.
pub data Handles : Event → Core → Core → Type 0 where
  handles_vote :
      {cert : PartialCertificate} {blk : Ptr} {rid : ReplicaId} {c d : Core}
      → on_receive_vote cert blk rid c ≡ ok d
      → Handles (vote_event cert blk rid) c d
  handles_proposal :
      {blk : Ptr} {rid : ReplicaId} {c d : Core}
      → on_receive_proposal blk rid c ≡ ok d
      → Handles (proposal_event blk rid) c d

-- What it throws on one event.
pub data Fails : Event → Core → Error → Type 0 where
  fails_vote :
      {cert : PartialCertificate} {blk : Ptr} {rid : ReplicaId} {c : Core} {x : Error}
      → on_receive_vote cert blk rid c ≡ err x
      → Fails (vote_event cert blk rid) c x
  fails_proposal :
      {blk : Ptr} {rid : ReplicaId} {c : Core} {x : Error}
      → on_receive_proposal blk rid c ≡ err x
      → Fails (proposal_event blk rid) c x

on_event-Handles : (e : Event) (c d : Core) → on_event e c ≡ ok d → Handles e c d
unfolding on_event
on_event-Handles (vote_event cert blk rid) c d r = handles_vote r
on_event-Handles (proposal_event blk rid) c d r = handles_proposal r

on_event-Fails : (e : Event) (c : Core) (x : Error) → on_event e c ≡ err x → Fails e c x
unfolding on_event
on_event-Fails (vote_event cert blk rid) c x r = fails_vote r
on_event-Fails (proposal_event blk rid) c x r = fails_proposal r

-- The events of a list, each once and in order.
pub data Passes : List Event → Core → Core → Type 0 where
  pass_end : {c : Core} → Passes [] c c
  pass_next :
      {e : Event} {es : List Event} {c m d : Core}
      → Handles e c m
      → Passes es m d
      → Passes (e ∷ es) c d

-- How a pass over events ends: after all of them, or at the first on which the core throws.
pub data Ends (es : List Event) (c : Core) : Result Core → Type 0 where
  finished : {d : Core} → Passes es c d → Reach c d → Inv d → Ends es c (ok d)
  thrown :
      {m : Core} {x : Error} (before : List Event) (e : Event) (rest : List Event)
      → es ≡ before ++ e ∷ rest
      → Passes before c m
      → Reach c m
      → Fails e m x
      → Throws x
      → Ends es c (err x)

Ends-after :
    {e : Event} {es : List Event} {c m : Core} {r : Result Core}
    → Handles e c m
    → Step c m
    → Ends es m r
    → Ends (e ∷ es) c r
Ends-after h step (finished p t i) = finished (pass_next h p) (Reach-after step t) i
Ends-after {e} h step (thrown before f rest split p t fails w) =
    thrown (e ∷ before) f rest (ap (λ xs. e ∷ xs) split) (pass_next h p) (Reach-after step t) fails
      w

-- A pass of the queue, over votes and over proposals that are linked to the block they certify at
-- heights below 2 ^ 32, gives the core each event once, in order. Either it comes to the end, or the
-- core throws on an event, after those before it: on a vote for another hash or of an id that is too
-- large, or on a breach of safety. What was handled is a history of the replica. The replica is to be
-- in a state that keeps its invariant, as after every history, and keeps it. Saving blocks, sending
-- votes and writing the index are recorded as effects; what they throw is left out.
pub run_events-Ends :
    (es : List Event) (c : Core) → Inv c → All (IsReady c.heap) es → Ends es c (run_events es c)
unfolding run_events
run_events-Ends [] c i a = finished pass_end here i
run_events-Ends (e ∷ es) c i a = elim (Result-cases (on_event e c)) [
  | inl (m, first) ↦
      let (step, shape) = on_event-Step e c m i a.0 first in
      rw (first, run_events)
        (Ends-after (on_event-Handles e c m first) step
          (run_events-Ends es m (Step-Inv step i) (All-IsReady-same es shape a.1)))
  | inr (x, fails) ↦
      rw (fails, run_events)
        (thrown [] e es refl pass_end here (on_event-Fails e c x fails)
          (on_event-Throws e c x i a.0 fails))
]
