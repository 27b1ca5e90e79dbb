-- ===== src/Vm/Nonspeculative/Proposals.antt =====
-- Proposals leave in the order in which they came; a block without transactions cannot be applied.
use mathlib.Core.Path.{subst}
use cs244b_fp.Prelude.{ℕ, ◌≡◌, refl, sym, ap, ◌∙◌, true, List, [], ◌∷◌, ◌++◌, ok, err, null_deref}
use cs244b_fp.Config.{Hash, ReplicaId}
use cs244b_fp.Wire.{QuorumCertificateWire, Sodium}
use cs244b_fp.Block.{Ptr, mint_block, receive_block, has_body}
use cs244b_fp.Vm.Control.{VmType}
use cs244b_fp.Vm.Bridge.{try_vm_parse}
use cs244b_fp.Vm.Nonspeculative.{
  Bridge, back, pop_back, make_empty_proposal, get_next_proposal, apply_block, add_proposal,
}

-- The proposals that wait, the first to leave first.
abbrev pub waiting : List (List ℕ) → List (List ℕ)
waiting [] = []
waiting (x ∷ xs) = waiting xs ++ x ∷ []

waiting-back :
    (x : List ℕ) (xs : List (List ℕ)) → waiting (x ∷ xs) ≡ back x xs ∷ waiting (pop_back x xs)
unfolding back pop_back
waiting-back x [] = refl
waiting-back x (y ∷ ys) = ap (λ l. l ++ x ∷ []) (waiting-back y ys)

-- An abstract queue of proposals.
pub data Taken : List (List ℕ) → List ℕ → List (List ℕ) → Type 0 where
  nothing_waits : Taken [] [] []
  first_waits : (x : List ℕ) (xs : List (List ℕ)) → Taken (x ∷ xs) x xs

Taken-same :
    {xs ys zs ws : List (List ℕ)} {x : List ℕ} → xs ≡ ys → zs ≡ ws → Taken ys x ws → Taken xs x zs
Taken-same {ys} {zs} {x} e f t =
    subst (λ l. Taken l x zs) (sym e) (subst (λ l. Taken ys x l) (sym f) t)

next-Taken :
    {vm : VmType} (b : Bridge vm) (height : ℕ)
    → b.initialized ≡ true
    → (buffer : List (List ℕ)) → b.proposal_buffer ≡ buffer
    → (body : List ℕ) × (b' : Bridge vm) × (get_next_proposal height b ≡ ok (body, b'))
      × Taken (waiting b.proposal_buffer) body (waiting b'.proposal_buffer)
unfolding get_next_proposal
next-Taken b height init [] e =
    ([], b, simp (init, e), Taken-same (ap waiting e) (ap waiting e) nothing_waits)
next-Taken b height init (x ∷ xs) e = (
  back x xs,
  record b { proposal_buffer = pop_back x xs },
  simp (init, e),
  Taken-same (ap waiting e ∙ waiting-back x xs) refl
      (first_waits (back x xs) (waiting (pop_back x xs))),
)

-- A bridge that is initialized refines a queue: adding puts a proposal at its end, taking returns and
-- removes the first, or an empty body if none waits.
pub proposals-queue :
    {vm : VmType} (b : Bridge vm) (proposal : List ℕ) (height : ℕ)
    → b.initialized ≡ true
    → (waiting (add_proposal proposal b).proposal_buffer
        ≡ waiting b.proposal_buffer ++ proposal ∷ [])
      × (body : List ℕ) × (b' : Bridge vm) × (get_next_proposal height b ≡ ok (body, b'))
      × Taken (waiting b.proposal_buffer) body (waiting b'.proposal_buffer)
unfolding add_proposal
proposals-queue b proposal height init =
    let (body, b', e, taken) = next-Taken b height init b.proposal_buffer refl in
    (refl, body, b', e, taken)

-- The body of an empty proposal makes a block that every replica fails to apply: its value is read
-- through a null pointer.
pub apply_block-empty :
    {vm : VmType} (b : Bridge vm) (sodium : Sodium) (height : ℕ) (qc : QuorumCertificateWire)
    (parent : Hash) (self_id : ReplicaId) (p : Ptr)
    → b.initialized ≡ true
    → (body : List ℕ) × (make_empty_proposal height b ≡ ok body)
      × (apply_block p (mint_block sodium body qc parent self_id) b ≡ err null_deref)
unfolding make_empty_proposal apply_block mint_block receive_block try_vm_parse has_body
apply_block-empty b sodium height qc parent self_id p init = ([], simp init, simp init)
