-- ===== src/Network/Client/Retry.antt =====
-- Messages are sent again until they arrive.
use mathlib.Core.List.{append_assoc, append-nil}
use cs244b_fp.Prelude.{
  ℕ, zero, suc, ◌<◌, ◌≡◌, refl, sym, ap, ◌∙◌, inl, inr, true, false, none, some, List, [], ◌∷◌,
  ◌++◌, length, ok, arith,
}
use cs244b_fp.Network.Rpc.{Rpc, try_action}
use cs244b_fp.Network.Client.{Message, ProtocolClient, send_message, send_messages, do_work}
use cs244b_fp.Network.Rpc.Ready.{Ready, try_action-Ready}

pub send_message-again :
    (fuel : ℕ) (m : Message) (c : ProtocolClient) (rpc : Rpc Unit)
    → try_action c.rpc ≡ ok (none, rpc)
    → rpc.done_flag ≡ false
    → send_message (suc fuel) m c ≡ send_message fuel m (record c { rpc = rpc })
unfolding send_message
send_message-again fuel m c rpc e running = rw e (simp running)

pub send_message-stops :
    (fuel : ℕ) (m : Message) (c : ProtocolClient) (rpc : Rpc Unit)
    → try_action c.rpc ≡ ok (none, rpc)
    → rpc.done_flag ≡ true
    → send_message (suc fuel) m c ≡ ok (false, record c { rpc = rpc })
unfolding send_message
send_message-stops fuel m c rpc e done = rw e (simp done)

pub send_message-sent :
    (fuel : ℕ) (m : Message) (c : ProtocolClient) (rpc : Rpc Unit)
    → try_action c.rpc ≡ ok (some tt, rpc)
    → send_message (suc fuel) m c
      ≡ ok (true, record c { rpc = rpc; delivered = c.delivered ++ m ∷ [] })
unfolding send_message
send_message-sent fuel m c rpc e = rw e refl

send_message-delivers :
    (fuel n : ℕ) (m : Message) (c : ProtocolClient)
    → Ready (suc n) c.rpc
    → length c.rpc.calls < fuel
    → (c' : ProtocolClient) × (send_message fuel m c ≡ ok (true, c'))
      × Ready n c'.rpc
      × (c'.delivered ≡ c.delivered ++ m ∷ [])
      × (c'.work ≡ c.work)
unfolding send_message
send_message-delivers zero n m c r more = absurd (omega arith)
send_message-delivers (suc fuel) n m c r more =
    let (rpc, cases) = try_action-Ready n c.rpc r in
    elim cases [
      | inl (e, ready) ↦
          (record c { rpc = rpc; delivered = c.delivered ++ m ∷ [] }, rw e refl, ready, refl, refl)
      | inr (e, ready, fewer) ↦
          (let (c', sent, rest, delivered, work) =
              send_message-delivers fuel n m (record c { rpc = rpc }) ready (omega arith) in
            (c', send_message-again fuel m c rpc e ready.running ∙ sent, rest, delivered, work))
    ]

send_messages-delivers :
    (todo : List Message) (c : ProtocolClient)
    → Ready (length todo) c.rpc
    → (c' : ProtocolClient) × (send_messages todo c ≡ ok c')
      × (c'.delivered ≡ c.delivered ++ todo)
      × (c'.work ≡ c.work)
unfolding send_messages
send_messages-delivers [] c r = (c, refl, sym (append-nil c.delivered), refl)
send_messages-delivers (m ∷ todo) c r =
    let (c', sent, ready, delivered, work) =
      send_message-delivers (suc (length c.rpc.calls)) (length todo) m c r (omega arith) in
    let (c'', all_sent, all, kept) = send_messages-delivers todo c' ready in
    (
      c'',
      rw sent all_sent,
      all ∙ ap (λ d. d ++ todo) delivered ∙ append_assoc c.delivered (m ∷ []) todo,
      kept ∙ work,
    )

pub do_work-starts :
    (todo : List Message) (c : ProtocolClient)
    → c.rpc.done_flag ≡ false
    → do_work todo c ≡ send_messages todo c
unfolding do_work
do_work-starts todo c running = simp running

pub do_work-done :
    (todo : List Message) (c : ProtocolClient) → c.rpc.done_flag ≡ true → do_work todo c ≡ ok c
unfolding do_work
do_work-done todo c done = simp done

-- While nobody ends the thread, the network answers as many calls as there are messages, and every
-- call that fails is followed by an attempt that connects, all messages are delivered, in order.
pub do_work-delivers :
    (todo : List Message) (c : ProtocolClient)
    → Ready (length todo) c.rpc
    → (c' : ProtocolClient) × (do_work todo c ≡ ok c')
      × (c'.delivered ≡ c.delivered ++ todo)
      × (c'.work ≡ c.work)
do_work-delivers todo c r =
    let (c', e, delivered, work) = send_messages-delivers todo c r in
    (c', do_work-starts todo c r.running ∙ e, delivered, work)
