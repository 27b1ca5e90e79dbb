-- ===== src/Network/Client/Order.antt =====
-- Messages are sent in order; a thread that is ended without a connection fails.
use mathlib.Core.List.{append_assoc, append-nil}
use cs244b_fp.Prelude.{
  ℕ, zero, suc, ◌≡◌, refl, sym, ap, ◌∙◌, inl, inr, ◌⊎◌, Bool, true, false, List, [], ◌∷◌, ◌++◌,
  length, ok, err, Bool-cases, Option-cases, first-ok, ok_injective, null_deref,
}
use cs244b_fp.Network.Rpc.{Rpc, try_open_connection, wait_for_try_open_connection, try_action}
use cs244b_fp.Network.Client.{Message, ProtocolClient, send_message, send_messages, do_work}
use cs244b_fp.Network.Rpc.Ready.{waits}
use cs244b_fp.Network.Client.Retry.{
  send_message-again, send_message-stops, send_message-sent, do_work-starts, do_work-done,
}

send_message-outcome :
    (fuel : ℕ) (m : Message) (c c' : ProtocolClient) (sent : Bool)
    → send_message fuel m c ≡ ok (sent, c')
    → ((sent ≡ true) × (c'.delivered ≡ c.delivered ++ m ∷ []))
      ⊎ ((sent ≡ false) × (c'.delivered ≡ c.delivered) × (c'.rpc.done_flag ≡ true))
unfolding send_message
send_message-outcome zero m c c' sent e = absurd cc
send_message-outcome (suc fuel) m c c' sent e =
    let ((success, rpc), called, _) = first-ok (try_action c.rpc) _ e in
    elim (Option-cases success) [
      | inr (r, given) ↦
          (let s =
              sent_pair (send_message-sent fuel m c rpc (called ∙ ap (λ s. ok (s, rpc)) given)) in
            inl (ap (λ p. p.0) s, ap (λ p. p.1.delivered) s))
      | inl nothing ↦
          (let lost = called ∙ ap (λ s. ok (s, rpc)) nothing in
            elim (Bool-cases rpc.done_flag) [
              | inl done ↦
                  (let s = sent_pair (send_message-stops fuel m c rpc lost done) in
                    inr (
                      ap (λ p. p.0) s,
                      ap (λ p. p.1.delivered) s,
                      ap (λ p. p.1.rpc.done_flag) s ∙ done,
                    ))
              | inr running ↦
                  send_message-outcome fuel m (record c { rpc = rpc }) c' sent
                    (sym (send_message-again fuel m c rpc lost running) ∙ e)
            ])
    ]
  where
    sent_pair : {p : Bool × ProtocolClient} → send_message (suc fuel) m c ≡ ok p → (sent, c') ≡ p
    sent_pair f = ok_injective (sym e ∙ f)

send_messages-prefix :
    (todo : List Message) (c c' : ProtocolClient)
    → send_messages todo c ≡ ok c'
    → (front back : List Message) × (todo ≡ front ++ back)
      × (c'.delivered ≡ c.delivered ++ front)
      × ((back ≡ []) ⊎ (c'.rpc.done_flag ≡ true))
unfolding send_messages
send_messages-prefix [] c c' e = (
  [],
  [],
  refl,
  ap (λ x. x.delivered) (sym (ok_injective e)) ∙ sym (append-nil c.delivered),
  inl refl,
)
send_messages-prefix (m ∷ todo) c c' e =
    let ((sent, d), first, next) = first-ok (send_message (suc (length c.rpc.calls)) m c) _ e in
    elim (send_message-outcome (suc (length c.rpc.calls)) m c d sent first) [
      | inl (given, delivered) ↦
          (let (front, back, split, all, why) =
              send_messages-prefix todo d c' (sym (goes_on sent d todo given) ∙ next) in
            (
              m ∷ front,
              back,
              ap (λ l. m ∷ l) split,
              all ∙ ap (λ l. l ++ front) delivered ∙ append_assoc c.delivered (m ∷ []) front,
              why,
            ))
      | inr (nothing, same, done) ↦
          (let stopped = ok_injective (sym (ends sent d todo nothing) ∙ next) in
            (
              [],
              m ∷ todo,
              refl,
              ap (λ x. x.delivered) (sym stopped) ∙ same ∙ sym (append-nil c.delivered),
              inr (ap (λ x. x.rpc.done_flag) (sym stopped) ∙ done),
            ))
    ]
  where
    goes_on :
        (sent : Bool) (d : ProtocolClient) (todo : List Message)
        → sent ≡ true
        → (elim sent [ true ↦ send_messages todo d | false ↦ ok d ]) ≡ send_messages todo d
    goes_on sent d todo given = rw given refl

    ends :
        (sent : Bool) (d : ProtocolClient) (todo : List Message)
        → sent ≡ false
        → (elim sent [ true ↦ send_messages todo d | false ↦ ok d ]) ≡ ok d
    ends sent d todo nothing = rw nothing refl

-- If `do_work` returns, whatever the network answered until then, messages are delivered in order and
-- none is left out: what is delivered is a leading part of the list, and all of it unless `done_flag`
-- is set. Runs in which it does not return, where the network stops to answer or a client that is shut
-- down has no connection, are not covered.
pub do_work-prefix :
    (todo : List Message) (c c' : ProtocolClient)
    → do_work todo c ≡ ok c'
    → (front back : List Message) × (todo ≡ front ++ back)
      × (c'.delivered ≡ c.delivered ++ front)
      × ((back ≡ []) ⊎ (c'.rpc.done_flag ≡ true))
do_work-prefix todo c c' e = elim (Bool-cases c.rpc.done_flag) [
  | inr running ↦ send_messages-prefix todo c c' (sym (do_work-starts todo c running) ∙ e)
  | inl done ↦
      (let same = ok_injective (sym (do_work-done todo c done) ∙ e) in
        (
          [],
          todo,
          refl,
          ap (λ x. x.delivered) (sym same) ∙ sym (append-nil c.delivered),
          inr (ap (λ x. x.rpc.done_flag) (sym same) ∙ done),
        ))
]

abbrev pub failing : ℕ → List (Bool × Bool) → List (Bool × Bool)
failing zero opens = opens
failing (suc n) opens = (false, false) ∷ failing n opens

try_open_connection-fails :
    (n : ℕ) (rest : List (Bool × Bool)) (s : Rpc Unit)
    → try_open_connection (failing n ((false, true) ∷ rest)) s
      ≡ ok (record s { is_open = false; done_flag = true; opens = rest })
unfolding try_open_connection
try_open_connection-fails zero rest s = refl
try_open_connection-fails (suc n) rest s =
    try_open_connection-fails n rest
      (record s { is_open = false; done_flag = false; opens = failing n ((false, true) ∷ rest) })

-- A thread that is ended while it waits for a connection, after any number of attempts that fail,
-- goes on to send through the null pointer of its client.
pub do_work-shutdown :
    (n : ℕ) (rest : List (Bool × Bool)) (m : Message) (todo : List Message) (c : ProtocolClient)
    → c.rpc.is_open ≡ false
    → c.rpc.done_flag ≡ false
    → c.rpc.opens ≡ failing n ((false, true) ∷ rest)
    → do_work (m ∷ todo) c ≡ err null_deref
unfolding try_action send_messages send_message
do_work-shutdown n rest m todo c gone running e =
    let ended = record c.rpc { is_open = false; done_flag = true; opens = rest } in
    let waited : wait_for_try_open_connection c.rpc ≡ ok ended =
      waits c.rpc gone running
      ∙ ap (λ opens. try_open_connection opens c.rpc) e
      ∙ try_open_connection-fails n rest c.rpc in
    do_work-starts (m ∷ todo) c running ∙ rw waited refl
