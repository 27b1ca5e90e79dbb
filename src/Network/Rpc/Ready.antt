-- ===== src/Network/Rpc/Ready.antt =====
-- A connection that is lost is opened again, as long as the network lets it.
use mathlib.Core.Path.{subst}
use cs244b_fp.Prelude.{
  ℕ, suc, ◌+◌, ◌≤◌, ◌<◌, ◌≡◌, refl, sym, ap, ◌∙◌, inl, inr, ◌⊎◌, Bool, true, false, Option, none,
  some, List, [], ◌∷◌, length, if◌then◌else◌, ok, err, ◌>>=◌, All, arith, Bool-cases, null_deref,
}
use cs244b_fp.Network.Rpc.{
  Rpc, try_open_connection, wait_for_try_open_connection, try_action, answer,
}

abbrev pub opened_count : List (Bool × Bool) → ℕ
opened_count [] = 0
opened_count ((true, done) ∷ rest) = suc (opened_count rest)
opened_count ((false, done) ∷ rest) = opened_count rest

abbrev pub Answer : Type 0
Answer = Unit

abbrev pub answered_count : List (Option Answer × Bool) → ℕ
answered_count [] = 0
answered_count ((some r, done) ∷ rest) = suc (answered_count rest)
answered_count ((none, done) ∷ rest) = answered_count rest

abbrev pub closed : Bool → ℕ
closed true = 0
closed false = 1

-- The network answers `n` more calls, each call that fails is followed by an attempt that connects,
-- and nobody ends the thread.
pub record Ready (n : ℕ) (s : Rpc Unit) : Type 0 where
  pub running : s.done_flag ≡ false
  pub quiet_opens : All (λ e. e.1 ≡ false) s.opens
  pub quiet_calls : All (λ e. e.1 ≡ false) s.calls
  pub answers : n ≤ answered_count s.calls
  pub reconnects : length s.calls + closed s.is_open ≤ opened_count s.opens

try_open_connection-opens :
    (opens : List (Bool × Bool)) (s : Rpc Unit)
    → All (λ e. e.1 ≡ false) opens
    → 1 ≤ opened_count opens
    → (s' : Rpc Unit) × (try_open_connection opens s ≡ ok s')
      × (s'.is_open ≡ true)
      × (s'.done_flag ≡ false)
      × (s'.calls ≡ s.calls)
      × All (λ e. e.1 ≡ false) s'.opens
      × (suc (opened_count s'.opens) ≡ opened_count opens)
unfolding try_open_connection
try_open_connection-opens [] s quiet some_open = absurd (omega arith)
try_open_connection-opens ((true, done) ∷ rest) s quiet some_open = (
  record s { is_open = true; done_flag = done; opens = rest },
  refl,
  refl,
  quiet.0,
  refl,
  quiet.1,
  refl,
)
try_open_connection-opens ((false, true) ∷ rest) s quiet some_open = absurd cc
try_open_connection-opens ((false, false) ∷ rest) s quiet some_open =
    try_open_connection-opens rest (record s { is_open = false; done_flag = false; opens = rest })
      quiet.1 some_open

pub waits :
    (s : Rpc Unit)
    → s.is_open ≡ false
    → s.done_flag ≡ false
    → wait_for_try_open_connection s ≡ try_open_connection s.opens s
unfolding wait_for_try_open_connection
waits s gone running = simp (gone, running)

no_wait : (s : Rpc Unit) → s.is_open ≡ true → wait_for_try_open_connection s ≡ ok s
unfolding wait_for_try_open_connection
no_wait s there = simp there

-- What a wait for the connection leaves.
record Connected (s s' : Rpc Unit) : Type 0 where
  result : wait_for_try_open_connection s ≡ ok s'
  connection : s'.is_open ≡ true
  runs : s'.done_flag ≡ false
  same_calls : s'.calls ≡ s.calls
  opens_quiet : All (λ e. e.1 ≡ false) s'.opens
  enough : length s.calls ≤ opened_count s'.opens

wait_for_try_open_connection-Connected :
    (n : ℕ) (s : Rpc Unit) → Ready n s → (s' : Rpc Unit) × Connected s s'
wait_for_try_open_connection-Connected n s r = elim (Bool-cases s.is_open) [
  | inl there ↦ (
    s,
    record {
      result = no_wait s there;
      connection = there;
      runs = r.running;
      same_calls = refl;
      opens_quiet = r.quiet_opens;
      enough = omega (arith, r.reconnects);
    },
  )
  | inr gone ↦
      (let one : closed s.is_open ≡ 1 = ap closed gone in
        let (s', e, is, runs, same, quiet, count) =
          try_open_connection-opens s.opens s r.quiet_opens (omega (arith, one, r.reconnects)) in
        (
          s',
          record {
            result = waits s gone r.running ∙ e;
            connection = is;
            runs = runs;
            same_calls = same;
            opens_quiet = quiet;
            enough = omega (arith, one, count, r.reconnects);
          },
        ))
]

try_action-answer : (s s' : Rpc Unit) → Connected s s' → try_action s ≡ answer s'.calls s'
unfolding try_action
try_action-answer s s' c =
    ap (λ r. r >>= (λ q. if q.is_open then answer q.calls q else err null_deref)) c.result
    ∙ simp c.connection

answer-Ready :
    (n : ℕ) (calls : List (Option Answer × Bool)) (s : Rpc Unit)
    → All (λ e. e.1 ≡ false) s.opens
    → s.is_open ≡ true
    → All (λ e. e.1 ≡ false) calls
    → suc n ≤ answered_count calls
    → length calls ≤ opened_count s.opens
    → (s' : Rpc Unit) × (((answer calls s ≡ ok (some tt, s')) × Ready n s')
        ⊎ ((answer calls s ≡ ok (none, s')) × Ready (suc n) s' × (length s'.calls < length calls)))
unfolding answer
answer-Ready n [] s opens there quiet more enough = absurd (omega arith)
answer-Ready n ((some r, done) ∷ rest) s opens there quiet more enough = (
  record s { done_flag = done; calls = rest },
  inl (
    refl,
    record {
      running = quiet.0;
      quiet_opens = opens;
      quiet_calls = quiet.1;
      answers = omega arith;
      reconnects = omega (arith, ap closed there);
    },
  ),
)
answer-Ready n ((none, done) ∷ rest) s opens there quiet more enough = (
  record s { done_flag = done; calls = rest; is_open = false },
  inr (
    refl,
    record {
      running = quiet.0;
      quiet_opens = opens;
      quiet_calls = quiet.1;
      answers = more;
      reconnects = omega arith;
    },
    omega arith,
  ),
)

-- A call succeeds, or there is one answer less and the connection is lost.
pub try_action-Ready :
    (n : ℕ) (s : Rpc Unit)
    → Ready (suc n) s
    → (s' : Rpc Unit) × (((try_action s ≡ ok (some tt, s')) × Ready n s')
        ⊎ ((try_action s ≡ ok (none, s')) × Ready (suc n) s' × (length s'.calls < length s.calls)))
try_action-Ready n s r =
    let (s', c) = wait_for_try_open_connection-Connected (suc n) s r in
    let asked = try_action-answer s s' c in
    let same = c.same_calls in
    let (s'', cases) =
      answer-Ready n s'.calls s' c.opens_quiet c.connection
        (subst (All (λ e. e.1 ≡ false)) (sym same) r.quiet_calls)
        (subst (λ calls. suc n ≤ answered_count calls) (sym same) r.answers)
        (subst (λ calls. length calls ≤ opened_count s'.opens) (sym same) c.enough) in
    (
      s'',
      elim cases [
        | inl (e, ready) ↦ inl (asked ∙ e, ready)
        | inr (e, ready, fewer) ↦
            inr (asked ∙ e, ready, subst (λ calls. length s''.calls < length calls) same fewer)
      ],
    )
