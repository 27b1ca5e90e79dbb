-- ===== src/Network/Rpc.antt =====
-- nonblocking_rpc_client.h: a client that reconnects. What the network answers is given: for each
-- attempt to connect whether it succeeds, for each call its result, empty if it throws; and with each
-- the value of `done_flag` that is read next, which another thread sets to end this one. Waiting a
-- second between two attempts is left out.
pub mod Ready
use cs244b_fp.Prelude.{
  Bool, true, false, ◌||◌, Option, none, some, List, [], ◌∷◌, if◌then◌else◌, Result, ok, err, ◌>>=◌,
  null_deref, out_of_fuel,
}

pub record Rpc (R : Type 0) : Type 0 where
  pub is_open : Bool
  pub done_flag : Bool
  pub opens : List (Bool × Bool)
  pub calls : List (Option R × Bool)

module _ {R : Type 0} where
  -- The loop of `wait_for_try_open_connection`.
  unfoldable pub try_open_connection : List (Bool × Bool) → Rpc R → Result (Rpc R)
  try_open_connection [] s = err out_of_fuel
  try_open_connection ((opened, done) ∷ rest) s =
      let s' = record s { is_open = opened; done_flag = done; opens = rest } in
      elim (opened || done) [ true ↦ ok s' | false ↦ try_open_connection rest s' ]

  unfoldable pub wait_for_try_open_connection : Rpc R → Result (Rpc R)
  wait_for_try_open_connection s =
      if s.is_open || s.done_flag then ok s else try_open_connection s.opens s

  unfoldable pub answer : List (Option R × Bool) → Rpc R → Result (Option R × Rpc R)
  answer [] s = err out_of_fuel
  answer ((some r, done) ∷ rest) s = ok (some r, record s { done_flag = done; calls = rest })
  answer ((none, done) ∷ rest) s =
      ok (none, record s { done_flag = done; calls = rest; is_open = false })

  -- `try_action`, and `try_action_void`. The action goes through the client's pointer, which is null
  -- while no connection is open.
  unfoldable pub try_action : Rpc R → Result (Option R × Rpc R)
  try_action s = do
    s' ← wait_for_try_open_connection s
    if s'.is_open then answer s'.calls s' else err null_deref
