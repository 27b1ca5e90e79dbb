-- ===== src/App/Waiting.antt =====
-- What a wait for a certificate decides.
use cs244b_fp.Prelude.{◌≡◌, refl, inl, inr, true, false, ◌||◌, none, ok, ◌==◌, Bool-cases}
use cs244b_fp.Config.{Hash}
use cs244b_fp.Consensus.{get_last_proposer}
use cs244b_fp.App.{HotstuffApp, PaceMaker, new_qc, wait_for_new_qc, wait_for_qc, should_propose}

module _ {V : Type 0} where
  wait-after_qc :
      (app : HotstuffApp V) (k expected : Hash)
      → app.cancel_wait ≡ false
      → wait_for_new_qc expected (new_qc k app)
        ≡ ok (k == expected, record app { latest_new_qc = none })
  unfolding wait_for_new_qc new_qc
  wait-after_qc app k expected running = simp running

  -- A wait that is not cancelled takes the certificate that was reported last, and tells whether it is
  -- on the block that was proposed. The replica that proposed that block is the next to propose
  -- exactly if it is, or if it made the block with the highest certificate.
  pub wait_for_qc-turn :
      (pm : PaceMaker) (app : HotstuffApp V) (k : Hash)
      → app.cancel_wait ≡ false
      → should_propose pm app ≡ true
      → (pm' : PaceMaker) × (app' : HotstuffApp V) × (wait_for_qc pm (new_qc k app)
          ≡ ok (k == pm.expected_hash, pm', app'))
        × (app'.latest_new_qc ≡ none)
        × (should_propose pm' app'
            ≡ (k == pm.expected_hash) || (get_last_proposer app.core == app.core.self_id))
  unfolding wait_for_qc should_propose
  wait_for_qc-turn pm app k running own = elim (Bool-cases (k == pm.expected_hash)) [
    | inl came ↦ (
      pm,
      record app { latest_new_qc = none },
      rw (wait-after_qc app k pm.expected_hash running) (rw came refl),
      refl,
      rw came own,
    )
    | inr other ↦ (
      record pm { proposer = get_last_proposer app.core },
      record app { latest_new_qc = none },
      rw (wait-after_qc app k pm.expected_hash running) (rw other refl),
      refl,
      rw other refl,
    )
  ]
