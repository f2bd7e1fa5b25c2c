-- ===== src/Delivery/Waiting.antt =====
-- The waiting loop of test7.c.
use mitosis_tests.Base.{ℕ, zero, suc, ◌+◌, ◌≤◌, ◌≡◌, refl, ◌≢◌, ◌⊎◌, inr, arith}
use mitosis_tests.Machine.{Memory, Signals}
use mitosis_tests.Delivery.{Globals, interrupted, await}

module _ {W : Type 0} ⦃mem : Memory W⦄ ⦃signals : Signals W⦄ where
  await-ends :
      (fuel timeout : ℕ) (g : Globals) (w : W)
      → timeout ≤ 30
      → 30 ≤ fuel + timeout
      → let ((n, g'), w') = await fuel timeout g w in
        (n ≤ 30) × ((g'.sigalrm_received ≢ 0) ⊎ (n ≡ 30))
  unfolding await
  await-ends zero timeout g w le enough = (le, inr (omega arith))
  await-ends (suc fuel) timeout g w le enough =
      let (g', w') = interrupted (signals.sleep 100000) g w in
      let rest = await-ends fuel (timeout + 1) g' w' in ground (arith, rest)

  -- More fuel than is needed changes nothing.
  await-fuel :
      (fuel fuel' timeout : ℕ) (g : Globals) (w : W)
      → 30 ≤ fuel + timeout
      → 30 ≤ fuel' + timeout
      → await fuel timeout g w ≡ await fuel' timeout g w
  unfolding await
  await-fuel zero zero timeout g w enough enough' = refl
  await-fuel zero (suc fuel') timeout g w enough enough' = ground arith
  await-fuel (suc fuel) zero timeout g w enough enough' = ground arith
  await-fuel (suc fuel) (suc fuel') timeout g w enough enough' =
      let (g', w') = interrupted (signals.sleep 100000) g w in
      let rest = await-fuel fuel fuel' (timeout + 1) g' w' (omega arith) (omega arith) in
      ground (arith, rest)

  -- Whatever signals are delivered, with fuel for 30 rounds or more the waiting loop of test7.c comes to
  -- its end as with fuel for 30, after at most 30 rounds, and with SIGALRM handled or after exactly 30.
  pub await-stops :
      (fuel : ℕ) (g : Globals) (w : W)
      → 30 ≤ fuel
      → let ((n, g'), w') = await fuel 0 g w in
        (await fuel 0 g w ≡ await 30 0 g w) × (n ≤ 30) × ((g'.sigalrm_received ≢ 0) ⊎ (n ≡ 30))
  await-stops fuel g w enough =
      let ended = await-ends fuel 0 g w (omega arith) (omega arith) in
      (await-fuel fuel 30 0 g w (omega arith) (omega arith), ended.0, ended.1)
