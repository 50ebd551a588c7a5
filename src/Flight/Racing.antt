-- ===== src/Flight/Racing.antt =====
-- sonnet-cache-v2/single_flight/single_flight.go: `Load` and `Store` are two steps.
use sonnet_pro.Prelude.Maps.{lookup}
use sonnet_pro.Prelude.{ℕ, ◌≡◌, ◌≢◌, refl, arith, Text}
use sonnet_pro.Flight.{running, Group, new_group, start, miss, misses, stores, ReachV2, here, later}

module _ {R : Type 0} where
  -- Any two callers of the second version can come to run their functions for the same key at once.
  pub both_run :
      (i j : ℕ) (key : Text)
      → i ≢ j
      → (g : Group R) × ReachV2 g × (g.pc i ≡ running key 0) × (g.pc j ≡ running key 1)
  unfolding new_group start miss lookup
  both_run i j key apart =
      let g_1 = miss i key new_group in
      let g_2 = miss j key g_1 in
      let g_3 = start i key g_2 in
      let g_4 = start j key g_3 in
      (
        g_4,
        later
            (later
              (later (later here (misses new_group i key refl refl))
                (misses g_1 j key (ground arith) refl))
              (stores g_2 i key (ground arith)))
            (stores g_3 j key (ground arith)),
        ground arith,
        ground arith,
      )
