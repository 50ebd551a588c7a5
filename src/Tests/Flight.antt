-- ===== src/Tests/Flight.antt =====
-- Callers of the single flight.
use sonnet_pro.Prelude.Maps.{lookup, insert}
use sonnet_pro.Prelude.{ℕ, ◌≡◌, refl, arith, Text, codes, text_dec}
use sonnet_pro.Flight.{
  Group, new_group, join, start, finish, clean, wake, Reach, ReachV2, here, later, starts, common,
  joins, finishes, cleans, wakes, running,
}
use sonnet_pro.Flight.Exclusive.{Reach-exclusive}
use sonnet_pro.Flight.Results.{IsLive, returned_agree, waiting-IsLive}
use sonnet_pro.Flight.Racing.{both_run}

abbrev key : Text
key = codes "a"

-- The first caller runs, the second joins, the call is done, and both return.
abbrev started : Group ℕ
started = start 0 key new_group

abbrev joined : Group ℕ
joined = join 1 key 0 started

abbrev finished : Group ℕ
finished = finish 0 key 0 7 joined

abbrev cleaned : Group ℕ
cleaned = clean 0 key 0 7 finished

abbrev woken : Group ℕ
woken = wake 1 key 0 7 cleaned

started-Reach : Reach started
unfolding new_group lookup
started-Reach = later here (starts new_group 0 key refl refl)

joined-Reach : Reach joined
unfolding new_group start lookup insert text_dec
joined-Reach = later started-Reach (common (joins started 1 key 0 refl refl))

woken-Reach : Reach woken
unfolding new_group start join finish clean lookup insert text_dec
woken-Reach =
    later
      (later (later joined-Reach (common (finishes joined 0 key 0 7 refl)))
        (common (cleans finished 0 key 0 7 refl)))
      (common (wakes cleaned 1 key 0 7 refl refl))

Reach-exclusive_example : ◌≡◌ {A = ℕ} 0 0
unfolding new_group
Reach-exclusive_example =
    Reach-exclusive started 0 0 key 0 0 started-Reach (unfold start in refl) (unfold start in refl)

returned_agree_example : ◌≡◌ {A = ℕ} 7 7
unfolding new_group
returned_agree_example =
    returned_agree woken 0 1 key key 0 7 7 woken-Reach (unfold start join finish clean wake in refl)
      (unfold start join finish clean wake in refl)

both_run_example : (g : Group ℕ) × ReachV2 g × (g.pc 0 ≡ running key 0) × (g.pc 1 ≡ running key 1)
both_run_example = both_run 0 1 key (omega arith)

waiting-IsLive_example : IsLive joined 0
unfolding new_group
waiting-IsLive_example = waiting-IsLive joined 1 key 0 joined-Reach (unfold start join in refl)
