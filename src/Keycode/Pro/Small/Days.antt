-- ===== src/Keycode/Pro/Small/Days.antt =====
-- The days that the increments of ADD CREDIT and SET CREDIT messages stand for.
use nexus_embedded.Base.{ℕ, ◌*◌, ◌≤◌, ◌<◌, ◌≡◌, arith, u32}
use nexus_embedded.Keycode.State.{seconds_in_day}
use nexus_embedded.Keycode.Pro.Small.{get_add_credit_increment_days, get_set_credit_increment_days}

-- For a SET CREDIT increment below 240, the days are more than the increment and at most 960, their
-- seconds fit 32 bits, and a larger increment below 240 stands for more days.
pub set_credit_days-bounds :
    (i : ℕ)
    → i < 240
    → (i < get_set_credit_increment_days i)
      × (get_set_credit_increment_days i ≤ 960)
      × (u32 (get_set_credit_increment_days i * seconds_in_day)
          ≡ get_set_credit_increment_days i * seconds_in_day)
      × ((j : ℕ)
          → i < j
          → j < 240
          → get_set_credit_increment_days i < get_set_credit_increment_days j)
unfolding get_set_credit_increment_days
set_credit_days-bounds i h = (ground arith, ground arith, ground arith, λ j a b. ground arith)

-- For an ADD CREDIT increment below 255, the days are more than the increment and at most 405,
-- their seconds fit 32 bits, and a larger increment below 255 stands for more days.
pub add_credit_days-bounds :
    (i : ℕ)
    → i < 255
    → (i < get_add_credit_increment_days i)
      × (get_add_credit_increment_days i ≤ 405)
      × (u32 (get_add_credit_increment_days i * seconds_in_day)
          ≡ get_add_credit_increment_days i * seconds_in_day)
      × ((j : ℕ)
          → i < j
          → j < 255
          → get_add_credit_increment_days i < get_add_credit_increment_days j)
unfolding get_add_credit_increment_days
add_credit_days-bounds i h = (ground arith, ground arith, ground arith, λ j a b. ground arith)
