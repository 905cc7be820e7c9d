-- ===== src/Checkpoint/Interval.antt =====
-- How many of the newest records are not covered by a published checkpoint.
use darm_guard.Prelude.{ℕ, ◌-◌, ◌<◌, max, false, String, arith, nat_eq}
use darm_guard.Attest.{Scheme}
use darm_guard.Checkpoint.{Checkpointer, maybe}

module _ (s : Scheme) where
  -- After every append, whatever the sink does, fewer than `every` records are newer than the last
  -- attempt to publish.
  pub maybe_interval :
      (genesis head : String) (count : ℕ) (c : Checkpointer)
      → 0 < c.every
      → count
          - max
              (maybe s genesis count head false c).1.last_count
              (maybe s genesis count head false c).1.last_attempt
        < c.every
  unfolding maybe
  maybe_interval genesis head count c h = ground arith
