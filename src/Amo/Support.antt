-- ===== src/Amo/Support.antt =====
-- aethalloc-amo/src/support_core.rs: the loop of the support core, one round at a time.
pub mod Laws
use aethalloc.Prelude.{ℕ, zero, suc, Bool, true, false, Option, none, some, if◌then◌else◌}
use aethalloc.Amo.Command.{
  RingCommand, free_block, compaction_request, tag_update, stats_report, no_op, RingEntry,
}
use aethalloc.Amo.Ring.{Ring, try_pop}

pub record SupportCore : Type 0 where
  pub ring_buffer : Ring
  pub running : Bool

unfoldable pub new : Ring → SupportCore
new ring = record { ring_buffer = ring; running = true }

unfoldable pub stop : SupportCore → SupportCore
stop core = record core { running = false }

-- Every arm of the `match` reads its payload and drops it.
handle : RingCommand → SupportCore → SupportCore
handle free_block core = core
handle compaction_request core = core
handle tag_update core = core
handle stats_report core = core
handle no_op core = core

unfoldable pub handle_command : SupportCore → RingEntry → SupportCore
unfolding handle
handle_command core entry = handle entry.command core

-- One round of the loop of `run`: `none` when the test of the loop fails.
unfoldable pub round : ℕ → SupportCore → Option SupportCore
round capacity core =
    if core.running
    then (let (out, ring) = try_pop capacity core.ring_buffer in
        let popped = record core { ring_buffer = ring } in
        some (elim out [ none ↦ popped | some entry ↦ handle_command popped entry ]))
    else none

-- `run` for at most `fuel` rounds: `none` if the loop has not ended by then.
unfoldable pub run : ℕ → ℕ → SupportCore → Option SupportCore
run capacity zero core = none
run capacity (suc fuel) core = elim (round capacity core) [
  | none ↦ some core
  | some next ↦ run capacity fuel next
]
