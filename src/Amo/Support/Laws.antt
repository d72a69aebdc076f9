-- ===== src/Amo/Support/Laws.antt =====
-- The loop of the support core consumes entries, and has no way to its own end.
use aethalloc.Prelude.{ℕ, zero, suc, ◌≡◌, refl, inl, inr, true, none, some, Option-cases, arith}
use aethalloc.Amo.Command.{
  RingCommand, free_block, compaction_request, tag_update, stats_report, no_op,
}
use aethalloc.Amo.Ring.{try_pop}
use aethalloc.Amo.Support.{SupportCore, stop, handle, handle_command, round, run}

handle_lem : (c : RingCommand) (core : SupportCore) → handle c core ≡ core
unfolding handle
handle_lem free_block core = refl
handle_lem compaction_request core = refl
handle_lem tag_update core = refl
handle_lem stats_report core = refl
handle_lem no_op core = refl

-- A round of a running core takes from the ring what `try_pop` takes, and changes nothing else.
pub round_lem :
    (capacity : ℕ) (core : SupportCore)
    → core.running ≡ true
    → round capacity core
      ≡ some (record core { ring_buffer = (try_pop capacity core.ring_buffer).1 })
unfolding round handle_command
round_lem capacity core on = elim (Option-cases (try_pop capacity core.ring_buffer).0) [
  | inl e ↦ ground (arith, e)
  | inr (entry, e) ↦ ground (
    arith,
    e,
    handle_lem entry.command (record core { ring_buffer = (try_pop capacity core.ring_buffer).1 }),
  )
]

-- A running core never leaves its loop: however many rounds it is given, `run` has not returned.
pub run_endless :
    (capacity fuel : ℕ) (core : SupportCore) → core.running ≡ true → run capacity fuel core ≡ none
unfolding run
run_endless capacity zero core on = refl
run_endless capacity (suc fuel) core on =
    let next = record core { ring_buffer = (try_pop capacity core.ring_buffer).1 } in
    ground (arith, round_lem capacity core on, run_endless capacity fuel next on)

-- A core that has been stopped returns at once, with its ring as it was.
pub run-stop :
    (capacity fuel : ℕ) (core : SupportCore)
    → run capacity (suc fuel) (stop core) ≡ some (stop core)
unfolding run round stop
run-stop capacity fuel core = refl
