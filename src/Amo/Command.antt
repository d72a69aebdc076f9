-- ===== src/Amo/Command.antt =====
-- aethalloc-amo/src/command.rs: the entries of the ring buffer.
use aethalloc.Prelude.{ℕ, List, replicate}

pub data RingCommand : Type 0 where
  free_block compaction_request tag_update stats_report no_op : RingCommand

-- The `#[repr(u8)]` values.
unfoldable pub discriminant : RingCommand → ℕ
discriminant free_block = 0
discriminant compaction_request = 2
discriminant tag_update = 4
discriminant stats_report = 3
discriminant no_op = 255

pub record FreeBlockPayload : Type 0 where
  pub ptr : ℕ
  pub size : ℕ
  pub size_class : ℕ

pub record CompactionRequestPayload : Type 0 where
  pub start_addr : ℕ
  pub len : ℕ

pub record TagUpdatePayload : Type 0 where
  pub ptr : ℕ
  pub old_tag : ℕ
  pub new_tag : ℕ

pub record StatsReportPayload : Type 0 where
  pub thread_id : ℕ
  pub allocs : ℕ
  pub frees : ℕ

-- The union, by the member that was written last.
pub data RingPayload : Type 0 where
  free : FreeBlockPayload → RingPayload
  compaction : CompactionRequestPayload → RingPayload
  tag : TagUpdatePayload → RingPayload
  stats : StatsReportPayload → RingPayload
  raw : List ℕ → RingPayload

pub record RingEntry : Type 0 where
  pub command : RingCommand
  pub payload : RingPayload

abbrev pub default_payload : RingPayload
default_payload = raw (replicate 56 0)

abbrev pub new : RingCommand → RingPayload → RingEntry
new command payload = record { command = command; payload = payload }

abbrev pub default_entry : RingEntry
default_entry = new no_op default_payload

-- The entry of all zero bytes, with which the buffer is filled.
abbrev pub zeroed_entry : RingEntry
zeroed_entry = new free_block default_payload
