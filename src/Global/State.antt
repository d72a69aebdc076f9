-- ===== src/Global/State.antt =====
-- The state that the allocator works on, as one thread sees it between two of its calls.
use aethalloc.Prelude.{
  ℕ, ◌+◌, ◌-◌, ◌^◌, Option, none, some, List, [], leb, if◌then◌else◌, get_or, replicate, bit_and,
}
use aethalloc.Magazine
use aethalloc.Magazine.{Magazine}
use aethalloc.Page
use aethalloc.Page.{Os}
use aethalloc.Global.Memory.{Memory, num_size_classes}
use aethalloc.Global.Metrics
use aethalloc.Global.Metrics.{Metrics}

-- A node is its address with the magazine in it.
pub record MagazineNode : Type 0 where
  pub addr : ℕ
  pub magazine : Magazine

-- The two stacks of `GlobalMagazinePool`, the top first.
pub record GlobalMagazinePool : Type 0 where
  pub full : List MagazineNode
  pub empty : List MagazineNode

abbrev pub new_pool : GlobalMagazinePool
new_pool = record { full = []; empty = [] }

pub record MetadataAllocator : Type 0 where
  pub current_page : ℕ
  pub offset : ℕ

pub record State : Type 0 where
  pub memory : Memory
  pub os : Os
  pub alloc_mags : List Magazine
  pub free_mags : List Magazine
  pub metrics : Metrics
  pub global_metrics : Metrics
  pub pools : List GlobalMagazinePool
  pub metadata : MetadataAllocator

abbrev pub start : Memory → Os → State
start memory os = record {
  memory = memory;
  os = os;
  alloc_mags = replicate num_size_classes Magazine.new;
  free_mags = replicate num_size_classes Magazine.new;
  metrics = Metrics.new;
  global_metrics = Metrics.new;
  pools = replicate 13 new_pool;
  metadata = record { current_page = 0; offset = 4096 };
}

abbrev pub alloc_mag : State → ℕ → Magazine
alloc_mag st class = get_or st.alloc_mags class Magazine.new

abbrev pub free_mag : State → ℕ → Magazine
free_mag st class = get_or st.free_mags class Magazine.new

abbrev pub pool : State → ℕ → GlobalMagazinePool
pool st class = get_or st.pools class new_pool

unfoldable pub maybe_flush : State → State
unfolding Metrics.maybe_flush
maybe_flush st =
    let (m, global) = Metrics.maybe_flush st.metrics st.global_metrics in
    record st { metrics = m; global_metrics = global }

unfoldable pub page_alloc : ℕ → State → Option ℕ × State
page_alloc pages st = let (base, os) = Page.alloc pages st.os in (base, record st { os = os })

unfoldable pub page_dealloc : (addr pages : ℕ) → State → State
page_dealloc addr pages st = record st { os = Page.dealloc addr pages st.os }

abbrev pub node_size : ℕ
node_size = 528

abbrev pub node_align : ℕ
node_align = 8

-- `MetadataAllocator::alloc_node`: the next node of the current page, or the first of a new one. No
-- swap fails for no reason here; where that of `current_page` does, the source unmaps the new page and
-- starts again.
unfoldable pub alloc_node : State → ℕ × State
unfolding page_alloc
alloc_node st =
    let aligned = bit_and (st.metadata.offset + node_align - 1) (2 ^ 64 - node_align) in
    if leb (aligned + node_size) 4096
    then (
      st.metadata.current_page + aligned,
      record st { metadata = record (st.metadata) { offset = aligned + node_size } },
    )
    else (let (page, st') = page_alloc 1 st in
        elim page [
          | none ↦ (0, st')
          | some addr ↦
              (addr, record st' { metadata = record { current_page = addr; offset = node_size } })
        ])
