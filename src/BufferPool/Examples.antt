-- ===== src/BufferPool/Examples.antt =====
-- Runs of the buffer pool on small inputs: the theorems on src/storage/buffer_manager/
-- buffer_pool.cpp at concrete pools.
use graphflowdb.Base.{
  ℕ, zero, suc, ◌+◌, ◌≡◌, refl, inl, inr, true, false, some, List, [], ◌∷◌, arith,
}
use graphflowdb.FileHandle.{uint32_max, FileHandle}
use graphflowdb.BufferPool.{BufferPool, new_buffer_pool, returned, thrown, waiting}
use graphflowdb.BufferPool.Claim.{try_frame}
use graphflowdb.BufferPool.Pin.{pin, unpin, set_pinned_page_dirty}
use graphflowdb.BufferPool.Effects.{frame_of}
use graphflowdb.BufferPool.Eviction.{lock_page}
use graphflowdb.BufferPool.Start.{new_buffer_pool-Implements, new_buffer_pool-IsInside}
use graphflowdb.BufferPool.Pinning.{Pins, pin-Pins}
use graphflowdb.BufferPool.Returns.{Returns, pin-Returns, AllPinned, pin-AllPinned}
use graphflowdb.BufferPool.Unpinning.{Unpins, unpin-Unpins, write_buffer}
use graphflowdb.BufferPool.Remove.{flush_all_dirty_pages_in_frames}
use graphflowdb.BufferPool.Invariant.{IsSwizzled}
use graphflowdb.BufferPool.Contents.{contents}
use graphflowdb.BufferPool.Removal.{IsSettled}
use graphflowdb.BufferPool.Flush.{flush_all_dirty_pages_in_frames_lem}
use graphflowdb.BufferPool.Files.{
  Access, read, mark, release, create, Implements, Runs, stop, after_read, after_create, after_mark,
  after_release, replay, Runs-Implements,
}

-- A file of four pages, page `i` holding the number `10 + i`, with no page in a frame.
abbrev file : FileHandle ℕ
file = record {
  is_large_paged = false;
  pages = λ i. 10 + i;
  page_locks = λ i. some false;
  page_idx_to_frame_map = λ i. some uint32_max;
  num_pages = 4;
  page_capacity = 4;
}

-- A pool of one frame.
abbrev pool : BufferPool ℕ
pool = new_buffer_pool 0 4096 4096 (λ f. file)

pool-Implements : Implements pool (λ f p. 10 + p)
pool-Implements =
    new_buffer_pool-Implements 0 4096 4096 (λ f. file) (λ f p. refl) (omega arith) (omega arith)

-- Then page 2 is released and page 1 read: page 2 leaves the only frame.
abbrev accesses : List (Access ℕ)
accesses = create 0 2 55 ∷ mark 0 2 ∷ release 0 2 ∷ read 0 1 ∷ []

abbrev created : BufferPool ℕ
created = write_buffer (pin pool 0 2 true).0 0 55

abbrev marked : BufferPool ℕ
marked = (set_pinned_page_dirty created 0 2).0

abbrev released : BufferPool ℕ
released = (unpin marked 0 2).0

abbrev evicted : BufferPool ℕ
evicted = (pin released 0 1 false).0

create_eq : pin pool 0 2 true ≡ ((pin pool 0 2 true).0, returned 0)
unfolding new_buffer_pool pin try_frame
create_eq = refl

mark_eq : set_pinned_page_dirty created 0 2 ≡ (marked, returned tt)
unfolding new_buffer_pool pin try_frame set_pinned_page_dirty
mark_eq = refl

release_eq : unpin marked 0 2 ≡ (released, returned tt)
unfolding new_buffer_pool pin try_frame set_pinned_page_dirty unpin
release_eq = refl

evict_eq : pin released 0 1 false ≡ (evicted, returned 0)
unfolding new_buffer_pool pin try_frame set_pinned_page_dirty unpin
evict_eq = refl

-- The evicted page is on disk with what was written to it.
evicted_page : (evicted.files 0).pages 2 ≡ 55
unfolding new_buffer_pool pin try_frame set_pinned_page_dirty unpin
evicted_page = refl

runs : Runs pool accesses evicted
unfolding new_buffer_pool pin try_frame set_pinned_page_dirty unpin
runs =
    after_create {s = pool} {i = 0} (λ n. absurd (n refl)) create_eq
      (after_mark {s = created} mark_eq (
        after_release {s = marked} (λ e. omega (arith, e), omega arith) (omega arith)
          (inr (inl refl)) release_eq
          (after_read {s = released} {i = 0} (λ n. absurd (n refl)) evict_eq stop)))

Runs-Implements_example : Implements evicted (replay (λ f p. 10 + p) accesses)
Runs-Implements_example = Runs-Implements pool evicted accesses (λ f p. 10 + p) pool-Implements runs

marked-Implements : Implements marked (replay (λ f p. 10 + p) (create 0 2 55 ∷ mark 0 2 ∷ []))
unfolding new_buffer_pool
marked-Implements =
    Runs-Implements pool marked (create 0 2 55 ∷ mark 0 2 ∷ []) (λ f p. 10 + p) pool-Implements
      (after_create {s = pool} {i = 0} (λ n. absurd (n refl)) create_eq
        (after_mark {s = created} mark_eq stop))

pin-Pins_example : Pins pool (pin pool 0 2 false) 0 2 false
unfolding new_buffer_pool
pin-Pins_example =
    pin-Pins pool 0 2 false pool-Implements.swizzled pool-Implements.clean (λ n. absurd (n refl))

pin-Returns_example : Returns (pin pool 0 2 false)
unfolding new_buffer_pool
pin-Returns_example =
    pin-Returns pool 0 2 false 0 pool-Implements.swizzled
      (new_buffer_pool-IsInside 0 4096 4096 (λ f. file) (λ f p. refl) (omega arith) (omega arith))
      (omega arith) refl (omega arith) (omega arith) (inl refl)

all_pinned : AllPinned created
unfolding new_buffer_pool pin try_frame
all_pinned zero lt = (λ e. omega (arith, e), λ e. omega (arith, e))
all_pinned (suc i) lt = absurd (omega (arith, lt))

pin-AllPinned_example :
    (pin created 0 1 false ≡ (lock_page created 0 1, thrown))
    × (pin (lock_page created 0 1) 0 1 false ≡ (lock_page created 0 1, waiting))
unfolding new_buffer_pool pin try_frame
pin-AllPinned_example =
    pin-AllPinned created 0 1 false false (omega arith) all_pinned refl refl (omega arith)

unpin-Unpins_example : Unpins marked (unpin marked 0 2) 0 2
unfolding new_buffer_pool pin try_frame set_pinned_page_dirty
unpin-Unpins_example =
    unpin-Unpins marked 0 2 marked-Implements.swizzled marked-Implements.clean
      (λ e. omega (arith, e), omega arith) (omega arith) (inr (inl refl))

marked-IsSettled : IsSettled marked
unfolding new_buffer_pool pin try_frame set_pinned_page_dirty
marked-IsSettled zero lt n d = cc
marked-IsSettled (suc i) lt n d = absurd (omega (arith, lt))

flush_all_dirty_pages_in_frames_lem_example :
    (s' : BufferPool ℕ) × (flush_all_dirty_pages_in_frames marked 0 ≡ (s', returned tt))
    × (frame_of s' 0 2 ≡ uint32_max)
    × ((s'.files 0).pages 2 ≡ contents marked 0 2)
    × ((g p : ℕ) → contents s' g p ≡ contents marked g p)
    × IsSwizzled s'
unfolding new_buffer_pool pin try_frame set_pinned_page_dirty
flush_all_dirty_pages_in_frames_lem_example =
    flush_all_dirty_pages_in_frames_lem marked 0 2 marked-Implements.swizzled marked-IsSettled
      (λ q. ground arith) (omega arith) (omega arith)
