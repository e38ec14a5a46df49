-- ===== src/BufferPool/Start.antt =====
-- The pool that the constructor of src/storage/buffer_manager/buffer_pool.cpp makes.
use graphflowdb.Base.{ℕ, ◌%◌, ◌^◌, ◌<◌, ◌≡◌, refl, arith}
use graphflowdb.FileHandle.{uint32_max, FileHandle, ceil_div, get_frame_idx}
use graphflowdb.BufferPool.{BufferPool, new_buffer_pool}
use graphflowdb.BufferPool.Availability.{IsInside}
use graphflowdb.BufferPool.Contents.{contents-on_disk}
use graphflowdb.BufferPool.Files.{Implements}

module _ {Page : Type 0} (blank : Page) (page_size max_size : ℕ) (files : ℕ → FileHandle Page)
    (apart : (f p : ℕ) → get_frame_idx (files f) p ≡ uint32_max)
    (some_frames : 0 < ceil_div max_size page_size % 2 ^ 32)
    (few_frames : ceil_div max_size page_size % 2 ^ 32 < uint32_max) where
  abbrev pool : BufferPool Page
  pool = new_buffer_pool blank page_size max_size files

  -- A new pool over files with no page in a frame shows the files as they are on disk.
  pub new_buffer_pool-Implements : Implements pool (λ f p. (files f).pages p)
  unfolding new_buffer_pool
  new_buffer_pool-Implements = record {
    swizzled = record {
      some_frames = some_frames;
      few_frames = few_frames;
      in_range = λ f p n. absurd (n (apart f p));
      mapped_file = λ f p n. absurd (n (apart f p));
      mapped_page = λ f p n. absurd (n (apart f p));
      mapped_pin = λ f p n. absurd (n (apart f p));
      held_frame = λ i lt n. absurd (n refl);
    };
    clean = λ i lt z d. absurd (omega (arith, z));
    holds =
        λ f p. contents-on_disk (new_buffer_pool blank page_size max_size files) f p (apart f p);
  }

  pub new_buffer_pool-IsInside : IsInside pool
  unfolding new_buffer_pool
  new_buffer_pool-IsInside i lt n = absurd (n refl)
