-- ===== src/Malloc.antt =====
-- tflib/tf_malloc.c, built without `HAVE_MALLOC_SIZE`: the allocator that counts the memory in use. A
-- block has a word in front that stores the size asked for. Words have 64 bits.
pub mod Count
use tflib.Common.{
  ℕ, ◌+◌, ◌-◌, ◌%◌, ◌^◌, bit_and, leb, ◌==◌, if◌then◌else◌, ◌>>=◌, Bool, true, false,
}
use tflib.Common.{Option, none, some, List, [], ◌∷◌}

abbrev pub prefix_size : ℕ
prefix_size = 8

-- `blocks` are the blocks the system's allocator gave, by the addresses it gave, each with the size in
-- its first word.
pub record Allocator : Type 0 where
  pub used_memory : ℕ
  pub tf_malloc_thread_safe : Bool
  pub blocks : List (ℕ × ℕ)

abbrev pub initial : Allocator
initial = record { used_memory = 0; tf_malloc_thread_safe = false; blocks = [] }

-- A `size_t` padded to a multiple of `sizeof(long)`.
unfoldable pub padded_size : ℕ → ℕ
padded_size n = if bit_and n 7 == 0 then n else (n + (8 - bit_and n 7)) % 2 ^ 64

unfoldable pub stat_alloc : ℕ → ℕ → ℕ
stat_alloc used n = (used + padded_size n) % 2 ^ 64

unfoldable pub stat_free : ℕ → ℕ → ℕ
stat_free used n = (used + 2 ^ 64 - padded_size n) % 2 ^ 64

-- `got` is what the system's `malloc` returned, 0 where it had no memory: the handler then aborts.
-- Where the size with its word in front wraps, the block has no room for that word: a fault.
unfoldable pub alloc : ℕ → Allocator → ℕ → Option (Allocator × ℕ)
alloc got a size =
    if got == 0
    then none
    else if leb (2 ^ 64) (size + prefix_size)
    then none
    else some (
      record a {
        used_memory = stat_alloc a.used_memory ((size + prefix_size) % 2 ^ 64);
        blocks = (got, size) ∷ a.blocks;
      },
      got + prefix_size,
    )

-- The size that is stored at an address, and the other blocks; a fault where there is no block.
unfoldable pub take_block : List (ℕ × ℕ) → ℕ → Option (ℕ × List (ℕ × ℕ))
take_block [] realptr = none
take_block ((p, size) ∷ rest) realptr =
    let below = take_block rest realptr in
    if p == realptr
    then some (size, rest)
    else (do (found, rest') ← below; some (found, (p, size) ∷ rest'))

unfoldable pub malloc_size : Allocator → ℕ → Option ℕ
malloc_size a ptr = do
  (size, _) ← take_block a.blocks (ptr - prefix_size)
  some ((padded_size size + prefix_size) % 2 ^ 64)

-- `got` is what the system's `realloc` returned.
unfoldable pub realloc : ℕ → Allocator → ℕ → ℕ → Option (Allocator × ℕ)
realloc got a ptr size = if ptr == 0 then alloc got a size else (do
  (oldsize, rest) ← take_block a.blocks (ptr - prefix_size)
  if got == 0
      then none
      else if leb (2 ^ 64) (size + prefix_size)
      then none
      else some (
        record a {
          used_memory = stat_alloc (stat_free a.used_memory oldsize) size;
          blocks = (got, size) ∷ rest;
        },
        got + prefix_size,
      ))

unfoldable pub free : Allocator → ℕ → Option Allocator
free a ptr = if ptr == 0 then some a else (do
  (oldsize, rest) ← take_block a.blocks (ptr - prefix_size)
  some (record a {
    used_memory = stat_free a.used_memory ((oldsize + prefix_size) % 2 ^ 64);
    blocks = rest;
  }))
