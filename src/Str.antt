-- ===== src/Str.antt =====
-- tflib/tf_string.c and tflib/tf_string.h: the extensible string. It keeps the bytes and a NUL in one
-- region, which grows by doubling.
pub mod Holds
use tflib.Common.{ℕ, zero, suc, ◌+◌, ◌*◌, ◌%◌, ◌^◌, leb, ltb, if◌then◌else◌, ◌>>=◌}
use tflib.Common.{Option, none, some, List, [], ◌∷◌, ◌++◌, length, take, drop}
use tflib.Common.Bytes.{read_bytes}
use tflib.Vnum.{to_int}

abbrev pub str_unit : ℕ
str_unit = 16

-- `ptr` is the bytes of the region that are written, from its start, and `room` is the number that
-- were allocated; `size` and `asize` are what the object says.
pub record Str : Type 0 where
  pub ptr : List ℕ
  pub room : ℕ
  pub size : ℕ
  pub asize : ℕ

-- A write of `bytes` at the offset `off`, a fault where the region is too short for it.
unfoldable pub write_at : ℕ → List ℕ → ℕ → List ℕ → Option (List ℕ)
write_at room ptr off bytes =
    if leb (off + length bytes) room
    then (if leb off (length ptr)
        then some (take off ptr ++ (bytes ++ drop (off + length bytes) ptr))
        else none)
    else none

abbrev pub max : ℕ → ℕ → ℕ
max a b = if ltb b a then a else b

-- A new region of `asize` bytes that starts with `bytes`.
unfoldable pub alloc : List ℕ → ℕ → ℕ → Option Str
alloc bytes size asize = do
  ptr ← write_at asize [] 0 bytes
  some (record { ptr = ptr; room = asize; size = size; asize = asize })

unfoldable pub strnew : Option Str
strnew = alloc (0 ∷ []) 0 str_unit

unfoldable pub strnew2 : List ℕ → Option Str
strnew2 str = alloc (str ++ (0 ∷ [])) (length str) (max (length str + 1) str_unit)

unfoldable pub strnew3 : ℕ → Option Str
strnew3 asiz = alloc (0 ∷ []) 0 (max asiz str_unit)

unfoldable pub strdup : Str → Option Str
strdup s = do bytes ← read_bytes s.ptr (s.size + 1); alloc bytes s.size (max (s.size + 1) str_unit)

-- `while(asize < nsize)`: doubled, and raised to `nsize` where that is not enough.
unfoldable pub grow_loop : ℕ → ℕ → ℕ → Option ℕ
grow_loop zero asize nsize = if ltb asize nsize then none else some asize
grow_loop (suc fuel) asize nsize =
    let doubled = asize * 2 % 2 ^ 32 in
    let rest = grow_loop fuel (if ltb doubled nsize then nsize else doubled) nsize in
    if ltb asize nsize then rest else some asize

-- `realloc` keeps the bytes that are written.
unfoldable pub grow : Str → ℕ → Option Str
grow s nsize =
    if ltb s.asize nsize
    then (do asize ← grow_loop 1 s.asize nsize; some (record s { asize = asize; room = asize }))
    else some s

unfoldable pub strcat : Str → List ℕ → ℕ → Option Str
strcat s ptr size = do
  nsize ← to_int (s.size + size + 1)
  g ← grow s nsize
  bytes ← read_bytes ptr size
  written ← write_at g.room g.ptr s.size bytes
  ended ← write_at g.room written (s.size + size) (0 ∷ [])
  some (record g { ptr = ended; size = s.size + size })

-- The string and its NUL are copied at once.
unfoldable pub strcat2 : Str → List ℕ → Option Str
strcat2 s str = do
  nsize ← to_int (s.size + length str + 1)
  g ← grow s nsize
  written ← write_at g.room g.ptr s.size (str ++ (0 ∷ []))
  some (record g { ptr = written; size = s.size + length str })

unfoldable pub strclear : Str → Option Str
strclear s = do ptr ← write_at s.room s.ptr 0 (0 ∷ []); some (record s { ptr = ptr; size = 0 })

-- The region is reallocated for one byte more than `asize` then says.
unfoldable pub strfrommalloc : List ℕ → ℕ → Option Str
strfrommalloc ptr size = do
  ended ← write_at (size + 1) (take (size + 1) ptr) size (0 ∷ [])
  some (record { ptr = ended; room = size + 1; size = size; asize = size })
