-- ===== src/Text/Buffer.antt =====
-- Writes into the fixed character arrays of the structures, which `calloc` has filled with NULs.
-- The content of an array is the list of the bytes before its first NUL.
use sipster.Base.{
  ℕ, ◌-◌, Bytes, Exec, ok, fault, overflow, over_read, leb, ltb, if◌then◌else◌, length, take,
}

-- `strncpy(field, s, s.length() + 1)` into `char field[cap]`: no bound but the array's own.
unfoldable pub strncpy_all : ℕ → Bytes → Exec Bytes
strncpy_all cap s = if ltb (length s) cap then ok s else fault overflow

-- `strncpy(field, s, s.length())`: the same without the NUL, which may leave none in the array.
unfoldable pub strncpy_bare : ℕ → Bytes → Exec Bytes
strncpy_bare cap s = if leb (length s) cap then ok s else fault overflow

-- `strncpy(field, s, sizeof(field) - 1)`.
unfoldable pub strncpy_bounded : ℕ → Bytes → Bytes
strncpy_bounded cap s = take (cap - 1) s

-- `strncpy(field, s, sizeof(field))`: a long text leaves no NUL.
unfoldable pub strncpy_full : ℕ → Bytes → Bytes
strncpy_full cap s = take cap s

-- Reading `char field[cap]` as a C string.
unfoldable pub c_str : ℕ → Bytes → Exec Bytes
c_str cap s = if ltb (length s) cap then ok s else fault over_read

-- `snprintf(out, n, …)`.
unfoldable pub snprintf : ℕ → Bytes → Bytes
snprintf n s = take (n - 1) s
