-- ===== src/RingBuf.antt =====
-- src/RingBuf.h: the ring buffer of `Size` bytes, its calls that copy blocks of memory. The
-- protection of `m_count` from interrupts is left out: a call runs as one step. `size_t` has 32
-- bits.
pub mod Laws
mod Tests
use sd_fat.Base.{
  ℕ, ◌+◌, ◌-◌, ◌%◌, ◌^◌, ◌<◌, Bool, true, false, ◌&&◌, ltb, leb, ◌==◌, if◌then◌else◌, u32, sub32,
}
use sd_fat.Endian.{Bytes}

pub record RingBuf : Type 0 where
  pub buf : Bytes
  pub count : ℕ
  pub head : ℕ
  pub tail : ℕ
  pub in_isr : Bool
  pub write_error : Bool

-- `memcpyBuf(dst + i, src + j, n)`.
abbrev pub memcpy_buf : Bytes → ℕ → Bytes → ℕ → ℕ → Bytes
memcpy_buf dst i src j n k = if leb i k && ltb k (i + n) then src (k - i + j) else dst k

abbrev pub min_size : ℕ → ℕ → ℕ
min_size a b = if ltb a b then a else b

unfoldable pub begin : RingBuf → RingBuf
begin r = record r { count = 0; head = 0; tail = 0; in_isr = false; write_error = false }

module _ (size : ℕ) where
  abbrev pub bytes_used : RingBuf → ℕ
  bytes_used r = r.count

  abbrev pub bytes_free : RingBuf → ℕ
  bytes_free r = sub32 size (bytes_used r)

  -- `advance` by several bytes.
  abbrev pub advance : ℕ → ℕ → ℕ
  advance index n = let i = u32 (index + n) in if ltb i size then i else sub32 i size

  -- `read(void*, size_t)`: the number returned, the destination after the call, and the buffer.
  unfoldable pub read : Bytes → ℕ → RingBuf → ℕ × Bytes × RingBuf
  read dst wanted r =
      let count = if ltb (bytes_free r) wanted then bytes_free r else wanted in
      let n = min_size (sub32 size r.tail) count in
      if n == count
      then (
        count,
        memcpy_buf dst 0 r.buf r.tail n,
        record r { tail = advance r.tail n; count = sub32 r.count count },
      )
      else (
        count,
        memcpy_buf (memcpy_buf dst 0 r.buf r.tail n) n r.buf 0 (sub32 count n),
        record r { tail = sub32 count n; count = sub32 r.count count },
      )

  -- `write(const void*, size_t)`: the number returned and the buffer.
  unfoldable pub write : Bytes → ℕ → RingBuf → ℕ × RingBuf
  write src count r =
      let n = min_size (sub32 size r.head) count in
      if ltb (bytes_free r) count
      then (0, record r { write_error = true })
      else if n == count
      then (
        count,
        record r {
          buf = memcpy_buf r.buf r.head src 0 n;
          head = advance r.head n;
          count = u32 (r.count + count);
        },
      )
      else (
        count,
        record r {
          buf = memcpy_buf (memcpy_buf r.buf r.head src 0 n) 0 src n (sub32 count n);
          head = sub32 count n;
          count = u32 (r.count + count);
        },
      )
