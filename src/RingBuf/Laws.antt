-- ===== src/RingBuf/Laws.antt =====
-- The ring buffer as a queue of bytes, and its invariant.
use sd_fat.Base.{ℕ, ◌+◌, ◌-◌, ◌^◌, ◌≤◌, ◌<◌, ◌≡◌, arith, ap, ◌∙◌, dec_lt, true, ltb, if◌then◌else◌}
use sd_fat.Endian.{Bytes}
use sd_fat.RingBuf.{RingBuf, begin, read, write}

module _ (size : ℕ) where
  -- The position behind `k` places from the start of the memory.
  abbrev pub wrap : ℕ → ℕ
  wrap k = if ltb k size then k else k - size

  pub record IsRing (r : RingBuf) : Type 0 where
    pub fits : size < 2 ^ 31
    pub room : r.count ≤ size
    pub tail_low : r.tail < size
    pub head_at : r.head ≡ wrap (r.tail + r.count)

  -- Byte `i` of the queue, the oldest one first.
  abbrev pub item : RingBuf → ℕ → ℕ
  item r i = r.buf (wrap (r.tail + i))

  -- The `n` bytes of `src` stand behind those that were in the queue.
  pub record Appended (src : Bytes) (n : ℕ) (r r' : RingBuf) : Type 0 where
    pub ring : IsRing r'
    pub longer : r'.count ≡ r.count + n
    pub kept : (i : ℕ) → i < r.count → item r' i ≡ item r i
    pub added : (i : ℕ) → i < n → item r' (r.count + i) ≡ src i

  -- Where `write` puts its bytes.
  write-stored :
      (src : Bytes) (n : ℕ) (r : RingBuf)
      → IsRing r
      → n ≤ size - r.count
      → (i : ℕ) → i < n
      → (write size src n r).1.buf (wrap (r.head + i)) ≡ src i
  unfolding write
  write-stored src n r h room i lt =
      let low : r.head < size = ground (arith, h.fits, h.room, h.tail_low, h.head_at) in
      elim (dec_lt (r.head + i) size) [
        | yes a ↦ ground (arith, h.fits, h.room)
        | no b ↦ ground (arith, h.fits, h.room)
      ]

  -- `write` of bytes that have room returns their number and appends them to the queue, on a
  -- well-formed ring buffer, which stays well formed.
  pub write-Appended :
      (src : Bytes) (n : ℕ) (r : RingBuf)
      → IsRing r
      → n ≤ size - r.count
      → ((write size src n r).0 ≡ n) × Appended src n r (write size src n r).1
  unfolding write
  write-Appended src n r h room = (
    ground (arith, h.fits, h.room, h.tail_low, h.head_at),
    record {
      ring = record {
        fits = h.fits;
        room = ground (arith, h.fits, h.room);
        tail_low = ground (arith, h.tail_low);
        head_at = ground (arith, h.fits, h.room, h.tail_low, h.head_at);
      };
      longer = ground (arith, h.fits, h.room);
      kept = λ i lt. ground (arith, h.fits, h.room, h.tail_low, h.head_at);
      added = λ i lt.
          ap (write size src n r).1.buf {x = wrap ((write size src n r).1.tail + (r.count + i))}
            {y = wrap (r.head + i)} (ground (arith, h.fits, h.room, h.tail_low, h.head_at))
          ∙ write-stored src n r h room i lt;
    },
  )

  -- On a well-formed ring buffer, `write` of more bytes than have room returns 0, sets the error
  -- flag and changes nothing else.
  pub write_refused :
      (src : Bytes) (n : ℕ) (r : RingBuf)
      → IsRing r
      → size - r.count < n
      → write size src n r ≡ (0, record r { write_error = true })
  unfolding write
  write_refused src n r h full = ground (arith, h.fits, h.room)

  -- The oldest `n` bytes are in `b`, and gone from the queue.
  pub record Taken (n : ℕ) (r : RingBuf) (b : Bytes) (r' : RingBuf) : Type 0 where
    pub ring : IsRing r'
    pub shorter : r'.count ≡ r.count - n
    pub taken : (i : ℕ) → i < n → b i ≡ item r i
    pub left : (i : ℕ) → i < r.count - n → item r' i ≡ item r (n + i)

  -- `read` of a number of bytes that are in the queue, and not more than the free space, returns
  -- them from the front of the queue, on a well-formed ring buffer, which stays well formed.
  pub read-Taken :
      (dst : Bytes) (n : ℕ) (r : RingBuf)
      → IsRing r
      → n ≤ r.count
      → n ≤ size - r.count
      → ((read size dst n r).0 ≡ n) × Taken n r (read size dst n r).1 (read size dst n r).2
  unfolding read
  read-Taken dst n r h used free = (
    ground (arith, h.fits, h.room, h.tail_low),
    record {
      ring = record {
        fits = h.fits;
        room = ground (arith, h.fits, h.room, h.tail_low);
        tail_low = ground (arith, h.fits, h.room, h.tail_low);
        head_at = ground (arith, h.fits, h.room, h.tail_low, h.head_at);
      };
      shorter = ground (arith, h.fits, h.room, h.tail_low);
      taken = λ i lt. ground (arith, h.fits, h.room, h.tail_low, h.head_at);
      left = λ i lt. ground (arith, h.fits, h.room, h.tail_low, h.head_at);
    },
  )

  -- The bytes that `read` yields, also those behind the queue.
  read-item :
      (dst : Bytes) (n : ℕ) (r : RingBuf)
      → IsRing r
      → n ≤ size - r.count
      → (i : ℕ) → i < n
      → (read size dst n r).1 i ≡ item r i
  unfolding read
  read-item dst n r h free i lt = elim (dec_lt (r.tail + i) size) [
    | yes a ↦ ground (arith, h.fits, h.room, h.tail_low)
    | no b ↦ ground (arith, h.fits, h.room, h.tail_low)
  ]

  -- On a well-formed ring buffer, `read` of more bytes than are in the queue, but not more than
  -- the free space, returns the number asked for; the bytes are those of the queue and then those
  -- that the memory holds behind it, the count wraps below 0 to 2 ^ 32 less the missing number,
  -- and the ring buffer is no longer well formed.
  pub read_overdrawn :
      (dst : Bytes) (n : ℕ) (r : RingBuf)
      → IsRing r
      → r.count < n
      → n ≤ size - r.count
      → ((read size dst n r).0 ≡ n)
        × ((i : ℕ) → i < n → (read size dst n r).1 i ≡ item r i)
        × ((read size dst n r).2.count ≡ 2 ^ 32 - (n - r.count))
        × ¬ IsRing (read size dst n r).2
  unfolding read
  read_overdrawn dst n r h more free = (
    ground (arith, h.fits, h.room, h.tail_low),
    λ i lt. read-item dst n r h free i lt,
    ground (arith, h.fits, h.room, h.tail_low),
    λ k. ground (arith, h.fits, h.room, h.tail_low, k.room),
  )

  -- `read` from a full ring buffer yields nothing.
  read_full :
      (dst : Bytes) (n : ℕ) (r : RingBuf)
      → IsRing r
      → r.count ≡ size
      → ((read size dst n r).0 ≡ 0)
        × ((i : ℕ) → (read size dst n r).1 i ≡ dst i)
        × ((read size dst n r).2 ≡ r)
  unfolding read
  read_full dst n r h full = (
    ground (arith, h.fits, h.room, h.tail_low),
    λ i. ground (arith, h.fits, h.room, h.tail_low),
    ground (arith, h.fits, h.room, h.tail_low, h.head_at),
  )

  begin-IsRing : (r : RingBuf) → 0 < size → size < 2 ^ 31 → IsRing (begin r)
  unfolding begin
  begin-IsRing r pos fits = record {
    fits = fits;
    room = omega arith;
    tail_low = pos;
    head_at = ground arith;
  }
