-- ===== src/RingBuf/Tests.antt =====
-- Runs of the ring buffer with eight bytes, across its end.
use sd_fat.Base.{ℕ, ◌<◌, ◌^◌, ◌+◌, ◌*◌, ◌-◌, ◌≡◌, refl, arith, false}
use sd_fat.Endian.{Bytes}
use sd_fat.RingBuf.{RingBuf, read, write}
use sd_fat.RingBuf.Laws.{IsRing, Appended, Taken, item, write-Appended, read-Taken, read_overdrawn}

-- Bytes 7 and 0 of the memory are used.
abbrev two_used : RingBuf
two_used = record {
  buf = λ i. 10 + i;
  count = 2;
  head = 1;
  tail = 7;
  in_isr = false;
  write_error = false;
}

two_used-IsRing : IsRing 8 two_used
two_used-IsRing = record {
  fits = omega arith;
  room = omega arith;
  tail_low = omega arith;
  head_at = refl;
}

abbrev squares : Bytes
squares i = i * i

write-Appended_example :
    ((write 8 squares 6 two_used).0 ≡ 6)
    × Appended 8 squares 6 two_used (write 8 squares 6 two_used).1
write-Appended_example = write-Appended 8 squares 6 two_used two_used-IsRing (omega arith)

read-Taken_example :
    ((read 8 squares 2 two_used).0 ≡ 2)
    × Taken 8 2 two_used (read 8 squares 2 two_used).1 (read 8 squares 2 two_used).2
read-Taken_example = read-Taken 8 squares 2 two_used two_used-IsRing (omega arith) (omega arith)

-- Four bytes are returned although two are in the queue.
read_overdrawn_example :
    ((read 8 squares 3 two_used).0 ≡ 3)
    × ((i : ℕ) → i < 3 → (read 8 squares 3 two_used).1 i ≡ item 8 two_used i)
    × ((read 8 squares 3 two_used).2.count ≡ 2 ^ 32 - 1)
    × ¬ IsRing 8 (read 8 squares 3 two_used).2
read_overdrawn_example =
    read_overdrawn 8 squares 3 two_used two_used-IsRing (omega arith) (omega arith)
