-- ===== src/Device.antt =====
-- src/common/FsBlockDeviceInterface.h: the sector device below a volume, as an interface. A card
-- driver fills it; the file system is written against its operations and the laws here, which say
-- what a call that reports success has done. A call that reports failure promises only that a
-- read leaves the medium alone.
pub mod Ram
use sd_fat.Base.{ℕ, ◌+◌, ◌-◌, ◌≤◌, ◌<◌, ◌≡◌, Bool, true, ◌&&◌, ltb, leb, ◌==◌, if◌then◌else◌}
use sd_fat.Endian.{Bytes}
use sd_fat.Endian.Laws.{IsBytes}

-- Sectors by their number.
abbrev pub Sectors : Type 0
Sectors = ℕ → Bytes

-- One sector replaced.
abbrev pub put_sector : Sectors → ℕ → Bytes → Sectors
put_sector m s b t = if t == s then b else m t

-- `n` sectors from `s` on replaced.
abbrev pub put_sectors : Sectors → ℕ → ℕ → Sectors → Sectors
put_sectors m s n src t = if leb s t && ltb t (s + n) then src (t - s) else m t

-- `read_sector d s buf` is success, the buffer `buf` after the call, and the device after it;
-- `write_sector d s buf` success and the device. The plural calls take a number of sectors.
pub record BlockDevice : Type 1 where
  pub Dev : Type 0
  pub media : Dev → Sectors
  pub read_sector : Dev → ℕ → Bytes → Bool × Bytes × Dev
  pub read_sectors : Dev → ℕ → ℕ → Sectors → Bool × Sectors × Dev
  pub write_sector : Dev → ℕ → Bytes → Bool × Dev
  pub write_sectors : Dev → ℕ → ℕ → Sectors → Bool × Dev
  pub sync_device : Dev → Bool × Dev
  pub media-IsBytes : (d : Dev) (s : ℕ) → IsBytes (media d s)
  pub read_media : (d : Dev) (s : ℕ) (b : Bytes) → media (read_sector d s b).2 ≡ media d
  pub read_bytes : (d : Dev) (s : ℕ) (b : Bytes) → IsBytes b → IsBytes (read_sector d s b).1
  pub read_ok :
      (d : Dev) (s : ℕ) (b : Bytes)
      → (read_sector d s b).0 ≡ true
      → (read_sector d s b).1 ≡ media d s
  pub reads_media : (d : Dev) (s n : ℕ) (b : Sectors) → media (read_sectors d s n b).2 ≡ media d
  pub reads_ok :
      (d : Dev) (s n : ℕ) (b : Sectors)
      → (read_sectors d s n b).0 ≡ true
      → (i : ℕ) → i < n
      → (read_sectors d s n b).1 i ≡ media d (s + i)
  pub write_ok :
      (d : Dev) (s : ℕ) (b : Bytes)
      → IsBytes b
      → (write_sector d s b).0 ≡ true
      → media (write_sector d s b).1 ≡ put_sector (media d) s b
  pub writes_ok :
      (d : Dev) (s n : ℕ) (b : Sectors)
      → ((i : ℕ) → i < n → IsBytes (b i))
      → (write_sectors d s n b).0 ≡ true
      → media (write_sectors d s n b).1 ≡ put_sectors (media d) s n b
  pub sync_ok : (d : Dev) → media (sync_device d).1 ≡ media d
