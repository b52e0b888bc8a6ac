-- ===== src/Device/Ram.antt =====
-- A device in memory with a set of sectors that cannot be read: it shows that the laws of the
-- interface can be met, and serves the tests.
use sd_fat.Base.{ℕ, ◌+◌, ◌-◌, ◌<◌, ◌≡◌, refl, fun_ext, arith, Bool, true, not, if◌then◌else◌, u8}
use sd_fat.Endian.{Bytes}
use sd_fat.Endian.Laws.{IsBytes}
use sd_fat.Device.{Sectors, BlockDevice, put_sector, put_sectors}

-- `bad` marks the sectors whose reads fail, after the buffer is filled with 0xFF.
pub record Ram : Type 0 where
  pub cells : Sectors
  pub bad : ℕ → Bool

abbrev pub ram_media : Ram → Sectors
ram_media r s i = u8 (r.cells s i)

abbrev pub ram_read : Ram → ℕ → Bytes → Bool × Bytes × Ram
ram_read r s b = (not (r.bad s), if r.bad s then (λ _. 0xFF) else ram_media r s, r)

abbrev pub ram_write : Ram → ℕ → Bytes → Bool × Ram
ram_write r s b = (true, record r { cells = put_sector r.cells s b })

abbrev pub ram_reads : Ram → ℕ → ℕ → Sectors → Bool × Sectors × Ram
ram_reads r s n b = (true, λ i. ram_media r (s + i), r)

abbrev pub ram_writes : Ram → ℕ → ℕ → Sectors → Bool × Ram
ram_writes r s n b = (true, record r { cells = put_sectors r.cells s n b })

pub ram_read_bytes : (r : Ram) (s : ℕ) (b : Bytes) → IsBytes b → IsBytes (ram_read r s b).1
ram_read_bytes r s b h i = ground (arith, h i)

pub ram_read_ok :
    (r : Ram) (s : ℕ) (b : Bytes) → (ram_read r s b).0 ≡ true → (ram_read r s b).1 ≡ ram_media r s
ram_read_ok r s b h = ground arith

pub ram_write_ok :
    (r : Ram) (s : ℕ) (b : Bytes)
    → IsBytes b
    → ram_media (ram_write r s b).1 ≡ put_sector (ram_media r) s b
ram_write_ok r s b h = fun_ext λ t. fun_ext λ i. ground (arith, h i)

pub ram_writes_ok :
    (r : Ram) (s n : ℕ) (b : Sectors)
    → ((i : ℕ) → i < n → IsBytes (b i))
    → ram_media (ram_writes r s n b).1 ≡ put_sectors (ram_media r) s n b
ram_writes_ok r s n b h = fun_ext λ t. fun_ext λ i. ground (arith, λ (k : t - s < n). h (t - s) k i)

abbrev pub ram_device : BlockDevice
ram_device = record {
  Dev = Ram;
  media = ram_media;
  read_sector = ram_read;
  read_sectors = ram_reads;
  write_sector = ram_write;
  write_sectors = ram_writes;
  sync_device = λ r. (true, r);
  media-IsBytes = λ r s i. omega arith;
  read_media = λ r s b. refl;
  read_bytes = ram_read_bytes;
  read_ok = ram_read_ok;
  reads_media = λ r s n b. refl;
  reads_ok = λ r s n b _ i _. refl;
  write_ok = λ r s b h _. ram_write_ok r s b h;
  writes_ok = λ r s n b h _. ram_writes_ok r s n b h;
  sync_ok = λ r. refl;
}
