-- ===== src/Fat/Mounted.antt =====
-- What a successful `init` establishes: the layout that the boot sector describes, and a volume
-- that the calls of the FAT can work on.
use sd_fat.Base.{
  ℕ, ◌+◌, ◌*◌, ◌-◌, ◌≡◌, ◌≢◌, ◌⊎◌, inl, inr, refl, sym, ap, subst, ◌∙◌, arith, Bool, true, false,
  not, ◌&&◌, ◌||◌, none, Outcome, Method, done, fail, stuck, bind, bind-done, done-injective,
  Bool-cases, ℕ_discrete, ◌==◌, ltb, if◌then◌else◌,
}
use sd_fat.Endian.{Bytes, get_le32}
use sd_fat.Endian.Laws.{IsBytes}
use sd_fat.Device.{BlockDevice, Sectors}
use sd_fat.Cache.{FsCache, for_read, no_sector, prepare, init, set_mirror_offset}
use sd_fat.Cache.View.{view, IsCopy, IsCoherent}
use sd_fat.Cache.Prepare.{Prepared, prepare-Prepared}
use sd_fat.Fat.{Geometry}
use sd_fat.Fat.Boot
use sd_fat.Fat.Window.{IsMounted}
use sd_fat.Fat.Mount.{
  Mount, on_cache, partition_entry, with_cluster_size, with_layout, with_areas, with_fats,
  with_type, cluster_count, shift_rounds, read_boot, find_start, reset, mount,
}
use sd_fat.Fat.MountShift.{IsPower, shift_rounds-shift}

pub on_cache-done :
    {D A : Type 0} (m : Method (FsCache D) A) (v : Mount D) {a : A} {w : Mount D}
    → on_cache m v ≡ done a w
    → (c : FsCache D) × (m v.cache ≡ done a c) × (record v { cache = c } ≡ w)
on_cache-done {D} {A} m v {a} {w} e = go (m v.cache) refl e
  where
    go :
        (o : Outcome (FsCache D) A)
        → m v.cache ≡ o
        → ◌≡◌ {A = Outcome (Mount D) A}
            (elim o [
              | done a c ↦ done a (record v { cache = c })
              | fail c ↦ fail (record v { cache = c })
              | stuck ↦ stuck
            ])
            (done a w)
        → (c : FsCache D) × (m v.cache ≡ done a c) × (record v { cache = c } ≡ w)
    go (done x c) y z = (c, y ∙ ap (λ t. done t c) (done-injective z).0, (done-injective z).1)
    go (fail c) y z = absurd (cc)
    go stuck y z = absurd (cc)

-- A call behind two guards.
guarded :
    {S A : Type 0} (p q : Bool) (s : S) (o : Outcome S A) {a : A} {t : S}
    → (if not p then fail s else if q then fail s else o) ≡ done a t
    → (p ≡ true) × (q ≡ false) × (o ≡ done a t)
guarded true true s o e = absurd cc
guarded true false s o e = (refl, refl, e)
guarded false q s o e = absurd cc

fat_numbers : (n : ℕ) → (not (n == 1) && not (n == 2)) ≡ false → (n ≡ 1) ⊎ (n ≡ 2)
fat_numbers n e = elim (Bool-cases (n == 1)) [
  | inl y ↦ inl (ground arith)
  | inr k ↦ inr (ground arith)
]

-- The layout that the boot sector `b` at `start` describes, in a geometry `g`.
pub record HasBoot {D : Type 0} (start : ℕ) (b : Bytes) (g : Geometry) (w : Mount D) : Type 0 where
  pub bytes_per_sector : Boot.bytes_per_sector b ≡ 512
  pub fat_count : (Boot.fat_count b ≡ 1) ⊎ (Boot.fat_count b ≡ 2)
  pub shift : ℕ
  pub power : IsPower (Boot.sectors_per_cluster b) shift
  pub geometry :
      w.geometry
      ≡ with_layout start b (record (with_cluster_size b g) { sectors_per_cluster_shift = shift })
  pub unknown_count : w.free_cluster_count ≡ none

module _ {D : Type 0} where
  pub read_boot-HasBoot :
      (start : ℕ) (v : Mount D) {w : Mount D}
      → IsBytes v.cache.buffer
      → read_boot start v ≡ done tt w
      → HasBoot start v.cache.buffer v.geometry w
        × (w.cache ≡ set_mirror_offset v.cache (Boot.sectors_per_fat v.cache.buffer))
        × (w.alloc_search_start ≡ v.alloc_search_start)
  unfolding read_boot
  read_boot-HasBoot start v {w} ib e =
      let (_, u, x, y) = bind-done (shift_rounds 10 1 started) finish called.2 in
      let (j, p, z) = shift_rounds-shift started (ib 13) refl x in
      subst
        (λ t.
          HasBoot start b v.geometry t
          × (t.cache ≡ set_mirror_offset v.cache (Boot.sectors_per_fat b))
          × (t.alloc_search_start ≡ v.alloc_search_start))
        (done-injective y).1
        (
          record {
            bytes_per_sector = ground (arith, called.0);
            fat_count = fat_numbers (Boot.fat_count b) called.1;
            shift = j;
            power = p;
            geometry = ap (λ t. with_layout start b t.geometry) z;
            unknown_count = refl;
          },
          ap {A = Mount D} (λ t. set_mirror_offset t.cache (Boot.sectors_per_fat b)) z,
          ap {A = Mount D} (λ t. t.alloc_search_start) z,
        )
    where
      b : Bytes
      b = v.cache.buffer

      started : Mount D
      started = record v { geometry = with_cluster_size b v.geometry }

      finish : Unit {0} → Method (Mount D) (Unit {0})
      finish _ w = done tt (record w {
        geometry = with_layout start b w.geometry;
        free_cluster_count = none;
        cache = set_mirror_offset w.cache (Boot.sectors_per_fat b);
      })

      called :
          ((Boot.bytes_per_sector b == 512) ≡ true)
          × ((not (Boot.fat_count b == 1) && not (Boot.fat_count b == 2)) ≡ false)
          × (bind (shift_rounds 10 1 started) finish ≡ done tt w)
      called =
          guarded (Boot.bytes_per_sector b == 512)
            (not (Boot.fat_count b == 1) && not (Boot.fat_count b == 2)) v
            (bind (shift_rounds 10 1 started) finish) e

-- Where the volume starts: at the argument, or where an entry of the partition table says.
abbrev pub start_of : Sectors → ℕ → ℕ → ℕ
start_of m part start = if part == 0 then start else get_le32 (m 0) (446 + 16 * (part - 1) + 8)

module _ (B : BlockDevice) where
  open B use {Dev, media, media-IsBytes}

  -- A coherent cache that owes nothing to a second FAT, and shows the medium of `d`.
  record Shows (d : Dev) (c : FsCache Dev) : Type 0 where
    coherent : IsCoherent B c
    no_mirror : c.mirror ≡ false
    shown : (t : ℕ) → t ≢ no_sector → view B c t ≡ media d t

  init-Shows :
      (d : Dev) (c : FsCache Dev) (attached : Bool) → IsBytes c.buffer → Shows d (init c attached d)
  unfolding init
  init-Shows d c attached ib = record {
    coherent = record { bytes = ib; clean = λ _ ne. absurd (ne refl) };
    no_mirror = refl;
    shown = λ t ne. ground arith;
  }

  prepare-Shows :
      (d : Dev) (s : ℕ) (c : FsCache Dev) {c' : FsCache Dev}
      → Shows d c
      → s ≢ no_sector
      → prepare B s for_read c ≡ done tt c'
      → Shows d c' × (c'.buffer ≡ media d s)
  prepare-Shows d s c {c'} h ne e =
      let p = prepare-Prepared B s for_read c h.coherent e in
      (
        record {
          coherent = p.coherent (inl refl);
          no_mirror = ground (arith, p.mirror, h.no_mirror);
          shown = λ t nt. elim (ℕ_discrete t s) [
            | yes q ↦ ground (arith, p.sector, content p)
            | no q ↦ p.others t q nt (owes_none t) ∙ h.shown t nt
          ];
        },
        content p,
      )
    where
      owes_none : (t : ℕ) → ¬ IsCopy B c t
      owes_none t k = absurd (ground (arith, k.1, h.no_mirror))

      content : Prepared B s for_read c c' → c'.buffer ≡ media d s
      content p = p.content refl (owes_none s) ∙ h.shown s ne

  find_start-Shows :
      (d : Dev) (part start : ℕ) (v : Mount Dev) {s : ℕ} {w : Mount Dev}
      → Shows d v.cache
      → find_start B part start v ≡ done s w
      → Shows d w.cache × (s ≡ start_of (media d) part start) × (w ≡ record v { cache = w.cache })
  unfolding find_start
  find_start-Shows d part start v {s} {w} h e = elim (Bool-cases (part == 0)) [
    | inl z ↦
        let (x, y) = done-injective (given z) in
        subst
          (λ t.
            Shows d t.cache
            × (s ≡ start_of (media d) part start)
            × (t ≡ record v { cache = t.cache }))
          y (h, ground (arith, x), refl)
    | inr n ↦
        let (_, u, x, y) = bind-done (on_cache (prepare B 0 for_read) v) pick (listed n) in
        let (c, a, b) = on_cache-done (prepare B 0 for_read) v x in
        let (sh, content) = prepare-Shows d 0 v.cache h (λ q. omega (arith, q)) a in
        let (p, q) = done-injective (picked u y) in
        subst
          (λ t.
            Shows d t.cache
            × (s ≡ start_of (media d) part start)
            × (t ≡ record v { cache = t.cache }))
          (b ∙ q)
          (
            sh,
            sym p
                ∙ ap (λ t. get_le32 t.cache.buffer (mp + 8)) (sym b)
                ∙ ap (λ t. get_le32 t (mp + 8)) content
                ∙ ground (arith),
            refl,
          )
  ]
    where
      mp : ℕ
      mp = partition_entry part

      given : (part == 0) ≡ true → done start v ≡ done s w
      given z = ground arith

      pick : Unit {0} → Method (Mount Dev) ℕ
      pick _ w =
          let b = w.cache.buffer in
          if b (mp + 4) == 0 || (not (b mp == 0) && not (b mp == 0x80))
          then fail w
          else done (get_le32 b (mp + 8)) w

      listed : (part == 0) ≡ false → bind (on_cache (prepare B 0 for_read) v) pick ≡ done s w
      listed n = ground arith

      picked :
          (u : Mount Dev)
          → pick tt u ≡ done s w
          → done (get_le32 u.cache.buffer (mp + 8)) u ≡ done s w
      picked u y = ground arith

  -- A volume that `init` has mounted from the device `d`, with its boot sector in sector `s`.
  pub record MountedAt (d : Dev) (s : ℕ) (g : Geometry) (w : Mount Dev) : Type 0 where
    pub boot : HasBoot s (media d s) g w
    pub first_search : w.alloc_search_start ≡ 1
    pub mounted : IsMounted B w.geometry w.cache
    pub shown : (t : ℕ) → t ≢ no_sector → view B w.cache t ≡ media d t

  with_layout-sectors_per_fat :
      (start : ℕ) (b : Bytes) (g : Geometry)
      → (with_layout start b g).sectors_per_fat ≡ Boot.sectors_per_fat b
  with_layout-sectors_per_fat start b g =
      go (cluster_count start b (with_areas (with_fats start b g)))
        (with_areas (with_fats start b g)) refl
    where
      go :
          (n : ℕ) (h : Geometry)
          → h.sectors_per_fat ≡ Boot.sectors_per_fat b
          → (with_type n b h).sectors_per_fat ≡ Boot.sectors_per_fat b
      go n h e = elim (Bool-cases (ltb n 4085)) [
        | inl y ↦ ground (arith, e)
        | inr y ↦ ground (arith, e)
      ]

  booted :
      (d : Dev) (s : ℕ) (u : Mount Dev) {g : Geometry} {w : Mount Dev}
      → Shows d u.cache
      → u.cache.buffer ≡ media d s
      → read_boot s u ≡ done tt w
      → u.geometry ≡ g
      → u.alloc_search_start ≡ 1
      → MountedAt d s g w
  unfolding set_mirror_offset
  booted d s u {g} {w} sh at e ge first =
      let (boot, cache, search) = read_boot-HasBoot s u sh.coherent.bytes e in
      record {
        boot = subst (λ t. HasBoot s t g w) at (subst (λ t. HasBoot s u.cache.buffer t w) ge boot);
        first_search = search ∙ first;
        mounted = record {
          coherent =
              subst (IsCoherent B) (sym cache)
                (record { bytes = sh.coherent.bytes; clean = sh.coherent.clean });
          offset =
              ap (λ t. t.mirror_offset) cache
              ∙ sym (
                  with_layout-sectors_per_fat s u.cache.buffer
                    (record (with_cluster_size u.cache.buffer u.geometry) {
                      sectors_per_cluster_shift = boot.shift;
                    }))
              ∙ ap (λ t. t.sectors_per_fat) (sym boot.geometry);
          home = λ q. absurd (ground (arith, q, ap (λ t. t.mirror) cache, sh.no_mirror));
        };
        shown = λ t ne. ap (λ c. view B c t) cache ∙ sh.shown t ne;
      }

  pub mount-MountedAt :
      (attached : Bool) (d : Dev) (part start : ℕ) (v : Mount Dev) {w : Mount Dev}
      → IsBytes v.cache.buffer
      → start_of (media d) part start ≢ no_sector
      → mount B attached d part start v ≡ done tt w
      → MountedAt d (start_of (media d) part start) (record v.geometry { fat_type = 0 }) w
  unfolding mount
  mount-MountedAt attached d part start v {w} ib ne e =
      let (s, u, x, y) = bind-done (find_start B part start (reset B attached d v)) behind e in
      let (sh, se, ue) =
        find_start-Shows d part start (reset B attached d v) (init-Shows d v.cache attached ib) x in
      let (_, u2, x2, y2) = bind-done (on_cache (prepare B s for_read) u) (λ _. read_boot s) y in
      let (c, a, b) = on_cache-done (prepare B s for_read) u x2 in
      let (sh2, content) = prepare-Shows d s u.cache sh (λ q. ne (sym se ∙ q)) a in
      subst (λ t. MountedAt d t (record v.geometry { fat_type = 0 }) w) se
        (booted d s u2 (subst (λ t. Shows d t.cache) b sh2)
          (ap (λ t. t.cache.buffer) (sym b) ∙ content) y2
          (ap (λ t. t.geometry) (sym b) ∙ ap (λ t. t.geometry) ue)
          (ap (λ t. t.alloc_search_start) (sym b) ∙ ap (λ t. t.alloc_search_start) ue))
    where
      behind : ℕ → Method (Mount Dev) (Unit {0})
      behind s u = bind (on_cache (prepare B s for_read) u) (λ _. read_boot s)
