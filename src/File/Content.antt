-- ===== src/File/Content.antt =====
-- `read` of a regular file: the bytes that it returns are the bytes of the file.
use sd_fat.Base.{
  ℕ, zero, suc, ◌+◌, ◌-◌, ◌/◌, ◌^◌, ◌≤◌, ◌<◌, ◌≡◌, ◌⊎◌, inl, inr, refl, sym, ◌∙◌, ap, subst, arith,
  Bool, true, false, List, ◌==◌, min, if◌then◌else◌, dec_lt, Outcome, Method, done, fail, stuck,
  bind, bind-done, done-injective, Bool-cases, ==→eq, u32,
}
use sd_fat.Base.Lists.{get_or}
use sd_fat.Endian.{Bytes}
use sd_fat.Device.{BlockDevice}
use sd_fat.Cache.{FsCache}
use sd_fat.Cache.View.{view}
use sd_fat.Fat.{Geometry}
use sd_fat.Fat.Layout.{IsGeometry}
use sd_fat.File.{FatFile, Handle, set_file, on_failure}
use sd_fat.File.Sectors.{Kept}
use sd_fat.File.Place.{IsLayout, IsPlaced, cluster_at, file_byte}
use sd_fat.File.Enter.{Entered, enter_cluster-Entered}
use sd_fat.File.Follow.{IsFile}
use sd_fat.File.Round.{Moved, read_sectors-Moved}
use sd_fat.File.Read.{enter_cluster, read_sectors, read_rounds, read_limit, read_private}

pub on_failure-done :
    {S A : Type 0} (f : S → S) (m : Outcome S A) {a : A} {s : S}
    → on_failure f m ≡ done a s
    → m ≡ done a s
on_failure-done f (done a s) e = e
on_failure-done f (fail s) e = absurd cc
on_failure-done f stuck e = absurd cc

module _ (B : BlockDevice) (g : Geometry) (hg : IsGeometry g) (d : IsLayout g) (cs : List ℕ)
    (c0 : FsCache (B.Dev)) where
  open B use {Dev}

  -- `n` bytes of the file have been read from the position of `f` on into `b`, behind place `at`,
  -- which was `dst`; the file is placed behind them, and nothing else of it has changed.
  pub record HasRead (f : FatFile) (dst : Bytes) (at n : ℕ) (b : Bytes) (p : Handle (FsCache Dev))
      : Type 0 where
    pub same_file :
        p.file ≡ record f { cur_cluster = p.file.cur_cluster; cur_position = f.cur_position + n }
    pub placed : IsPlaced g cs p.file
    pub kept : Kept B g hg c0 p.vol.table
    pub content : (j : ℕ) → j < n → b (at + j) ≡ file_byte g (view B c0) cs (f.cur_position + j)
    pub others : (k : ℕ) → (k < at) ⊎ (at + n ≤ k) → b k ≡ dst k

  -- The handle at the head of the next round.
  abbrev pub moved_on : ℕ → Handle (FsCache Dev) → Handle (FsCache Dev)
  moved_on n p = set_file (λ f. record f { cur_position = u32 (f.cur_position + n) }) p

  -- The rest of a round, from the cluster of the position.
  abbrev pub rest : ℕ → Bytes → ℕ → ℕ → Bool → Method (Handle (FsCache Dev)) (Bytes × ℕ)
  rest fuel dst at to_read more q = elim more [
    | false ↦ done (dst, to_read) q
    | true ↦
        bind (read_sectors B g dst at to_read q)
          (λ r p. read_rounds B g fuel r.0 (at + r.1) (to_read - r.1) (moved_on r.1 p))
  ]

  nothing-HasRead :
      (h : Handle (FsCache Dev)) (dst : Bytes) (at : ℕ)
      → IsPlaced g cs h.file
      → Kept B g hg c0 h.vol.table
      → HasRead h.file dst at 0 dst h
  nothing-HasRead h dst at pl k = record {
    same_file = ap (λ t. record h.file { cur_position = t }) (omega arith);
    placed = pl;
    kept = k;
    content = λ j lt. absurd (omega arith);
    others = λ k o. refl;
  }

  -- The file `f` at the position behind `n` more bytes.
  abbrev pub at_round : FatFile → ℕ → FatFile
  at_round f n = record f {
    cur_cluster = cluster_at g cs (f.cur_position / 512);
    cur_position = f.cur_position + n;
  }

  module _ (h q p0 : Handle (FsCache Dev)) (dst b0 : Bytes) (at to_read n : ℕ)
      (en : Entered B g hg d cs c0 (cluster_at g cs (h.file.cur_position / 512)) h.file q)
      (m : Moved B g hg d cs c0 dst at to_read q b0 n p0)
      (fit : h.file.cur_position + to_read ≤ h.file.file_size)
      (small : h.file.file_size < 2 ^ 32) where
    begins : (moved_on n p0).file ≡ at_round h.file n
    begins =
        ap (λ (f : FatFile). record f { cur_position = u32 (f.cur_position + n) })
          (m.same_file ∙ en.0)
        ∙ ap
            (λ t. record h.file {
              cur_cluster = cluster_at g cs (h.file.cur_position / 512);
              cur_position = t;
            })
            {x = u32 (h.file.cur_position + n)} {y = h.file.cur_position + n}
            (omega (arith, m.not_more))

    pub begins-IsFile : IsFile B g hg d cs c0 h.file → IsFile B g hg d cs c0 (moved_on n p0).file
    begins-IsFile i = subst (IsFile B g hg d cs c0) (sym begins) (
      i.0,
      record {
        chain = i.1.chain;
        inside = i.1.inside;
        room = i.1.room;
        small = i.1.small;
        in_row = i.1.in_row;
      },
    )

    same_position : q.file.cur_position ≡ h.file.cur_position
    same_position = ap (λ (t : FatFile). t.cur_position) en.0

    pub begins-IsPlaced : IsPlaced g cs (moved_on n p0).file
    begins-IsPlaced = subst (IsPlaced g cs) (sym begins) (record {
      inside = omega (arith, m.not_more);
      cluster = λ _.
          ap (λ t. get_or cs t 0)
            (sym (
              subst
                (λ t. (t + n - 1) / 512 / g.sectors_per_cluster ≡ t / 512 / g.sectors_per_cluster)
                same_position m.same_cluster));
    })

    pub begins-fit :
        (moved_on n p0).file.cur_position + (to_read - n) ≤ (moved_on n p0).file.file_size
    begins-fit =
        subst (λ (f : FatFile). f.cur_position + (to_read - n) ≤ f.file_size) (sym begins)
          (omega (arith, m.not_more))

    -- One round and the later ones.
    extend :
        (b : Bytes) (p : Handle (FsCache Dev))
        → HasRead (moved_on n p0).file b0 (at + n) (to_read - n) b p
        → HasRead h.file dst at to_read b p
    extend b p r = record {
      same_file =
          r'.same_file
          ∙ ap (λ t. record h.file { cur_cluster = p.file.cur_cluster; cur_position = t })
              {x = h.file.cur_position + n + (to_read - n)} {y = h.file.cur_position + to_read}
              (omega (arith, m.not_more));
      placed = r'.placed;
      kept = r'.kept;
      content = λ j lt. elim (dec_lt j n) [
        | yes a ↦
            r'.others (at + j) (inl (omega arith))
            ∙ m.moved j a
            ∙ ap (λ t. file_byte g (view B c0) cs (t + j))
                (ap (λ (t : FatFile). t.cur_position) en.0)
        | no a ↦
            ap b {x = at + j} {y = at + n + (j - n)} (omega arith)
            ∙ r'.content (j - n) (omega arith)
            ∙ ap (file_byte g (view B c0) cs) {x = h.file.cur_position + n + (j - n)}
                {y = h.file.cur_position + j} (omega arith)
      ];
      others =
          λ k o. r'.others k (omega (arith, m.not_more)) ∙ m.others k (omega (arith, m.not_more));
    }
      where
        r' : HasRead (at_round h.file n) b0 (at + n) (to_read - n) b p
        r' = subst (λ f. HasRead f b0 (at + n) (to_read - n) b p) begins r

  -- No bytes are left to read.
  read_rounds-empty :
      (fuel : ℕ) (dst : Bytes) (at to_read : ℕ) (h : Handle (FsCache Dev)) {b : Bytes} {left : ℕ}
      {p : Handle (FsCache Dev)}
      → IsPlaced g cs h.file
      → Kept B g hg c0 h.vol.table
      → (to_read == 0) ≡ true
      → read_rounds B g fuel dst at to_read h ≡ done (b, left) p
      → (left ≡ 0) × HasRead h.file dst at to_read b p
  read_rounds-empty fuel dst at to_read h {b} {left} {p} pl k z e =
      let (x, y) = done-injective (empty fuel e) in
      (
        sym (ap (λ t. t.1) x),
        subst (λ n. HasRead h.file dst at n b p) (sym (==→eq to_read 0 z))
            (subst (λ t. HasRead h.file dst at 0 t p) (ap (λ t. t.0) x)
              (subst (HasRead h.file dst at 0 dst) y (nothing-HasRead h dst at pl k))),
      )
    where
      empty :
          (fuel : ℕ)
          → read_rounds B g fuel dst at to_read h ≡ done (b, left) p
          → ◌≡◌ {A = Outcome (Handle (FsCache Dev)) (Bytes × ℕ)}
              (done (dst, 0) h)
              (done (b, left) p)
      empty zero e = unfold read_rounds in ground arith
      empty (suc fuel) e = unfold read_rounds in ground arith

  -- A round with bytes left.
  read_rounds-on :
      (fuel : ℕ) (dst : Bytes) (at to_read : ℕ) (h : Handle (FsCache Dev)) {r : Bytes × ℕ}
      {p : Handle (FsCache Dev)}
      → (to_read == 0) ≡ false
      → read_rounds B g (suc fuel) dst at to_read h ≡ done r p
      → bind (enter_cluster B g h) (rest fuel dst at to_read) ≡ done r p
  unfolding read_rounds
  read_rounds-on fuel dst at to_read h z e = ground arith

  -- The bytes of a round, from the cluster of the position.
  pub round-Moved :
      (dst : Bytes) (at to_read : ℕ) (h q : Handle (FsCache Dev)) {r : Bytes × ℕ}
      {p0 : Handle (FsCache Dev)}
      → IsFile B g hg d cs c0 h.file
      → h.file.cur_position < h.file.file_size
      → Entered B g hg d cs c0 (cluster_at g cs (h.file.cur_position / 512)) h.file q
      → 0 < to_read
      → read_sectors B g dst at to_read q ≡ done r p0
      → Moved B g hg d cs c0 dst at to_read q r.0 r.1 p0
  round-Moved dst at to_read h q i lt en some v =
      read_sectors-Moved B g hg d cs c0 dst at to_read q
        (subst (IsFile B g hg d cs c0) (sym en.0) (
          i.0,
          record {
            chain = i.1.chain;
            inside = i.1.inside;
            room = i.1.room;
            small = i.1.small;
            in_row = i.1.in_row;
          },
        ))
        (subst (λ (f : FatFile). f.cur_position < f.file_size) (sym en.0) lt)
        (subst (λ (f : FatFile). f.cur_cluster ≡ cluster_at g cs (f.cur_position / 512)) (sym en.0)
          refl)
        en.1 some v

  -- The rounds that succeed read all of `to_read`.
  read_rounds-HasRead :
      (fuel : ℕ) (dst : Bytes) (at to_read : ℕ) (h : Handle (FsCache Dev)) {b : Bytes} {left : ℕ}
      {p : Handle (FsCache Dev)}
      → IsFile B g hg d cs c0 h.file
      → IsPlaced g cs h.file
      → Kept B g hg c0 h.vol.table
      → h.file.cur_position + to_read ≤ h.file.file_size
      → read_rounds B g fuel dst at to_read h ≡ done (b, left) p
      → (left ≡ 0) × HasRead h.file dst at to_read b p
  read_rounds-HasRead zero dst at to_read h i pl k fit e =
      read_rounds-empty zero dst at to_read h pl k (unfold read_rounds in ground arith) e
  read_rounds-HasRead (suc fuel) dst at to_read h {b} {left} {p} i pl k fit e =
      elim (Bool-cases (to_read == 0)) [
        | inl z ↦ read_rounds-empty (suc fuel) dst at to_read h pl k z e
        | inr z ↦
            let (more, q, x, y) =
              bind-done (enter_cluster B g h) (rest fuel dst at to_read)
                (read_rounds-on fuel dst at to_read h z e) in
            let (em, en) = enter_cluster-Entered B g hg d cs c0 h q more i pl (ground arith) k x in
            let (r, p0, v, w) =
              bind-done (read_sectors B g dst at to_read q)
                (λ r p. read_rounds B g fuel r.0 (at + r.1) (to_read - r.1) (moved_on r.1 p))
                (subst (λ t. rest fuel dst at to_read t q ≡ done (b, left) p) em y) in
            let m = round-Moved dst at to_read h q i (ground arith) en (ground arith) v in
            let (l, hr) =
              read_rounds-HasRead fuel r.0 (at + r.1) (to_read - r.1) (moved_on r.1 p0)
                (begins-IsFile h q p0 dst r.0 at to_read r.1 en m fit i.1.small i)
                (begins-IsPlaced h q p0 dst r.0 at to_read r.1 en m fit i.1.small) m.kept
                (begins-fit h q p0 dst r.0 at to_read r.1 en m fit i.1.small) w in
            (l, extend h q p0 dst r.0 at to_read r.1 en m fit i.1.small b p hr)
      ]

  -- On a mounted FAT volume whose layout is sound, with a regular file whose clusters are a chain
  -- that holds it and whose current cluster is that of the byte before the position, `read` that
  -- succeeds returns the number asked for, cut to what is left of the file, and those bytes of
  -- the file at the front of the memory, with the rest of the memory as it was; the position has
  -- moved by that number, the current cluster fits it, and no sector that a client sees has
  -- changed.
  pub read_private-HasRead :
      (dst : Bytes) (nbyte : ℕ) (h : Handle (FsCache Dev)) {b : Bytes} {n : ℕ}
      {p : Handle (FsCache Dev)}
      → IsFile B g hg d cs c0 h.file
      → IsPlaced g cs h.file
      → Kept B g hg c0 h.vol.table
      → read_private B g dst nbyte h ≡ done (b, n) p
      → (n ≡ min nbyte (h.file.file_size - h.file.cur_position)) × HasRead h.file dst 0 n b p
  read_private-HasRead dst nbyte h {b} {n} {p} i pl k e =
      let (r, q, x, y) = bind-done (read_rounds B g limit dst 0 limit h) report called in
      let (z, hr) =
        read_rounds-HasRead limit dst 0 limit h i pl k (omega (arith, limit_at, pl.inside)) x in
      let (u, v) = done-injective y in
      let en : limit ≡ n = omega (arith, z, ap (λ t. t.1) u) in
      (
        sym en ∙ limit_at,
        subst (λ t. HasRead h.file dst 0 t b p) en
            (subst (λ t. HasRead h.file dst 0 limit t p) (ap (λ t. t.0) u)
              (subst (HasRead h.file dst 0 limit r.0) v hr)),
      )
    where
      limit : ℕ
      limit = read_limit B g h.file nbyte

      limit_at : limit ≡ min nbyte (h.file.file_size - h.file.cur_position)
      limit_at = ground (arith, i.0, i.1.small, pl.inside)

      report : Bytes × ℕ → Handle (FsCache Dev) → Outcome (Handle (FsCache Dev)) (Bytes × ℕ)
      report r q = done (r.0, limit - r.1) q

      body : Outcome (Handle (FsCache Dev)) (Bytes × ℕ)
      body = if h.file.readable then bind (read_rounds B g limit dst 0 limit h) report else fail h

      outer : on_failure (set_file (λ f. record f { read_error = true })) body ≡ done (b, n) p
      outer = unfold read_private in e

      called : bind (read_rounds B g limit dst 0 limit h) report ≡ done (b, n) p
      called =
          ground
            (arith, on_failure-done (set_file (λ f. record f { read_error = true })) body outer)
