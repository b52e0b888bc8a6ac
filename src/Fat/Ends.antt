-- ===== src/Fat/Ends.antt =====
-- `fatGet` and `fatPut` have no loop: they return.
use sd_fat.Base.{ℕ, ◌+◌, ◌≢◌, arith, done, stuck, bind, bind-ne-stuck, u32, pure, Outcome, Method}
use sd_fat.Device.{BlockDevice}
use sd_fat.Cache.{FsCache, Access}
use sd_fat.Cache.Ends.{prepare-ne-stuck}
use sd_fat.Fat.{
  Geometry, link_of, fat_cache_prepare, second_byte, get_raw, put_raw, get32, get16, get12, put32,
  put16, put12, fat_get, fat_put,
}

module _ (B : BlockDevice) (g : Geometry) where
  open B use {Dev}

  -- The call returns from every state.
  abbrev Returns : {A : Type 0} → Method (FsCache Dev) A → Type 0
  Returns m = (c : FsCache Dev) → m c ≢ stuck

  done-ne-stuck :
      {A : Type 0} (a : A) (c : FsCache Dev) → ◌≢◌ {A = Outcome (FsCache Dev) A} (done a c) stuck
  done-ne-stuck a c e = cc

  bind-Returns :
      {A C : Type 0} (m : Method (FsCache Dev) A) (k : A → Method (FsCache Dev) C)
      → Returns m
      → ((a : A) → Returns (k a))
      → (c : FsCache Dev) → bind (m c) k ≢ stuck
  bind-Returns m k p q c = bind-ne-stuck (m c) k (p c) (λ a s _. q a s)

  prepare-Returns : (s : ℕ) (a : Access) → Returns (fat_cache_prepare B g s a)
  unfolding fat_cache_prepare
  prepare-Returns s a c = prepare-ne-stuck B s _ c

  second_byte-Returns : (s i : ℕ) (a : Access) → Returns (second_byte B g s i a)
  unfolding second_byte
  second_byte-Returns s i a c = ground (
    arith,
    bind-Returns {C = ℕ} (fat_cache_prepare B g (u32 (s + 1)) a) (λ _. pure 0)
        (prepare-Returns (u32 (s + 1)) a) (λ _ c' e. cc) c,
  )

  get32-Returns : (n : ℕ) → Returns (get32 B g n)
  unfolding get32
  get32-Returns n = bind-Returns _ _ (prepare-Returns _ _) (λ _ _ e. cc)

  get16-Returns : (n : ℕ) → Returns (get16 B g n)
  unfolding get16
  get16-Returns n = bind-Returns _ _ (prepare-Returns _ _) (λ _ _ e. cc)

  get12-Returns : (n : ℕ) → Returns (get12 B g n)
  unfolding get12
  get12-Returns n =
      bind-Returns _ _ (prepare-Returns _ _)
        (λ _ c. bind-Returns _ _ (second_byte-Returns _ _ _) (λ _ _. done-ne-stuck _ _) c)

  put32-Returns : (n v : ℕ) → Returns (put32 B g n v)
  unfolding put32
  put32-Returns n v = bind-Returns _ _ (prepare-Returns _ _) (λ _ _ e. cc)

  put16-Returns : (n v : ℕ) → Returns (put16 B g n v)
  unfolding put16
  put16-Returns n v = bind-Returns _ _ (prepare-Returns _ _) (λ _ _ e. cc)

  put12-Returns : (n v : ℕ) → Returns (put12 B g n v)
  unfolding put12
  put12-Returns n v =
      bind-Returns _ _ (prepare-Returns _ _)
        (λ _ c. bind-Returns _ _ (second_byte-Returns _ _ _) (λ _ _. done-ne-stuck _ _) _)

  get_raw-Returns : (n : ℕ) → Returns (get_raw B g n)
  unfolding get_raw
  get_raw-Returns n c = ground (arith, get32-Returns n c, get16-Returns n c, get12-Returns n c)

  -- The read of an entry returns.
  pub fat_get-ne-stuck : (n : ℕ) (c : FsCache Dev) → fat_get B g n c ≢ stuck
  unfolding fat_get
  fat_get-ne-stuck n c = ground (
    arith,
    bind-Returns (get_raw B g n) (λ v. pure (link_of g v)) (get_raw-Returns n) (λ _ _ e. cc) c,
  )

  -- So does the write of one.
  pub fat_put-ne-stuck : (n v : ℕ) (c : FsCache Dev) → fat_put B g n v c ≢ stuck
  unfolding fat_put put_raw
  fat_put-ne-stuck n v c =
      ground (arith, put32-Returns n v c, put16-Returns n v c, put12-Returns n v c)
