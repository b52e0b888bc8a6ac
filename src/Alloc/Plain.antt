-- ===== src/Alloc/Plain.antt =====
-- A table that is a function, for the tests: clusters 2 to 6 with 16-bit entries.
use sd_fat.Base.{
  ℕ, ◌≤◌, ◌≡◌, ◌≢◌, ◌%◌, ◌^◌, arith, some, sym, ap, inl, inr, false, Bool-cases, done-injective,
  done, fail, stuck, ltb, ◌||◌, ◌==◌, if◌then◌else◌, Method, Outcome,
}
use sd_fat.Fat.{Link, eoc, next}
use sd_fat.Alloc.{FatTable, Partition}

abbrev pub plain_get : ℕ → Method (ℕ → ℕ) Link
plain_get n s =
    if ltb n 2 || ltb 6 n then fail s else done (if ltb 6 (s n) then eoc else next (s n)) s

abbrev pub plain_put : ℕ → ℕ → Method (ℕ → ℕ) (Unit {0})
plain_put n v s =
    if ltb n 2 || ltb 6 n then fail s else done tt (λ i. if i == n then v % 2 ^ 16 else s i)

abbrev pub IsPlain : (ℕ → ℕ) → Type 0
IsPlain s = Unit {0}

pub plain_get_ok :
    (n : ℕ) {l : Link} {s s' : ℕ → ℕ}
    → IsPlain s
    → plain_get n s ≡ done l s'
    → (2 ≤ n)
      × (n ≤ 6)
      × (l ≡ (if ltb 6 (s n) then eoc else next (s n)))
      × IsPlain s'
      × ((i : ℕ) → i ≤ 6 → s' i ≡ s i)
plain_get_ok n _ e = (ground arith, ground arith, ground arith, tt, λ i h. ground arith)

pub plain_put_ok :
    (n v : ℕ) {s s' : ℕ → ℕ}
    → IsPlain s
    → plain_put n v s ≡ done tt s'
    → (2 ≤ n) × (n ≤ 6) × (s' n ≡ v % 2 ^ 16) × IsPlain s' × ((i : ℕ) → i ≢ n → i ≤ 6 → s' i ≡ s i)
plain_put_ok n v {s} {s'} _ e =
    (ground arith, ground arith, ground (arith, stored n), tt, λ i h k. ground (arith, stored i))
  where
    run :
        (ltb n 2 || ltb 6 n) ≡ false
        → ◌≡◌ {A = Outcome (ℕ → ℕ) (Unit {0})}
            (done tt (λ i. if i == n then v % 2 ^ 16 else s i))
            (done tt s')
    run b = rw b at e

    stored : (i : ℕ) → s' i ≡ (if i == n then v % 2 ^ 16 else s i)
    stored i = elim (Bool-cases (ltb n 2 || ltb 6 n)) [
      | inl b ↦ absurd (ground arith)
      | inr b ↦ sym (ap (λ t. t i) (done-injective (run b)).1)
    ]

pub plain_get_returns : (n : ℕ) (s : ℕ → ℕ) → plain_get n s ≢ stuck
plain_get_returns n s = ground arith

pub plain_put_returns : (n v : ℕ) (s : ℕ → ℕ) → plain_put n v s ≢ stuck
plain_put_returns n v s = ground arith

abbrev pub plain_table : FatTable
plain_table = record {
  State = ℕ → ℕ;
  last_cluster = 6;
  limit = 2 ^ 16;
  get = plain_get;
  put = plain_put;
  IsReady = IsPlain;
  entry = λ s. s;
  last_fits = omega arith;
  last_small = omega arith;
  mark_fits = omega arith;
  get_ok = plain_get_ok;
  put_ok = plain_put_ok;
  get_returns = plain_get_returns;
  put_returns = plain_put_returns;
}

-- Clusters 2 and 4 are a chain; 3, 5 and 6 are free.
abbrev pub entries : ℕ → ℕ
entries i = if i == 2 then 4 else if i == 4 then 0xFFFF else 0

abbrev pub volume : Partition (ℕ → ℕ)
volume = record { alloc_search_start = 3; free_cluster_count = some 3; table = entries }
