-- ===== src/File/WriteTests.antt =====
-- Writes to the file of the examples.
use sd_fat.Base.{
  ℕ, ◌%◌, ◌<◌, ◌≡◌, ◌≢◌, refl, arith, false, none, [], ◌∷◌, Outcome, done, fail, stuck,
}
use sd_fat.Endian.{Bytes}
use sd_fat.Device.Ram.{Ram, ram_device}
use sd_fat.Cache.{
  FsCache, sync, mirror_fat, fetch, prepare, cache_safe_read, cache_safe_read_range, fetch_range,
  cache_safe_write, cache_safe_write_range, invalidate,
}
use sd_fat.Fat.{fat_cache_prepare, second_byte, get_raw, get12, fat_get}
use sd_fat.Fat.Example.{small_volume, small_volume-IsGeometry}
use sd_fat.Alloc.Mounted.{mounted_table}
use sd_fat.File.{Handle, walk, seek_set, seek_chain}
use sd_fat.File.Read.{
  next_cluster, enter_cluster, read_part, read_many, read_one, read_sectors, read_rounds,
  read_private,
}
use sd_fat.File.Write.{
  write_cluster, write_part, write_many, write_one, write_sectors, write_rounds, write,
}
use sd_fat.File.Write.Wrote.{IsReadyToWrite}
use sd_fat.File.Write.Stores.{Stores}
use sd_fat.File.Write.Stored.{write-Stores}
use sd_fat.File.Write.Ends.{write-ends}
use sd_fat.File.Write.ReadBack.{write_read}
use sd_fat.Alloc.{free_chain, free_rounds, free_one}
use sd_fat.Alloc.Plain.{plain_table}
use sd_fat.File.Place.{IsStored}
use sd_fat.File.Chains.{release_rest, cut_chain}
use sd_fat.File.Truncate.{Truncated}
use sd_fat.File.Truncated.{release_rest-Truncated}
use sd_fat.File.Example.{
  plain_handle, plain_volume, plain_volume-IsLayout, small_volume-IsLayout, two_clusters,
  small_file, small_handle, small_file-IsFile, small_file-IsPlaced, faulty_cache-IsMounted,
}

abbrev state_of : {S A : Type 0} → S → Outcome S A → S
state_of s (done a q) = q
state_of s (fail q) = q
state_of s stuck = s

abbrev bytes_of : Outcome (Handle (FsCache Ram)) (Bytes × ℕ) → Bytes
bytes_of (done a q) = a.0
bytes_of (fail q) = λ _. 0
bytes_of stuck = λ _. 0

abbrev pattern_bytes : Bytes
pattern_bytes i = i % 256

small_file-IsReadyToWrite : IsReadyToWrite small_volume two_clusters small_file 700
small_file-IsReadyToWrite = record { placed = small_file-IsPlaced; at_start = λ _. refl }

-- All of the first cluster, and 88 bytes of the second.
after_write : Outcome (Handle (FsCache Ram)) ℕ
after_write =
    write ram_device small_volume small_volume-IsGeometry none pattern_bytes 600 small_handle

write-Stores_example :
    (◌≡◌ {A = ℕ} 600 600)
    × Stores ram_device small_volume small_volume-IsGeometry small_volume-IsLayout two_clusters none
        pattern_bytes 600 small_handle
        (state_of small_handle after_write)
unfolding write write_rounds write_cluster write_sectors write_part write_many write_one fat_get
    get_raw get12 second_byte fat_cache_prepare prepare sync mirror_fat fetch cache_safe_write
    cache_safe_write_range invalidate after_write
write-Stores_example =
    write-Stores ram_device small_volume small_volume-IsGeometry small_volume-IsLayout two_clusters
      none pattern_bytes 600 small_handle (small_file-IsFile (λ _. false) 0 0)
      small_file-IsReadyToWrite (faulty_cache-IsMounted (λ _. false)) (λ i. omega arith)
      (omega arith) refl

write-ends_example :
    write ram_device small_volume small_volume-IsGeometry none pattern_bytes 600 small_handle
    ≢ stuck
write-ends_example =
    write-ends ram_device small_volume small_volume-IsGeometry small_volume-IsLayout two_clusters
      none pattern_bytes 600 small_handle (small_file-IsFile (λ _. false) 0 0)
      small_file-IsReadyToWrite (faulty_cache-IsMounted (λ _. false)) (λ i. omega arith)
      (omega arith)

-- Back to the start, and read.
rewound : Handle (FsCache Ram)
rewound = state_of small_handle (
    seek_set (mounted_table ram_device small_volume small_volume-IsGeometry) small_volume 0
      (state_of small_handle after_write))

read_back : Outcome (Handle (FsCache Ram)) (Bytes × ℕ)
read_back = read_private ram_device small_volume (λ _. 0) 600 rewound

write_read_example :
    (◌≡◌ {A = ℕ} 600 600)
    × (◌≡◌ {A = ℕ} 600 600)
    × ((j : ℕ) → j < 600 → bytes_of read_back j ≡ pattern_bytes j)
unfolding write write_rounds write_cluster write_sectors write_part write_many write_one fat_get
    get_raw get12 second_byte fat_cache_prepare prepare sync mirror_fat fetch cache_safe_write
    cache_safe_write_range invalidate after_write read_private read_rounds enter_cluster
    next_cluster read_sectors read_part read_many read_one cache_safe_read cache_safe_read_range
    fetch_range seek_set seek_chain walk rewound read_back
write_read_example =
    write_read ram_device small_volume small_volume-IsGeometry small_volume-IsLayout two_clusters
      none pattern_bytes (λ _. 0) 600 small_handle {p = state_of small_handle after_write}
      {q = rewound} {r = state_of rewound read_back} (small_file-IsFile (λ _. false) 0 0)
      small_file-IsReadyToWrite (faulty_cache-IsMounted (λ _. false)) (λ i. omega arith)
      (omega arith) refl refl refl

-- The file on the table where its clusters are 2 and 4, cut in its first cluster.
abbrev to_cut : Handle (ℕ → ℕ)
to_cut = record plain_handle { file = record small_file { cur_cluster = 2; cur_position = 300 } }

to_cut-IsStored :
    IsStored plain_volume (plain_table.entry to_cut.vol.table) (2 ∷ 4 ∷ []) to_cut.file
to_cut-IsStored = record {
  chain = (refl, omega arith, (omega arith, tt), (refl, omega arith));
  inside = ((omega arith, omega arith), ((omega arith, omega arith), tt));
  room = omega arith;
  small = omega arith;
  in_row = λ e. cc;
}

to_cut-IsReadyToWrite : IsReadyToWrite plain_volume (2 ∷ 4 ∷ []) to_cut.file 700
to_cut-IsReadyToWrite = record {
  placed = record { inside = omega arith; cluster = λ _. refl };
  at_start = λ (z : 300 ≡ 0). omega (arith, z);
}

release_rest-Truncated_example :
    Truncated plain_table plain_volume plain_volume-IsLayout refl
      (2 ∷ 4 ∷ [])
      to_cut
      (state_of to_cut (release_rest plain_table plain_volume to_cut))
unfolding release_rest cut_chain free_chain free_rounds free_one
release_rest-Truncated_example =
    release_rest-Truncated plain_table plain_volume plain_volume-IsLayout refl (2 ∷ 4 ∷ []) to_cut
      tt to_cut-IsStored to_cut-IsReadyToWrite refl
