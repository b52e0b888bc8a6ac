-- ===== src/Lib.antt =====
-- Verification of SdFat: the sector cache, the FAT, the allocation of clusters, the mounting of a FAT
-- volume and its open files, with the packed dates and the Unicode conversions that directory
-- entries use, the allocation bitmap of an exFAT volume, and the ring buffer for loggers.
--
-- A volume reads and writes its sectors through one cache (src/common/FsCache.h, FsCache.cpp) on a
-- block device (src/common/FsBlockDeviceInterface.h). `fatGet` and `fatPut` of
-- src/FatLib/FatPartition.cpp keep the file allocation table behind that cache, and
-- `allocateCluster`, `allocContiguous` and `freeChain` build and release the cluster chains of files
-- above them. `init` reads the layout of the volume from its boot sector. An open file
-- (src/FatLib/FatFile.h, FatFile.cpp) finds the sectors of its bytes through its chain, and reads
-- and writes them through the cache.
--
-- Base: shared names, tests on numbers, machine words, calls that fail (Outcome), bits, lists.
-- Endian: `getLe16` to `setLe64` of src/common/FsStructs.h, the branch for every byte order.
--   A buffer is the function from positions to bytes.
-- Device: the block device as an interface, the record BlockDevice: its calls, and laws for the
--   calls that report success. Device.Ram is a device in memory that meets the laws.
-- Cache: FsCache. `prepare`, `sync`, `cacheSafeRead` and the rest are `prepare`, `sync`,
--   `cache_safe_read`, ..., methods on the record of the members. Cache.View is the specification.
-- Fat: `fatGet` and `fatPut` are `fat_get` and `fat_put`; Fat.Layout is the table as the format
--   defines it. Fat.Mount is `init`, the method `mount`, with the fields of the boot sector in
--   Fat.Boot.
-- Alloc: `allocateCluster` and `freeChain` are `allocate_cluster` and `free_chain`, above the
--   interface FatTable, which Alloc.Mounted fills with `fat_get` and `fat_put`. Alloc.Run is
--   `allocContiguous`.
-- File: the members of a FatFile, `seekSet` and `addCluster`. File.Read is `readPrivate` for `read`,
--   File.Write `write` (its modules follow a write from the sectors of a round to the bytes of the
--   file), File.Entry `sync`, `close` and `attrib`, File.Open
--   `openCachedEntry`, `openRoot` and `openCluster`, File.Chains `truncate`,
--   `preAllocate`, `contiguousRange`, `dirSize` and `addDirCluster`. File.Place says where the bytes
--   of a file are.
-- DateTime: FS_DATE, FS_TIME and the fields of src/common/FsDateTime.h.
-- Utf: src/common/FsUtf.h and FsUtf.cpp.
-- ExFat: the members of an ExFatPartition with `fatGet`, `fatPut`, `chainSize` and `dirSeek` of
--   src/ExFatLib/ExFatPartition.cpp, above the same cache; ExFat.Bitmap is `bitmapFind` and
--   `bitmapModify`, ExFat.Mount `init`, the method `mount_exfat`, and ExFat.Chains `freeChain` and
--   `freeClusterCount`. A result 0 or -1 for an error is `fail` there.
-- RingBuf: `begin`, and `read` and `write` of blocks of bytes, of src/RingBuf.h.
--
-- A method takes the object and returns `done` with a value and the object, `fail` with the object
-- that a failing call leaves, or `stuck` when a loop runs out of the rounds of its model. The search
-- of `allocateCluster` has two rounds for each cluster and four more; `freeChain`, `allocContiguous`
-- and `contiguousRange` have one for each cluster and two more. `read` and `write` have one round for
-- each byte, since every round moves at least one; the shift of a cluster size has ten, one more than
-- the values of a byte that is doubled until it is 0; `dirSize` has one for each sector that it may
-- count. `bitmapFind` has two rounds for each cluster and one more, `bitmapModify` one for each
-- 4096 clusters and two more, `chainSize` and the `freeChain` of exFAT one for each cluster and
-- three more, the `freeClusterCount` of exFAT one for each 4096 clusters and one more; a cycle in the
-- table keeps the loop of `chainSize` running. The caller's memory is not the buffer of the cache.
--
-- The configuration is one cache (USE_SEPARATE_FAT_CACHE = 0), FAT12_SUPPORT = 1,
-- USE_EXFAT_BITMAP_CACHE = 0, MAINTAIN_FREE_CLUSTER_COUNT = 1, USE_MULTI_SECTOR_IO = 1, USE_FAT_FILE_FLAG_CONTIGUOUS = 1, and
-- the portable branch of the byte-order functions. Sector and
-- cluster numbers are 32 bits wide and wrap; a free count below zero is `none`, and the count is
-- not bounded above. The numbers that `read` of a file returns are below 2 ^ 31 in the code, which
-- returns an int; the model does not narrow them.
--
-- Not modelled: paths, names and the reading of directories (the rest of src/FatLib/FatFile.cpp, and
-- FatFileLFN.cpp, FatFileSFN.cpp, FatName.cpp), `timestamp`, the `freeClusterCount` of FAT, the
-- formatting of volumes, the files of exFAT, the card drivers, the streams and the printing of text. These wait for their turn,
-- except for the drivers, which are input and output with hardware, and for the user's callback for
-- dates, whose values are an argument.
pub mod Base
pub mod Endian
pub mod Device
pub mod Cache
pub mod Fat
pub mod Alloc
pub mod File
pub mod DateTime
pub mod Utf
pub mod RingBuf
pub mod ExFat
