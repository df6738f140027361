-- ===== src/Lib.antt =====
-- A model of the loon agent, a Go program that downloads what a site requests, checks and stages
-- it, and posts it to Usenet. The agent's parts work on three stores: a temporary directory, an
-- in-memory map of the jobs in flight, and a SQLite database. A task reserves disk space, enters
-- itself in the job map, downloads into `dl-<name>`, is swept of blocked extensions, staged into
-- `stage-<name>` under an audit, compared with the download by its videos, and encoded. A sweep
-- removes what no job of the map protects. A watcher turns the entries of watch folders into a queue
-- of offline jobs, which are run one by one. The collection is a list of local files that the
-- operator describes and queues for upload.
--
-- Which file models which part (paths from the repository's root):
--   Prelude/*      numbers, tests, 64-bit words, lists and byte strings of Go
--   Dict           Go maps with string keys, as association lists
--   FilePath       path/filepath: Ext, Base, Dir, Clean; Shorter has the measure of Dir
--   FileTree/*     a directory tree and filepath.Walk with SkipDir, SkipAll and errors
--   Upload/Content, Upload/Stage      services/upload_obfuscate.go: isUploadableContent,
--                  countStagedFiles, auditStaged, CopyFiles, ObfuscateFiles
--   Upload/Manifest   services/upload_manifest.go: ManifestOf, DiffManifests, CompareManifest
--   Upload/Blocklist  services/disk_blocklist.go: EffectiveBlocklist, OnlineBlocklist,
--                  RemoveBlockedFiles, ExpectedAfterBlocklist, DirHasUsableFiles
--   Upload/Resume  services/resume_validation.go: ValidatePartialDownload
--   Bits           words of a fixed width as bits, and tables of them
--   Upload/Yenc, Upload/Crc, Upload/Article   services/upload_usenet.go: yEncodeChunk: its encoding
--                  loop, crc32CombineIEEE and its matrices, the lines around the data and the CRC
--                  state that the parts of a file share
--   Upload/Usenet  services/upload_usenet.go: the dispatcher of UploadToUsenet, nntpWorker with its
--                  retries, and the channels between them (Pool)
--   Upload/Par2    services/upload_par2.go: fitBlockSize
--   Upload/Newsgroups services/upload_nzb.go: splitNNTPGroups, isValidNewsgroupName
--   Offers/Route   services/offer_fulfill_remote.go: chooseFulfillRoute
--   Offers/Stage   services/offer_stage.go: stageLocalContent
--   Disk/Reserve, Disk/Free, Disk/Sweep   services/disk_reserve_sweep.go: ReserveDisk, ReleaseDisk,
--                  diskUsage, FreeDiskAfterReservations, sweepWithMinAge and its callers
--   Storage/State  storage/storage.go: UpdateState, UpdateJobMeta, SetJobTitle, SetJobStagePath,
--                  RemoveJob
--   Storage/Offline   storage/jobs.go with storage/migrations/003_offline_jobs.sql
--   Storage/Groups    storage/groups.go, services/network_groups_sync.go: validateGroup, CreateGroup,
--                  UpdateGroup, DeleteGroup, UpsertSiteGroup, ReconcileSiteGroups and the pushes of
--                  a full sync
--   Storage/Watches   storage/watches.go with storage/migrations/002_watch_folders.sql
--   Config         config/layered.go: Effective, ApplyWeb, loadYml, WriteYml
--   Inventory      services/inventory_scan.go: ScanInventory, sanitiseScanTag, BatchInventory
--   Collection     services/collection_scanner.go: the walk (Walk), TitleMatchBulk in batches
--                  (Enrich), Scan and the JSON file (Scanner), the calls of the page (Edits)
--   Publish        services/publish_pipeline.go: PublishDirectory from the staging to the NZB
--   Publish/Sheltered   its calls of SetJobStagePath, with the job state and the sweep
--   Offline/Watcher   services/network_offline_watcher.go: scanAllWatches, scanOneWatch
--   Offline/Run    services/network_offline_processor.go: runOneOfflineJob, processOfflineJob
--   Offline/Names  SanitizeBaseName of services/upload_obfuscate.go, sanitizeDirName of the processor
--   Extract        services/extract_zip.go, services/extract_tar.go: the entries of an archive
--
-- Conventions. A Go string is the list of its bytes; ToLower and TrimSpace act on ASCII. An int64
-- or uint64 is its bit pattern, a number below 2 ^ 64, and sums wrap; plain counters (int) are
-- unbounded, and sizes of files are not negative. A Go map is read by its lookups alone, so the
-- order of its keys plays no part. A directory's entries come in the order in which Walk visits
-- them, and os.Stat of the root of a walk sees what Lstat sees. Log lines are left out. Errors are
-- values of small types; a write through a nil pointer is `none`.
--
-- Parameters stand for code outside the repository: `scaled` for the float product with
-- DiskMultiplier, FileSystem for the calls of os and io in linkOrCopy and copyFile, `places` for
-- whether the link or copy of an offered file works, `random` for the random names, `is_cancelled`
-- and `is_done` for the context; FreeDiskSpace is an argument. What file.Read, a
-- connection to the news server and a reader of an archive return are arguments too, as are the
-- effects on the file system that fail, the answers of the site to a batch of titles, what the
-- extractors, PAR2, the encryption and the upload of the pipeline do, and what encoding/json makes of
-- a snapshot that it wrote. The statements of the database are
-- read as SQL defines them: each is atomic, and where ORDER BY leaves a tie the older row is taken.
--
-- Workers. The goroutines of an upload are sequences of steps: of the parts of files, which register
-- their CRC and are written (Upload/Article/History), and of a pool of workers, which take jobs,
-- finish them and leave (Upload/Usenet/Pool). Histories are lists with the last step first.
--
-- Calls that a mutex guards are single steps: Running of the collection interleaves those of several
-- scans. The deferred calls of Go are events at the end of a run, the last one first.
--
-- Fuel: the climb of DownloadedPath in the sweep has one round for each byte of the path and one
-- more; Disk/Sweep/Climb shows that it ends. crc32CombineIEEE has as many rounds as the
-- length, of which it uses a logarithm, and BatchInventory and the batches of the collection as many
-- as there are entries; the theorems show that it is enough. All else is structural.
--
-- Not modelled: HTTP, the local UI, the torrent library, external tools for media and archives,
-- JSON and XML, the state file, the browser extension, the metadata pass of the pipeline, the loops
-- with their timers, and texts and times that are only shown.
mod Prelude
pub mod Dict
pub mod FilePath
pub mod FileTree
pub mod Bits
pub mod Upload
pub mod Storage
pub mod Disk
pub mod Offers
pub mod Config
pub mod Inventory
pub mod Collection
pub mod Extract
pub mod Publish
pub mod Offline
