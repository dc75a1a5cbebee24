-- ===== src/Lib.antt =====
-- ScrivaDB, an embedded document store that keeps each collection as a list of NDJSON segment files.
-- A write encodes an entry (store/ndjson.go), appends it to the active segment (engine/segment.go),
-- and records its place in the index (engine/index.go) and its values in the secondary indexes
-- (engine/secondary_index.go); the collection (engine/collection.go) puts these together, rotates a
-- full segment, and hands the entry to the replication feed (engine/replication.go). Reads go from
-- the index to the segment; scans filter records (query/filter.go). After a crash the active segment
-- loses a torn last line, and the index is rebuilt from the segments.
--
-- Prelude, Result and Json are shared: tests, lists and maps over the native numbers, Go's
-- `(value, error)` results, and JSON values. One file stands for each source file:
--   Store        store/ndjson.go: Entry, checksum, Encode (`encode`), Decode (`decode`)
--   Segment      engine/segment.go: `recover_partial_line`, `append`, `read_at`, `scan_all`, `scan_from`
--   Index        engine/index.go: `set`, `get`, `remove`, `rebuild`, `segments_valid`
--   Query        query/filter.go: `compare_values` (Compare), `equal`, `matches` (Match)
--   Sidx         engine/secondary_index.go: `add`, `remove`, `update`, `conflict`, `lookup_range`
--   Replication  engine/replication.go: `publish`, `subscribe`, `promote`
--   Follower     engine/replication.go: `apply_entry`, what a follower does with an entry
--   Collection   engine/collection.go, ttl.go and quota.go: `insert`, `update`, `delete`, `get`
--   Batch        engine/collection.go and ttl.go: `commit_tx`; Batch.Bulk: `insert_many`, `reap_expired`
--   Keys         engine/keys.go and collection.go: `upsert`, `compare_and_swap`, `update_if_rev`
--   Tx           engine/txmanager.go: `stage_insert`, `begin`, `reap_idle`
--   Scan         engine/scan.go: `for_each_match`, `scan_unordered`; Scan.Order: `scan_ordered` (heap
--                and sort are `Sorting`); Scan.Stream: `scan_stream`; Scan.Count: engine/count.go
--   Load         engine/collection.go: `load`, with the choice between index.json and a rebuild
--   Compaction   engine/compactor.go: `resolve_entries`, `write_compacted`, `rebalance`, `is_dirty`
--   Manifest     engine/compact_manifest.go: `recover_compaction`, and the swap of the files
--   Auth         internal/auth/scope.go: `parse_scope`, `method_requires_write`
-- Recovery puts Collection, Batch, Keys and Load together: the writes and crashes as steps of a
-- relation (Recovery.Runs), and the invariant that they keep.
-- Their child modules hold the proofs, and Tests the runs on concrete inputs; the Sample modules have
-- small instances of the parameters for these.
--
-- encoding/json and hash/crc32 are the parameter `Codec`, with the laws `CodecLaws` (Marshal and
-- Unmarshal round trip for `is_json_data`: values of valid UTF-8 that are nested at most 9998 deep,
-- a map being the list of its fields in the order of their names; Unmarshal makes no others; a
-- rendering has no control characters and is not empty). fmt, strconv and regexp are the parameter
-- `Format`. Times are arguments. Numbers are unbounded: an offset, a revision or an LSN that passes
-- 2^63 or 2^64 is outside of the model; the bytes that the checksum hashes are taken modulo 2^64. A
-- float64 is given by its bits, and a record has no numbers of other types. The loop of the
-- recovery runs on fuel, one more than the file has bytes, and `recover_partial_line_lem` shows
-- that it is enough.
--
-- Not modelled: failures of the operating system and fsync, locks and what runs between two of them,
-- the JSON of the persisted indexes, the secondary indexes at a load and the building of a new one,
-- the change of the collection in memory at the end of a compaction, encryption, aggregates, the
-- state file and the loop of a follower, the server and the command line.
pub mod Prelude
pub mod Result
pub mod Json
pub mod Store
pub mod Segment
pub mod Index
pub mod Query
pub mod Sidx
pub mod Replication
pub mod Collection
pub mod Auth
pub mod Tx
pub mod Batch
pub mod Keys
pub mod Follower
pub mod Load
pub mod Compaction
pub mod Manifest
pub mod Scan
pub mod Recovery
