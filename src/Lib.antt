-- ===== src/Lib.antt =====
-- proton-drive-linux-fs: a FUSE file system over Proton Drive. This library models the parts that
-- decide whether a save is lost, whether a read returns the right bytes, and whether the caches keep
-- their bounds.
--
-- The program. internal/drive talks to Proton Drive: drive.go lists and decrypts nodes, file.go
-- reads files block by block, write.go uploads them, http.go retries raw requests, backoff.go keeps
-- the shared rate-limit window, cache.go the blocks and listings on disk, and activity.go the
-- transfers in flight. internal/fusefs/fusefs.go answers the kernel: a directory (dirNode) caches its
-- listing, a written file (fileNode with its fileHandle) is buffered in a temp file and uploaded when
-- it is closed, and mountState holds what they share; previews.go fetches previews, which
-- internal/thumbs writes into the desktop's cache. internal/state keeps the files by which the
-- processes know of each other. The other directories are the command line, the tray, the local API
-- and the authentication.
--
-- Base: Boolean tests, lists over the native numbers, and association lists with a key instance.
--
-- Drive/Errors: the tests of API errors in drive/backoff.go and drive/file.go.
-- Drive/Read: the loop of File.ReadAt, over any function that gets a block. Its recursion is on
-- fuel, one more than the bytes asked for; each round copies at least one byte.
-- Drive/File: File of drive/file.go: cachedBlock, cachePut, fetchAndCacheBlock, refreshBlock,
-- ensureTransfer, Close. The network, the cipher and the disk are the record Remote, an argument.
-- Opened has OpenFile. Flight has any number of callers of getBlock at once, with claimBlock and
-- releaseBlock: their steps interleave in any order, and a fetch is one step of its winner.
-- Drive/Activity: begin, end and Add of drive/activity.go.
-- Drive/BlockCache: Put, PutListing, Get, evict and the walk of OpenBlockCache in drive/cache.go,
-- over the files under the cache's directory; what the file system answers is an argument of each.
-- Layout has migrateLayout, which may end at any of its renames. Sizes are natural numbers, and the subtraction stops at 0.
-- Drive/Http: getRawRetrying, getRawSlotted and putJSON of drive/http.go, noteRateLimitStatus and
-- RateLimited of drive/backoff.go. The server and the context are a list of rounds.
-- Drive/Upload: Upload, uploadBlocks and cleanupFailedUpload of drive/write.go. The loop runs on
-- fuel, one more than the bytes of the reader, of which each round but the last takes at least one.
-- Drive/Nodes: Node of drive/drive.go with Keyring and ResolveAttrs, over the nodes by their addresses;
-- Names has Children with decryptNames, whose goroutines finish in any order, CachedChildren and
-- CacheListing, over the block cache in Stored; Share has Open. Keyrings, links and JSON are those of the libraries, arguments of each.
-- Drive/Write: CreateDir, Move, startRevision and createFile of drive/write.go, and all of
-- drive/crypto.go, as chains of calls that may fail. putJSON, which sends a move, is an argument here.
-- Drive/Events: Events of drive/events.go: ticks, pages and errors, for any answers to its calls.
--
-- Fusefs/Buffer, Fusefs/Release, Fusefs/Steps: fileHandle and fileNode of fusefs.go, from the first
-- write to the upload: park, unpark, keepForRetry, abandon, discard, Release, settle, and what
-- Rename, Unlink, Open and unmount do to a handle. One file with its one write handle; Release is cut
-- into three functions where other calls can come in between, and Steps lets them come in any order.
-- The wait for the uploads of replaced files and the local store's own files are left out, as is what
-- a rename does to the file under the new name. What Write and Truncate do to a temp file is part of
-- Steps as the content after it, at any time; an upload is taken to send the file as it is when it
-- ends.
-- Fusefs/Open, Fusefs/Handle: Open with openErrno and readerOf, Getattr, Setattr, Read and Write. The
-- calls on temp files are a record of what they answer.
-- Fusefs/Download: downloadInto, over ReadAt. Its fuel is one more than the bytes of the file; every
-- round but the last copies at least one.
-- Fusefs/Unmount: flushDelayed, settleDelayed and abandonKept over all write handles. How far an
-- upload comes before a deadline is an argument. Mounted has isMounted, asked at the end.
-- Fusefs/Names: Mkdir, Unlink, Rmdir and Rename, between the drive and the local store.
-- Fusefs/Shown: Readdir and Lookup, of the drive, the files not uploaded yet and the local store.
-- Fusefs/Previews: queueThumbs, the two workers, finishThumb and the retries of previews.go, with the
-- marks of thumbInflight.
-- Fusefs/Rules: excluded names, upload delays, the trash, the deadlines by kind and size, and denied
-- readers. Patterns and durations are parsed by an argument.
-- Fusefs/Listing: dirNode's listing: load, beginLoad, serveFromDiskCache, finishLoad, publish,
-- loadResult, upsertChild, removeChild, schedulePersist, flushListing and discardListing, for one
-- directory.
-- Fusefs/Remote: handle of mountState and what it calls, over the registered directories and the known
-- parents.
-- Fusefs/Transfers: recordFinished, recentTransfers and uploadCounters of mountState.
--
-- State: state.go: the directories, the status snapshot, the pause marker, the lock and the search for
-- a running daemon, over the files by their path. What the operating system answers is an argument.
-- Thumbs/Png: insertPNGText, textChunk, findIEND and readPNGText of thumbs.go. The loops run on the
-- length of the file as fuel, of which each round takes eight bytes.
-- Thumbs/Registry: loadDir, loadFile, ForExt and ProcessNames of registry.go.
-- Cmd/Mounts, Cmd/Unmount: mountedAt, escapeMountField, and the unmount command with its search for the
-- processes that hold the mount, of cmd/proton-drive-fs/main.go; Cmd/Options: its values of options, the
-- method of verification, and stopPreviousDaemon, whose polls are 100 ms apart.
-- Tray: what internal/tray/tray.go shows for a status.
--
-- Witness: concrete inputs for the theorems.
--
-- Not modelled: internal/auth, which logs in with the Proton API; gopenpgp and the API client, which are
-- arguments; the setters of the drive client; the scaling and the cache files of previews; the rest of
-- the command line and the configuration; the items of the tray, the local API and logging. Times are
-- numbers of milliseconds unless a file says otherwise.
pub mod Base
pub mod Cmd
pub mod Drive
pub mod Fusefs
pub mod State
pub mod Thumbs
pub mod Tray
pub mod Witness
