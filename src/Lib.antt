-- ===== src/Lib.antt =====
-- synapse-media-worker serves, fetches and stores Matrix media beside a Synapse homeserver. It shares
-- Synapse's media store on disk and Synapse's database. This library models its core.
--
-- The parts and the files that model them:
--
-- Paths (paths.go): where media and thumbnails are on disk, which paths may be written, and where
-- temporary files are. Filepath and Decimal are the parts of Go's path/filepath and strconv that it
-- uses. Children: Component (the check of one component), Location (exact paths), Contained (the jail
-- check), Guard (WritablePath and CreateTemp).
-- Database (db.go): the rows of the two media tables and the queries on them, as functions on lists of
-- rows. Children: Usage and Writes.
-- Store (store.go): fetchAndStore. Its World is the files and the tables, which Upload shares. Children:
-- Files (what each operation on files keeps), Promise (when a row has its file), Order (files before
-- rows).
-- Upload (upload.go): handleUpload, handleCreateMedia and handleAsyncUpload from the point on where
-- the user is authenticated and the headers are read; upload_metadata is the reading of the headers.
-- Children: Staged (what is on disk before installation), Sync, Async, and Request (authentication and
-- the whole of handleUpload).
-- Limits (evaluateUploadLimits and exceededLimit of upload.go, the order of parseMediaUploadLimits of
-- config.go): upload quotas. Children: Order and Quota.
-- Tokens (authclient.go): credentials, cache keys, the verdict cache and AuthenticateAs. Children: Key,
-- Cache and Origin.
-- Download (handlers.go): local, remote and federation downloads and the gates before them. Child: Gate.
-- Serve (serve.go): the headers of a media response. Children: Escape and Disposition.
-- Multipart (multipart.go): the body of a federation download. Child: Laws.
-- Thumbnail (thumbnail.go): requests, the lookup of a stored thumbnail, sizes, and Generate over the
-- image libraries as a record of functions. Children: Size and Choice.
-- ThumbCache (thumbcache.go): the worker's own store of thumbnails. Children: Sweep (what a sweep leaves
-- behind), Order (how the entries are sorted), Key and Entries.
-- WriteThrough (db.go, store.go): the table of remote thumbnails and WriteThroughRemoteThumbnail.
-- Children: Rows (the table after a thumbnail is stored) and Recorded (what a write-through leaves).
-- ThumbnailServer (handlers.go): the thumbnail handlers. Its Shelf is the files and the table of
-- WriteThrough. Children: Remote and Handlers (definitions), Gate (which media is shown), Next (the
-- request after a write-through) and Again (the request after one that cached).
-- Synapse (synapseconfig.go): Synapse's homeserver.yaml with its sizes and durations. Child: Laws.
-- Config (config.go, mediaconfig.go): the worker's configuration. Children: Settings (getters and
-- defaults), Validate and Load (the definitions), Valid, Derive and Quotas (what they guarantee).
-- Resolver (resolver.go): which server a name is delegated to and where a request to it goes.
-- Children: CachePeriod, WellKnown and Target (the definitions), Attempts, Period, Cache and Srv (what
-- the servers of a resolution rest on).
-- Proxy (proxy.go): the choice of an upstream and the dispatch to it. Children: Pick and Dispatch.
-- Webp (webpanim.go): the first frame of an animated WebP. Children: Chunks and Still.
-- Exif (exif.go): the orientation of a JPEG. Children: Range and Photo.
-- Base: lists, bytes, 64-bit words and fallible computations.
--
-- How code corresponds to definitions: a function, method or type of the source has its name in snake
-- case (a method of MediaPaths, DB or Server takes the receiver as an argument). A Go string is the list
-- of its bytes. Go's int and int64 are 64-bit patterns where the code computes with them (Thumbnail,
-- Multipart, Limits, ThumbCache, the size limit of Upload, the timeouts of Download); elsewhere, as for
-- times and lengths, they are natural numbers. TrimSpace and
-- ToLower are those of ASCII text. Where the code calls the operating system or the database, whether the
-- call succeeds is an input (Outcomes, UploadOutcomes, WriteOutcomes), and so every error branch is
-- there; SHA-256 and the whoami endpoint are parameters. Other processes are a function on the World that stands at the
-- point where they matter most. What a library answers that the code calls (DNS, HTTP, JSON, YAML,
-- sorting, image codecs) is a parameter, and the result of a floating-point product is one too.
--
-- Fuel: the walks over WebP chunks and JPEG segments have as much fuel as there are bytes, and each
-- round takes eight or two bytes at least; the request for a .well-known has three rounds, and a
-- dispatch as many as there are endpoints. Every other loop is structural recursion.
--
-- Not modelled: logging, metrics, listeners, start-up and the parity tool, which are input and output;
-- the single flights, which only collapse equal requests of one process; the semaphores, which are a
-- Boolean outcome; and, so far, last-access times, the reading of a federation response, the paths of
-- passthrough.go and the IDs of fsid.go.
pub mod Base
pub mod Config
pub mod Database
pub mod Decimal
pub mod Download
pub mod Exif
pub mod Filepath
pub mod Limits
pub mod Multipart
pub mod Paths
pub mod Proxy
pub mod Resolver
pub mod Serve
pub mod Store
pub mod Synapse
pub mod ThumbCache
pub mod Thumbnail
pub mod ThumbnailServer
pub mod Tokens
pub mod Upload
pub mod Webp
pub mod WriteThrough
