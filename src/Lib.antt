-- ===== src/Lib.antt =====
-- image-bed: an image host that makes a thumbnail, a WebP and an AVIF of each image in the
-- background. This library models the upload and the deletion of images, the choice of the file
-- that is served, and the background processing: the rows that say what is to be made, the task
-- that makes it, the pool that runs the tasks, and the sweeper that recovers what a crash left
-- behind.
--
-- How the parts interact: `triggerConversion` finds or makes a pending row for each variant and
-- submits a task to the pool. The task takes each row from pending to processing by a
-- compare-and-swap, enters itself in the in-flight registry, takes a slot of the semaphore, makes
-- the variants and writes each row's end. Deferred calls give everything back on each way out.
-- The sweeper finds rows that stay in processing, makes them pending or failed, and repairs the
-- images' status.
--
-- The files:
-- - Errors, Text, Int, Prelude: errors as values, %d, int64 and int, shared names and lemmas.
-- - Models, Settings: database/models/image_variant.go, image.go, and the settings of
--   config/db/image_processing_config.go that image processing reads.
-- - Gorm: the statements that the repositories send, a record of functions with laws. Each may fail;
--   then the table is unchanged. Rows with `deleted_at` stay in the table.
-- - Variants: database/repo/images/variant_repository.go; update_status_cas is UpdateStatusCAS, and
--   so on for each method. Variants/Recovery is RecoverStaleProcessing.
-- - Images: the methods of database/repo/images/images_repository.go on `variant_status`.
-- - InFlight: the registry of internal/worker/worker.go, whose mutex makes each method one step.
-- - Worker, Worker/Pool: waitForMemory, and the pool as a step relation over its goroutines.
-- - Sweeper: sweepOnce of internal/worker/sweeper.go and its statistics.
-- - Converter, Converter/Trigger: internal/image/converter.go; trigger_conversion is
--   triggerConversion.
-- - Pipeline: internal/worker/pipeline_task.go. World has the state and Go's control flow (an error
--   return, a panic, a deferred call); Decide the pure decisions; Track the bookkeeping of acquired
--   variants and finalize; Generate the three generators; Run is runPipeline; Execute is Execute.
--   Keeps, Passive and Rules say what every step leaves alone; Ownership and Resources use them.
-- - Selection: internal/image/variant_service.go and the negotiation of utils/format/negotiator.go;
--   select_best_variant is SelectBestVariant. The reading of the Accept header is not modelled.
-- - Storage: the registry of storage/storage.go; init_storage is InitStorage. The constructors of the
--   providers are a parameter. Storage/Changes: sequences of its operations.
-- - Services: internal/image/common.go; the state of the upload and delete services (the tables, the
--   files at the providers, temporary files, submitted tasks) and Go's error returns. Services/Triples
--   and Services/Total are the rules for statements on them, Services/Backed the invariant.
-- - Images/Records: the other methods of images_repository.go that uploads and deletions call.
-- - Uploads, Uploads/Upload: internal/image/write_service.go; process_and_save_image is
--   processAndSaveImage. The other children prove its theorems.
-- - Deletion: internal/image/delete_service.go and DeleteBatchTransaction; delete_batch is DeleteBatch.
-- - Auth: internal/auth, internal/user, database/repo/accounts, database/repo/keys and api/middleware; Auth/Login has
--   login, refresh_session (RefreshToken) and logout, Auth/Access authenticate_request
--   (authenticateRequest). Each statement and each call of the cryptography counts one; times are in
--   seconds. The other children prove its theorems.
-- - Limits: api/middleware/ratelimit.go; get_client_limiter is getClientLimiter. The hash of addresses
--   and what a limiter of golang.org/x/time/rate allows are parameters.
-- - Configs: database/repo/configs and config/db/manager.go; merge_maps and mask_sensitive_data are
--   mergeConfig's loop and MaskSensitiveData, Configs/Manager has the operations on configurations.
--   The encryption of internal/crypto is a parameter.
-- - Tests: a database in memory and the theorems at concrete inputs.
--
-- The state of a task is `World`: the database, the registry, the slots taken, the temporary files,
-- the objects saved, the cache keys evicted, and the fields of the task that change. The n-th call
-- outside the repository is answered by a function of n, so it may return anything each time; a
-- call of libvips or of the storage may also panic. Time is read from a clock by the number of
-- statements sent. The defaults
-- of columns that gorm puts in for a zero value are applied where rows are made: image_defaults, by
-- which an image is public, and column_defaults of a configuration.
--
-- Bounds and fuel: only waitForMemory loops without a bound in its data. It runs on fuel, and
-- seventeen rounds are enough where each sleep takes its two seconds and the limit is thirty. Sizes
-- of files in shouldKeepAVIF are int64 bit patterns with their wrap-around; in the other places sizes
-- are numbers.
--
-- Not modelled: libvips, the file system, the storage providers themselves, the cache and gorm
-- itself, which are parameters; the later beats of the heartbeat, which write the same columns as the first; timeouts
-- of contexts, which show as failing calls; the ticker of the sweeper; HTTP, the rest of the
-- configuration, and the commands.
pub mod Prelude
pub mod Text
pub mod Int
pub mod Errors
pub mod Models
pub mod Settings
pub mod Gorm
pub mod Variants
pub mod Images
pub mod InFlight
pub mod Worker
pub mod Sweeper
pub mod Converter
pub mod Pipeline
pub mod Selection
pub mod Storage
pub mod Services
pub mod Uploads
pub mod Deletion
pub mod Auth
pub mod Limits
pub mod Configs
pub mod Tests
