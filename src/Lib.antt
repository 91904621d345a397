-- ===== src/Lib.antt =====
-- Verification of tracegrams, an in-process recorder that attributes request tail latency to stages. A
-- recorder owns one flat array of atomic counters; a request carries a context through the stages, and
-- each mark increments the counters of its stage; a freeze turns calibration counts into thresholds;
-- snapshots copy the counters, and the diagnosis scores them.
--
-- Parts, files and the code they model (paths from the repository's root):
-- - Bounds, Bucket: the bound tables and bucket searches of src/bucket.rs (`bucketize`,
--   `default_bucketize`, `calibration_bucketize`). Bucket/Search and Bucket/Nested hold the proofs,
--   Bucket/Spec the bucket of a value as a function.
-- - Rank, Estimate: `nearest_rank`, `quantile_rank`, `estimate_quantile` and `finite_representative` of
--   src/bucket.rs. Float has `f64` as bit patterns: comparisons are defined after IEEE 754, and the two
--   rounding operations (conversion from `u128`, division) are the interface `Float`.
-- - Layout: the offsets and index methods of `StorageLayout` in src/recorder.rs; Layout/Cover relates
--   indices and places.
-- - Recorder: `Inner` of src/recorder.rs, an atomic counter being its value. Recorder/Bumps describes
--   increments by the places they change.
-- - Context: `Ctx` with its packed metadata word, `ManualCtx` and `ClockReading` of src/context.rs.
-- - Updates, Marks: the recording of marks in src/context.rs. `record_valid_mark` is composed of the
--   blocks in Updates, in the order of the code; Marks/Places says which counters a valid mark counts.
-- - Calibration, Freeze: reports and the freeze of src/calibration.rs (`try_freeze_calibration`,
--   `freeze_after_claim`). What other threads do before the claim is an argument. Freeze/Derive treats
--   the derivation from whatever counts a scan read.
-- - Threads: any number of marks (`record_valid_mark` of src/context.rs) and freezes
--   (`try_freeze_calibration`, `freeze_after_claim` of src/calibration.rs) on one recorder, as a step
--   relation over single accesses to shared memory: `Move` is one access of a thread, `Step` picks a
--   thread, `Reach` is an interleaving. Threads/Sound has the invariant, Threads/Moves and Threads/Safety
--   its preservation, Threads/Halfway the publication loop, Threads/Access the next access
--   as a run that may panic, Threads/Progress and Threads/Bounded the next access and the number of
--   accesses, Threads/Counts and Threads/Tallies the account of a counter,
--   Threads/Frozen what is final, Threads/Alone the comparison with the code run in one go.
-- - Registry, Builder: identifiers, registration, cookies and the memory estimate of src/init.rs.
--   Builder/Calls composes the builder's calls with `build`.
-- - Snapshot: src/snapshot.rs; Snapshot/Reads relates the accessors to the places that marks count, and
--   Snapshot/Marked composes snapshots and `delta` with the marks of a request (Marks/Request).
-- - Scores, Diagnose: src/diagnose.rs. Scores/Axes and Scores/Regions describe marginals and scores by the
--   cells of a matrix, Diagnose/Decoded the online totals by the cells that recording chooses;
--   Diagnose/Frozen composes recorder, snapshot and diagnosis.
-- - Text: `Display` of the errors of src/init.rs, src/calibration.rs, src/snapshot.rs and
--   src/diagnose.rs and, in Text/Report, of `DiagnosisReport`. What the standard library prints for a
--   number, a float or a quoted string is the interface `Formats`.
-- - Prelude: shared names, numbers, lists, bits, and runs that may panic. Tests: concrete inputs.
--
-- State is passed explicitly. A `Run` returns or panics (a slice index out of range, a failed `assert!`
-- or `expect`, `unreachable!`); an error is a `Result`. Debug assertions are not modelled. Integers are
-- natural numbers with the wrap-around of their width written out; `usize` has 64 bits. Where code adds
-- `u64`s in a `u128` whose range they cannot leave, the sum is a plain sum. All loops are structural
-- recursion over lists, so that no fuel is needed; the cookie's exchange loop recurses on the list of the
-- values that its failing exchanges observe.
--
-- In the step relation a scan of the calibration counters is one step that may read any counts of the
-- right length whose totals fit `u64`: its loads are spread over time while other threads count, and any
-- values that they can return are among these. Of a thread that runs alone (`Alone`), a scan reads the
-- counts that the recorder has. A thread's own bound on its accesses (`left`) is the
-- number of its increments plus five for a mark, and five more than the stages for a freeze.
--
-- Not modelled: memory orderings (accesses are sequentially consistent, and a snapshot is taken of a
-- recorder that no thread changes meanwhile), the operating system's clock (what it says of the epoch is
-- the argument of `read_clock`), `Debug` of the handles and of plain data, which the standard library's
-- builders print, getters that return a field, and the sizes of types that the compiler chooses (the
-- parameter `Sizes`).
pub mod Prelude
pub mod Bounds
pub mod Bucket
pub mod Float
pub mod Rank
pub mod Layout
pub mod Estimate
pub mod Registry
pub mod Calibration
pub mod Recorder
pub mod Context
pub mod Updates
pub mod Marks
pub mod Freeze
pub mod Threads
pub mod Snapshot
pub mod Scores
pub mod Diagnose
pub mod Builder
pub mod Text
pub mod Tests
