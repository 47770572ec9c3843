-- ===== src/Lib.antt =====
-- Ovayra, Phase 0: the evidence contracts, the Gemini upload client, the media, platform and release
-- libraries, and the command that joins them.
--
-- The spikes of Phase 0 run on six devices and leave typed proof records. A gate judges the records
-- against a fixed matrix of required rows. The Gemini spike uploads a video in chunks, with retries
-- and an offset query after an ambiguous failure, and polls until the file is ready. The media spike
-- reads the progress output of FFmpeg and runs a stage on hardware, then at most once on the CPU.
-- The release checks hold packages and an FFmpeg bundle to a signed manifest and to a source lock.
-- The command resumes an upload from its encrypted checkpoint, writes the proof, lints a directory
-- of evidence, and runs the gate over what the lint returns.
--
-- Contracts (crates/spike-contracts/src)
--   Contracts/Ids.antt: `SpikeId`, `Verdict`, `TargetId` (evidence.rs), `spike_id_name` (matrix.rs)
--   Contracts/Proof.antt: the proof records (proof.rs), one record or data type for each type
--   Contracts/Validate.antt: building a record, `PhaseZeroProof::validate` (proof.rs)
--   Contracts/Row.antt: `RequiredEvidence`, the keys, `CANONICAL_REQUIRED` and
--     `PhaseZeroMatrix::validate` (matrix.rs). Row/Canonical.antt: when a key determines its row.
--     Row/Accepts.antt: the one matrix that validates
--   Contracts/Typed.antt: `validate_typed_proof` and its helpers (matrix.rs), an arm to a function
--   Contracts/Gate.antt: `evaluate_proofs` (matrix.rs), its two loops `admit` and `require_rows`, and
--     the relationship checks. Gate/Spec.antt: what the gate promises, without keys and loops.
--     Gate/Admit.antt, Gate/Keys.antt, Gate/Loops.antt: each loop against its part of that.
--     Gate/Decides.antt: the gate against all of it. Gate/Relations.antt: the accepted Gemini rows
--   Contracts/Evidence.antt: `Evidence`, its operations and documents, and the forbidden markers
--     (evidence.rs). Evidence/Redacted.antt: what validation finds. Evidence/Operations.antt: records
--     that the operations build
--   Contracts/Reports.antt: `evaluate` over evidence reports (matrix.rs). Reports/Checks.antt: the
--     thresholds of its measurements. Reports/Matching.antt and Reports/Passes.antt: accepted reports
--
-- Gemini (crates/spike-gemini/src)
--   Gemini/World.antt: the types (lib.rs, session.rs, dto.rs, client.rs), and the network, the clock,
--     the URL and JSON libraries as the fields of `World`. A method is a function of the history of
--     requests and waits, and returns a result and the longer history
--   Gemini/Retry.antt: `retry`, `retry_delay`, `transient`. Retry/Bounds.antt: its runs
--   Gemini/Upload.antt: `start_upload`, `upload_chunk`, `finalize_chunk`, `query_offset`.
--     Upload/Offsets.antt: a chunk reported as uploaded, against a server that keeps the protocol
--   Gemini/Generate.antt: `generate_content`
--   Gemini/Checkpoint.antt: `checkpoint`, `resume_checkpoint`, over the envelope of Platform.
--     Checkpoint/RoundTrip.antt: writing and resuming
--   Gemini/Poll.antt: `get_file`, `delete_file`, `poll_until_ready_with_policy`.
--     Poll/Returns.antt: polling ends. Poll/Deletes.antt: the request that deletes a file
--
-- Media (crates/spike-media/src)
--   Media/Progress.antt: `ProgressParser` (progress.rs). Progress/Chunks.antt: cutting the input.
--     Progress/Limits.antt: the memory that it holds
--   Media/Backend.antt: backends, downgrade codes and the quarantine word (capability.rs)
--   Media/Bounded.antt: cutting a text at a character boundary (capability.rs).
--     Bounded/Boundary.antt: where it is cut
--   Media/Preview.antt: frames, the one-slot transport and `read_frame` (preview.rs).
--     Preview/Slot.antt: the frames counted. Preview/Reads.antt: reading ends with whole frames
--   Media/Inventory.antt: the outputs of FFmpeg's six listing commands and `from_command_outputs`
--     (capability.rs). Inventory/Collected.antt: complete outputs
--   Media/Plan.antt: the hardware plans and `is_available` (capability.rs). Plan/Backed.antt: what an
--     available backend has in the outputs
--   Media/Child.antt: `drain_pipe` and `collect_child` (cpu_fallback.rs). Child/Whole.antt: what is
--     collected is all of it
--   Media/Probe.antt: `FfprobeReport` and its readers (cpu_fallback.rs). Probe/Accepts.antt: accepted
--     outputs
--   Media/Arguments.antt: the two command lines of FFmpeg (cpu_fallback.rs)
--   Media/Fallback.antt: `CpuFallback`, `ProgressSummary` and `drain_progress` (cpu_fallback.rs), over
--     the progress parser. Fallback/Drained.antt: the input drained. Fallback/Counted.antt: the speeds
--     counted. Fallback/Averaged.antt: generations that succeed
--   Media/Policy.antt: `ExecutionPolicy` (capability.rs). Policy/Attempts.antt: its attempts.
--     Policy/Quarantine.antt: hardware that failed
--
-- Platform (crates/spike-platform/src)
--   Platform/SecretStore.antt: the trait `SecretStore`, `OsSecretStore` over a keyring parameter and
--     `MemorySecretStore` (keyring_store.rs). SecretStore/Memory.antt: the laws of the trait
--   Platform/Envelope.antt: `EnvelopeCipher` (envelope.rs) over an AEAD parameter.
--     Envelope/RoundTrip.antt: sealing and opening. Envelope/MasterKey.antt: the stored key
--
-- Release (crates/spike-release/src)
--   Release/World.antt: the types (manifest.rs, package.rs) and the libraries as a record
--   Release/Manifest.antt: `validate_structure`, `parse_for_installed`, `from_release_parts` and the
--     signature checks (manifest.rs). Manifest/Structure.antt: accepted manifests
--   Release/Package.antt: bounded reads and `verify_manifest_and_packages` (package.rs).
--     Package/Verified.antt: verified packages
--   Release/Generate.antt: generating a manifest and the downloads (package.rs).
--     Generate/Named.antt: what the entries are built from. Generate/Tampered.antt: a file replaced
--   Release/Buildconf.antt: the configuration record, its tokens and flags (ffmpeg_policy.rs).
--     Buildconf/Quoted.antt: quoted tokens. Buildconf/Flags.antt: accepted configurations
--   Release/Lock.antt: the source lock (ffmpeg_policy.rs)
--   Release/Bundle.antt: the required files and `validate_checksums` (ffmpeg_policy.rs).
--     Bundle/Checksums.antt: accepted sums
--   Release/Layout.antt: `validate_layout_with_lock`, the bill of materials, and `validate_executables`
--     (ffmpeg_policy.rs). Layout/Targets.antt: the three targets. Layout/Locked.antt: accepted bundles
--
-- App (apps/ovayra-spike/src)
--   App/Persist.antt: how writing a file can end (gate.rs, gemini_orchestration.rs)
--   App/Outcome.antt: the outcome of a resumed run, its evidence and the cleanup
--     (gemini_orchestration.rs). Outcome/Ends.antt: how the two ends leave the disk
--   App/Resume.antt: `resume_analyze_with_evidence`, `continue_and_finalize`, `analyze`
--     (gemini_orchestration.rs), over the client of Gemini. Resume/Chunks.antt: the loop over the
--     chunks. Resume/Cleanup.antt: what a run leaves behind
--   App/Scan.antt: `scan_text` and its helpers (evidence_lint.rs). Scan/Runs.antt: searches in a longer
--     text. Scan/Armor.antt: headers of private keys. Scan/Urls.antt: accepted texts
--   App/Lint.antt: the JSON visitor, the walk over the files, `lint_verified` (evidence_lint.rs).
--     Lint/Bounds.antt: what it returns
--   App/Gate.antt: `run`, its reports (gate.rs), over the lint and the gate of Contracts.
--     Gate/Parsed.antt: the proofs of the files. Gate/Accepts.antt: the two ends of a run
--
-- Prelude.antt passes on the library's names and the shared helpers: Prelude/Lists.antt,
-- Prelude/Texts.antt (a text is the list of its bytes), Prelude/Unicode.antt, Prelude/Split.antt,
-- Prelude/Numbers.antt, Prelude/Outcome.antt (`Result` and its bind) and Prelude/Tests.antt. The
-- theorems at concrete inputs are in the Examples.antt of each of the six, in
-- Media/FallbackExamples.antt and in Release/BundleExamples.antt.
--
-- Numbers and bounds. A machine integer is a natural number; the sums and products that can leave
-- 64 bits are written with `% 2 ^ 64`, as in a build without overflow checks, and the checked and
-- the saturating ones as the source has them. Durations are in nanoseconds. The `for` loops over
-- attempts recurse on the attempts left. The polling loop has fuel: one round more than the
-- timeout has nanoseconds is enough, because a wait is at least a nanosecond. So has reading a
-- frame: one read more than the frame has bytes is enough, because a read gives at least a byte or
-- ends it. So has the loop over the chunks of a resumed upload: with a granularity, one round more
-- than the input has bytes is enough, because each round moves the offset by at least a byte; without
-- one the server states the next offset, and may state the same for ever. Within a round of polling the clock is read once where the source reads it twice.
--
-- Not modelled: reading and writing JSON and TOML, HTTP, URLs, the clock, digests, signatures,
-- archives, the file system and floating-point numbers, which are libraries and stand as parameters
-- where a result depends on them; the process of the preview and the FFmpeg runner of
-- crates/spike-media; process_group.rs of crates/spike-platform; crates/spike-ui-generated; and, of
-- apps/ovayra-spike, main.rs, cli.rs, preview_app.rs, child_tree.rs and the check of preview evidence
-- in evidence_lint.rs.
pub mod Prelude
pub mod Contracts
pub mod Gemini
pub mod Media
pub mod Release
pub mod Platform
pub mod App
