-- ===== src/Media/Child.antt =====
-- crates/spike-media/src/cpu_fallback.rs: collecting the bounded output of a child process.
--
-- Processes, pipes and the timer are parameters: a `Child` is what a run of a program gives. A pipe is
-- the list of its reads, each its bytes or a failure; a read of no bytes and the end of the list are
-- the end of the stream. `progress_first` says which error a join meets first where both what was read
-- and the rest fail. The kill and wait of `cleanup_child` change nothing that is returned.
pub mod Whole
use ovayra.Prelude.{
  ℕ, ◌-◌, min, Bool, true, false, not, ◌&&◌, ◌||◌, Option, none, some, List, [], ◌∷◌, ◌++◌, ◌==◌,
  if◌then◌else◌, Result, ok, ◌>>=◌, ◌>>◌, guard, ok_or, length, take, Text,
}

abbrev pub Reads : Type 0
Reads = List (Option Text)

pub record Child : Type 0 where
  pub runtime_built : Bool
  pub spawned : Bool
  pub has_stdout : Bool
  pub has_stderr : Bool
  pub exceeds : ℕ → Bool
  pub waited : Option Bool
  pub progress_first : Bool
  pub stdout : Reads
  pub stderr : Reads

pub data ChildCollectionError : Type 0 where
  spawn read timed_out stdout_limit runtime : ChildCollectionError

-- `ChildOutput`; the status is whether it is a success
pub record ChildOutput : Type 0 where
  pub success : Bool
  pub stdout : Text

pub record DrainedPipe : Type 0 where
  pub content : Text
  pub truncated : Bool

-- what `drain_pipe` does with a read that it retains
retained : ℕ → DrainedPipe → Text → DrainedPipe
retained limit pipe chunk =
    let copied = min (limit - length pipe.content) (length chunk) in
    record {
      content = pipe.content ++ take copied chunk;
      truncated = pipe.truncated || not (copied == length chunk);
    }

-- The loop of `drain_pipe`.
drain_from : ℕ → (retain : Bool) → DrainedPipe → Reads → Option DrainedPipe
unfolding retained
drain_from limit retain pipe [] = some pipe
drain_from limit retain pipe (none ∷ reads) = none
drain_from limit retain pipe (some [] ∷ reads) = some pipe
drain_from limit retain pipe (some (c ∷ s) ∷ reads) =
    drain_from limit retain (if retain then retained limit pipe (c ∷ s) else pipe) reads

unfoldable pub drain_pipe : ℕ → (retain : Bool) → Reads → Option DrainedPipe
unfolding drain_from
drain_pipe limit retain reads =
    drain_from limit retain (record { content = []; truncated = false }) reads

-- `collect_child` and `collect_child_async`; every failure of the three joined parts is the same
-- error, so that their order does not matter
unfoldable pub collect_child :
    Child → (timeout out_limit err_limit : ℕ) → Result ChildCollectionError ChildOutput
unfolding drain_pipe
collect_child child timeout out_limit err_limit = do
  guard child.runtime_built runtime
  guard child.spawned spawn
  guard (child.has_stdout && child.has_stderr) read
  guard (not (child.exceeds timeout)) timed_out
  status ← ok_or read child.waited
  out ← ok_or read (drain_pipe out_limit true child.stdout)
  discarded ← ok_or read (drain_pipe err_limit false child.stderr)
  guard (not out.truncated) stdout_limit
  ok (record { success = status; stdout = out.content })
