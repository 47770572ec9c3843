-- ===== src/App/Persist.antt =====
-- apps/ovayra-spike/src: the write of a file by way of a temporary one, in gate.rs and
-- gemini_orchestration.rs.

-- Nothing has changed; or the new file is in its place, but its directory could not be synced, which
-- is an error too; or all has succeeded.
pub data Persisted : Type 0 where
  not_persisted persisted_unsynced persisted : Persisted
