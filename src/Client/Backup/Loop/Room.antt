-- ===== src/Client/Backup/Loop/Room.antt =====
-- When the sending task lets a paused backup go on (client/src/backup/send.rs).
use backuwup.Prelude.{◌+◌, ◌≡◌, ◌≤◌, ◌<◌, true, false, arith}
use backuwup.Client.Defaults.{
  max_packfile_local_buffer_size, packfile_local_buffer_resume_threshold,
}
use backuwup.Client.Backup.Orchestrator.{
  BackupOrchestrator, should_continue, resume, available_packfile_bytes,
}
use backuwup.Client.Backup.Loop.{has_room, resume_if_room}

-- A paused backup goes on behind a round of packfiles when the bytes that wait to be sent leave more
-- than the threshold of the limit; and also when they are above the limit, where the subtraction wraps
-- around; in between it stays paused.
pub resume_if_room-paused :
    (o : BackupOrchestrator)
    → o.paused ≡ true
    → available_packfile_bytes o < 0x8000_0000_0000_0000
    → (available_packfile_bytes o + packfile_local_buffer_resume_threshold
          < max_packfile_local_buffer_size
        → (resume_if_room o).paused ≡ false)
      × (max_packfile_local_buffer_size
            ≤ available_packfile_bytes o + packfile_local_buffer_resume_threshold
          → available_packfile_bytes o ≤ max_packfile_local_buffer_size
          → resume_if_room o ≡ o)
      × (max_packfile_local_buffer_size < available_packfile_bytes o
          → (resume_if_room o).paused ≡ false)
unfolding resume_if_room has_room should_continue resume
resume_if_room-paused o p small = (λ h. ground arith, λ h k. ground arith, λ h. ground arith)
