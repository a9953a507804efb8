-- ===== src/Client/Restore/Throttle.antt =====
-- How often a peer sends its files back (client/src/backup/restore_send.rs).
use backuwup.Prelude.{ℕ, ◌+◌, ◌≡◌, ◌<◌, List, [], ◌∷◌, ◌++◌, err, arith}
use backuwup.Shared.{ClientId}
use backuwup.Client.Config.{refused, restore_request, LogRow}
use backuwup.Client.Defaults.{restore_throttle_delay}
use backuwup.Client.Tables.Log.Transaction.{is_restore_request}
use backuwup.Client.Tables.LogLaws.{newest-later, get_last-works, is_restore_request_refl}
use backuwup.Client.Net.Obfuscation.{ObfuscationKey}
use backuwup.Client.Net.Transport.{Codec}
use backuwup.Client.Restore.Send.{Returning, is_throttled, restore_all_data_to_peer}

module _ (C : Codec) (to_le_bytes : ℕ → ObfuscationKey) (me peer : ClientId) where
  -- Once a request of a peer stands in the log, with the time `time` and whatever was logged behind it, a
  -- request of that peer less than a minute later is refused, and changes nothing, while the
  -- database works.
  pub restore_all_data_to_peer-again :
      (r : Returning) (more rows : List LogRow) (time : ℕ)
      → r.config.faults ≡ []
      → r.config.log ≡ more ++ record { timestamp = time; event = restore_request peer } ∷ rows
      → r.config.now < time + restore_throttle_delay
      → restore_all_data_to_peer C to_le_bytes me peer r ≡ (err refused, r)
  unfolding restore_all_data_to_peer is_throttled
  restore_all_data_to_peer-again r more rows time works log soon =
      let row : LogRow = record { timestamp = time; event = restore_request peer } in
      let (found, newest, later) =
        newest-later (is_restore_request peer) more row rows (is_restore_request_refl peer) in
      ground (arith, get_last-works peer r.config works, newest, later)
