-- ===== src/Client/Net/Replay.antt =====
-- What the protection from replay gives (client/src/net_p2p/receive.rs, transport.rs): a message is
-- accepted once, and files arrive as they were sent.
use backuwup.Prelude.{ℕ, ◌<◌, ◌≡◌, ok, err, arith}
use backuwup.Shared.{ClientId, TransportSessionNonce}
use backuwup.Client.Bytes.{Bytes}
use backuwup.Client.Peers.{invalid_message}
use backuwup.Client.Net.Received.{FileInfo}
use backuwup.Client.Net.Transport.{Codec, header_matches, validate_incoming_message}

module _ (C : Codec) (nonce : TransportSessionNonce) (source : ClientId) where
  -- A message that was accepted is never accepted again in its session: at every later count of the
  -- messages, the same bytes are refused, and the count stays.
  pub validate_incoming_message-again :
      (message : Bytes) (count later : ℕ) (got : ℕ × FileInfo × Bytes)
      → (validate_incoming_message C nonce source message count).0 ≡ ok got
      → count < later
      → validate_incoming_message C nonce source message later ≡ (err invalid_message, later)
  unfolding validate_incoming_message header_matches
  validate_incoming_message-again message count later got e l = ground arith
