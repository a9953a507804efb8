-- ===== src/Client/Net/Requests.antt =====
-- client/src/net_p2p/p2p_connection_manager.rs: the connection requests that this client has made.
use backuwup.Prelude.{
  ℕ, ◌≡◌, ap, List, [], ◌∷◌, Option, none, some, ok, err, Exec, ==_refl, arith, ◌>>=◌,
}
use backuwup.Shared.{ClientId, TransportSessionNonce}
use backuwup.DelayMap.{DelayMap, IsDelayMap}
use backuwup.Client.Peers.{Failure, io, refused}
use backuwup.Client.Net.Transport.{RequestType}

pub record P2PConnectionRequest : Type 0 where
  pub session_nonce : TransportSessionNonce
  pub purpose : RequestType

-- `entropy` holds the coming values of `getrandom`; `none` is its failure.
pub record P2PConnectionManager (D : DelayMap P2PConnectionRequest) : Type 0 where
  pub requests : D.Map
  pub entropy : List (Option ℕ)

module _ {D : DelayMap P2PConnectionRequest} where
  draw : List (Option ℕ) → Exec (P2PConnectionManager D) Failure ℕ
  draw [] m = (err io, m)
  draw (none ∷ later) m = (err io, record m { entropy = later })
  draw (some n ∷ later) m = (ok n, record m { entropy = later })

  -- A client has one open request at a time; a new one replaces it.
  unfoldable pub add_request :
      ClientId → RequestType → Exec (P2PConnectionManager D) Failure TransportSessionNonce
  unfolding draw
  add_request client_id purpose = do
    session_nonce ← λ m. draw m.entropy m
    λ m. (
      ok session_nonce,
      record m {
        requests =
            D.insert m.requests client_id
              (record { session_nonce = session_nonce; purpose = purpose });
      },
    )

  removed :
      Option P2PConnectionRequest
      → D.Map
      → Exec (P2PConnectionManager D) Failure P2PConnectionRequest
  removed none rest m = (err refused, m)
  removed (some request) rest m = (ok request, record m { requests = rest })

  -- `remove` gives back the entry that it took out.
  unfoldable pub finalize_request :
      ClientId → Exec (P2PConnectionManager D) Failure P2PConnectionRequest
  unfolding removed
  finalize_request client_id m =
      removed (D.get m.requests client_id) (D.remove m.requests client_id) m

  module _ (lawful : IsDelayMap D) where
    add_request-get :
        (client : ClientId) (purpose : RequestType) (m : P2PConnectionManager D)
        (nonce : TransportSessionNonce)
        → (add_request client purpose m).0 ≡ ok nonce
        → D.get (add_request client purpose m).1.requests client
          ≡ some (record { session_nonce = nonce; purpose = purpose })
    unfolding add_request
    add_request-get client purpose m nonce = go m.entropy
      where
        go :
            (es : List (Option ℕ))
            → (add_request client purpose (record m { entropy = es })).0 ≡ ok nonce
            → D.get (add_request client purpose (record m { entropy = es })).1.requests client
              ≡ some (record { session_nonce = nonce; purpose = purpose })
        go [] e = cc
        go (none ∷ es) e = cc
        go (some n ∷ es) e = ground (
          arith,
          lawful.get-insert m.requests client client
              (record { session_nonce = n; purpose = purpose }),
          ==_refl client,
        )

    finalize_request-found :
        (client : ClientId) (m : P2PConnectionManager D) (request : P2PConnectionRequest)
        → D.get m.requests client ≡ some request
        → (finalize_request client m).0 ≡ ok request
    unfolding finalize_request
    finalize_request-found client m request e = ground arith

    finalize_request-removed :
        (client : ClientId) (m : P2PConnectionManager D) (request : P2PConnectionRequest)
        → (finalize_request client m).0 ≡ ok request
        → finalize_request client (finalize_request client m).1
          ≡ (err refused, (finalize_request client m).1)
    unfolding finalize_request
    finalize_request-removed client m request e =
        ground (arith, lawful.get-remove m.requests client client, ==_refl client)

    -- A request that was added, and has not expired, is finalized with the nonce that was given out and
    -- with its purpose; and it is finalized once: the next message for that client is unsolicited.
    pub finalize_request-add_request :
        (client : ClientId) (purpose : RequestType) (m : P2PConnectionManager D)
        (nonce : TransportSessionNonce)
        → (add_request client purpose m).0 ≡ ok nonce
        → ((finalize_request client (add_request client purpose m).1).0
            ≡ ok (record { session_nonce = nonce; purpose = purpose }))
          × ((finalize_request client
                (finalize_request client (add_request client purpose m).1).1).0
              ≡ err refused)
    finalize_request-add_request client purpose m nonce e =
        let got = add_request-get client purpose m nonce e in
        let first = finalize_request-found client (add_request client purpose m).1 _ got in
        (
          first,
          ap (λ x. x.0) (finalize_request-removed client (add_request client purpose m).1 _ first),
        )
