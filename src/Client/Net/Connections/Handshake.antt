-- ===== src/Client/Net/Connections/Handshake.antt =====
-- The two sides of a new connection (client/src/net_p2p/handle_connections.rs).
use backuwup.Prelude.{
  true, Bool-cases, ==_iff, ◌≡◌, [], ◌∷◌, ◌++◌, Option, none, some, ok, arith, ==_refl,
  Result-cases, Option-cases, inl, inr,
}
use backuwup.Shared.{ClientId, TransportSessionNonce, IncomingP2PConnection}
use backuwup.DelayMap.{DelayMap, IsDelayMap}
use backuwup.Client.Bytes.{Bytes}
use backuwup.Client.Peers.{PeerInfo, get_peer_info}
use backuwup.Client.Net.Transport.{
  Codec, EncapsulatedMsg, EncapsulateRequestBody, RequestType, receive_request, open_message,
  validate_encapsulated_signature, header_matches, seal,
}
use backuwup.Client.Net.Stream.{Incoming, binary, close, other, socket_error}
use backuwup.Client.Net.Arrival.{IsLawful}
use backuwup.Client.Net.Requests.{
  P2PConnectionRequest, P2PConnectionManager, add_request, finalize_request,
  finalize_request-add_request,
}
use backuwup.Client.Net.Connections.{
  Listening, first_message, accept_and_listen, Dialing, sock_conn, request_message,
  accept_and_connect,
}

module _ (C : Codec) (lawful : IsLawful C)
    (deserialize-serialize_request : (r : EncapsulateRequestBody) (b : Bytes)
      → C.serialize_request r ≡ some b
      → C.deserialize_request b ≡ some r)
    (me : ClientId) where
  receive_request-request_message :
      (request : P2PConnectionRequest) (message : Bytes)
      → request_message C me request ≡ ok message
      → receive_request C request.session_nonce me message ≡ ok request.purpose
  unfolding request_message receive_request open_message validate_encapsulated_signature
      header_matches
  receive_request-request_message request message e =
      let body : EncapsulateRequestBody = record {
        header = record { sequence_number = 0; session_nonce = request.session_nonce };
        request = request.purpose;
      } in
      elim (Option-cases (C.serialize_request body)) [
        | inl p ↦ absurd (ground arith)
        | inr (b, p) ↦ elim (Option-cases (seal C me b)) [
          | inl q ↦ absurd (ground arith)
          | inr (sealed, q) ↦
              let msg : EncapsulatedMsg = record { body = b; signature = C.sign me b } in
              let same : sealed ≡ message = ground arith in
              ground (
                arith,
                same,
                lawful.deserialize-serialize_msg msg sealed q,
                deserialize-serialize_request body b p,
                lawful.verify-sign me b,
                ==_refl request.session_nonce,
              )
        ]
      ]

  module _ {D : DelayMap P2PConnectionRequest} where
    accept_and_connect-message :
        (peer : ClientId) (d d' : Dialing D) (request : P2PConnectionRequest)
        → accept_and_connect C me peer d ≡ (ok request, d')
        → ((finalize_request peer d.manager).0 ≡ ok request)
          × (message : Bytes) × (request_message C me request ≡ ok message)
          × (d'.sent ≡ d.sent ++ message ∷ [])
    unfolding accept_and_connect
    accept_and_connect-message peer d d' request e = elim (Result-cases (sock_conn d.attempts)) [
      | inr (f, p) ↦ absurd (ground arith)
      | inl (u, p) ↦ elim (Result-cases (finalize_request peer d.manager).0) [
        | inr (f, q) ↦ absurd (ground arith)
        | inl (r, q) ↦ elim (Result-cases (request_message C me r)) [
          | inr (f, m) ↦ absurd (ground arith)
          | inl (message, m) ↦ elim (Result-cases d.sending) [
            | inr (f, w) ↦ absurd (ground arith)
            | inl (v, w) ↦
                let same : r ≡ request = ground arith in
                (ground arith, message, ground arith, ground arith)
          ]
        ]
      ]
    ]

  accept_and_listen-works :
      (nonce : TransportSessionNonce) (purpose : RequestType) (l : Listening) (p : PeerInfo)
      (message : Bytes)
      → (get_peer_info me l.config).0 ≡ ok (some p)
      → l.listen ≡ ok tt
      → l.confirm ≡ ok tt
      → l.accept ≡ ok tt
      → l.first ≡ some (binary message)
      → receive_request C nonce me message ≡ ok purpose
      → (accept_and_listen C (record { source_client_id = me; session_nonce = nonce }) l).0
        ≡ ok (some purpose)
  unfolding accept_and_listen first_message
  accept_and_listen-works nonce purpose l p message known listened confirmed accepted first e =
      ground arith

  -- Two clients who set a connection up agree on what it is for: when this client has made a request of a
  -- peer and then, the request not having expired, connects without an error, it goes on with the
  -- nonce and the purpose of the request, and the peer, if it knows this client, was told that nonce,
  -- its sockets and its confirmation work, and the message sent comes first, goes on with that purpose.
  pub accept_and_listen-accept_and_connect :
      {D : DelayMap P2PConnectionRequest} (lasts : IsDelayMap D) (peer : ClientId)
      (purpose : RequestType) (m : P2PConnectionManager D) (nonce : TransportSessionNonce)
      (d d' : Dialing D) (request : P2PConnectionRequest) (l : Listening) (p : PeerInfo)
      (message : Bytes)
      → (add_request peer purpose m).0 ≡ ok nonce
      → d.manager ≡ (add_request peer purpose m).1
      → d.sent ≡ []
      → accept_and_connect C me peer d ≡ (ok request, d')
      → d'.sent ≡ message ∷ []
      → (get_peer_info me l.config).0 ≡ ok (some p)
      → l.listen ≡ ok tt
      → l.confirm ≡ ok tt
      → l.accept ≡ ok tt
      → l.first ≡ some (binary message)
      → (request ≡ record { session_nonce = nonce; purpose = purpose })
        × ((accept_and_listen C (record { source_client_id = me; session_nonce = nonce }) l).0
            ≡ ok (some purpose))
  accept_and_listen-accept_and_connect lasts peer purpose m nonce d d' request l p message added
        held fresh connected sent known listened confirmed accepted first =
      let (found, written, made, grown) = accept_and_connect-message peer d d' request connected in
      let (once, again) = finalize_request-add_request lasts peer purpose m nonce added in
      let same : request ≡ record { session_nonce = nonce; purpose = purpose } = ground arith in
      let one : written ≡ message = ground arith in
      let got : receive_request C nonce me message ≡ ok purpose =
        ground (arith, receive_request-request_message request written made) in
      (
        same,
        accept_and_listen-works nonce purpose l p message known listened confirmed accepted first
            got,
      )

first_message-binary :
    (first : Option Incoming) (message : Bytes)
    → first_message first ≡ ok message
    → first ≡ some (binary message)
unfolding first_message
first_message-binary none message e = absurd (ground arith)
first_message-binary (some (binary m)) message e = ground arith
first_message-binary (some close) message e = absurd (ground arith)
first_message-binary (some other) message e = absurd (ground arith)
first_message-binary (some socket_error) message e = absurd (ground arith)

-- A request for a purpose that the peer signed: the message opens to a body under the peer's signature,
-- and the body is a request for that purpose with the nonce of the connection and the number 0.
pub record IsSigned (C : Codec) (req : IncomingP2PConnection) (purpose : RequestType)
    (message : Bytes) : Type 0 where
  pub msg : EncapsulatedMsg
  pub body : EncapsulateRequestBody
  pub opens : C.deserialize_msg message ≡ some msg
  pub verified : C.verify req.source_client_id msg.body msg.signature ≡ true
  pub decodes : C.deserialize_request msg.body ≡ some body
  pub nonce : body.header.session_nonce ≡ req.session_nonce
  pub number : body.header.sequence_number ≡ 0
  pub asks : body.request ≡ purpose

receive_request-IsSigned :
    (C : Codec) (req : IncomingP2PConnection) (purpose : RequestType) (message : Bytes)
    → receive_request C req.session_nonce req.source_client_id message ≡ ok purpose
    → IsSigned C req purpose message
unfolding receive_request open_message validate_encapsulated_signature header_matches
receive_request-IsSigned C req purpose message e = elim (Option-cases (C.deserialize_msg message)) [
  | inl p ↦ absurd (ground arith)
  | inr (m, p) ↦ elim (Bool-cases (C.verify req.source_client_id m.body m.signature)) [
    | inr v ↦ absurd (ground arith)
    | inl v ↦ elim (Option-cases (C.deserialize_request m.body)) [
      | inl q ↦ absurd (ground arith)
      | inr (b, q) ↦
          let n = ==_iff b.header.session_nonce req.session_nonce in
          let z = ==_iff b.header.sequence_number 0 in
          record {
            msg = m;
            body = b;
            opens = p;
            verified = v;
            decodes = q;
            nonce = ground (arith, n);
            number = ground (arith, z);
            asks = ground arith;
          }
    ]
  ]
]

-- A connection is handed on only when the peer is known, the server was told that this client
-- listens for it, and the first message is one that the peer has signed for this very connection; and
-- for a peer that is not known nothing is told to the server.
pub accept_and_listen-guarded :
    (C : Codec) (req : IncomingP2PConnection) (l : Listening)
    → ((purpose : RequestType)
        → (accept_and_listen C req l).0 ≡ ok (some purpose)
        → (p : PeerInfo) × ((get_peer_info req.source_client_id l.config).0 ≡ ok (some p))
          × (message : Bytes) × (l.first ≡ some (binary message))
          × IsSigned C req purpose message
          × ((accept_and_listen C req l).1.confirmed ≡ l.confirmed ++ req.source_client_id ∷ []))
      × ((get_peer_info req.source_client_id l.config).0 ≡ ok none
          → ((accept_and_listen C req l).0 ≡ ok none)
            × ((accept_and_listen C req l).1.confirmed ≡ l.confirmed))
unfolding accept_and_listen
accept_and_listen-guarded C req l = (
  λ purpose e. elim (Result-cases (get_peer_info req.source_client_id l.config).0) [
    | inr (f, q) ↦ absurd (ground arith)
    | inl (peer, q) ↦ elim (Option-cases peer) [
      | inl n ↦ absurd (ground arith)
      | inr (p, known) ↦ elim (Result-cases l.listen) [
        | inr (f, r) ↦ absurd (ground arith)
        | inl (u, r) ↦ elim (Result-cases l.confirm) [
          | inr (f, c) ↦ absurd (ground arith)
          | inl (v, c) ↦ elim (Result-cases l.accept) [
            | inr (f, t) ↦ absurd (ground arith)
            | inl (w, t) ↦ elim (Result-cases (first_message l.first)) [
              | inr (f, i) ↦ absurd (ground arith)
              | inl (message, i) ↦
                  elim (Result-cases
                    (receive_request C req.session_nonce req.source_client_id message)) [
                      | inr (f, o) ↦ absurd (ground arith)
                      | inl (asked, o) ↦ (
                        p,
                        ground arith,
                        message,
                        first_message-binary l.first message i,
                        receive_request-IsSigned C req purpose message (ground arith),
                        ground arith,
                      )
                    ]
            ]
          ]
        ]
      ]
    ]
  ],
  λ q. (ground arith, ground arith),
)
