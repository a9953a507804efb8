-- ===== src/Server/Auth/Laws.antt =====
-- The methods of `ClientAuthManager`, each by what it writes (server/src/client_auth_manager.rs).
use backuwup.Prelude.{
  ℕ, ◌≡◌, refl, ◌⊎◌, inl, inr, Option, none, some, List, [], ◌∷◌, ok, arith, Option-cases, ==_iff,
  ◌==◌, false,
}
use backuwup.Shared.{ClientId, ChallengeNonce, ChallengeResponse, SessionToken}
use backuwup.DelayMap.{DelayMap, IsDelayMap}
use backuwup.Server.Auth.{
  Crypto, ClientAuthManager, draw, check_signature, challenge_begin, challenge_verify,
  session_start, get_session,
}

module _ {D : DelayMap ℕ} where
  draw-sessions :
      (es : List (Option ℕ)) (a : ClientAuthManager D) → (draw es a).1.sessions ≡ a.sessions
  unfolding draw
  draw-sessions [] a = refl
  draw-sessions (none ∷ es) a = refl
  draw-sessions (some n ∷ es) a = refl

  draw-challenges :
      (es : List (Option ℕ)) (a : ClientAuthManager D) → (draw es a).1.challenges ≡ a.challenges
  unfolding draw
  draw-challenges [] a = refl
  draw-challenges (none ∷ es) a = refl
  draw-challenges (some n ∷ es) a = refl

  pub challenges-session_start :
      (client : ClientId) (a : ClientAuthManager D)
      → (session_start client a).1.challenges ≡ a.challenges
  unfolding session_start
  challenges-session_start client a = ground (arith, draw-challenges a.entropy a)

  pub sessions-challenge_begin :
      (client : ClientId) (a : ClientAuthManager D)
      → (challenge_begin client a).1.sessions ≡ a.sessions
  unfolding challenge_begin
  sessions-challenge_begin client a = ground (arith, draw-sessions a.entropy a)

  pub sessions-challenge_verify :
      (C : Crypto) (client : ClientId) (response : ChallengeResponse) (a : ClientAuthManager D)
      → (challenge_verify C client response a).1.sessions ≡ a.sessions
  unfolding challenge_verify
  sessions-challenge_verify C client response a = ground arith

  -- A response is accepted only against the nonce that is kept for the client, and uses it up.
  pub challenge_verify-ok :
      (C : Crypto) (client : ClientId) (response : ChallengeResponse) (a : ClientAuthManager D)
      → (challenge_verify C client response a).0 ≡ ok tt
      → (nonce : ChallengeNonce) × (D.get a.challenges client ≡ some nonce)
        × (check_signature C client nonce response ≡ ok tt)
        × ((challenge_verify C client response a).1
            ≡ record a { challenges = D.remove a.challenges client })
  unfolding challenge_verify
  challenge_verify-ok C client response a h = elim (Option-cases (D.get a.challenges client)) [
    | inl e ↦ absurd (ground arith)
    | inr (nonce, e) ↦ (nonce, e, ground arith, ground arith)
  ]

  pub session_start-session :
      (lawful : IsDelayMap D) (client c : ClientId) (t : SessionToken) (a : ClientAuthManager D)
      → get_session t (session_start client a).1 ≡ some c
      → (get_session t a ≡ some c) ⊎ ((client ≡ c) × ((session_start client a).0 ≡ ok t))
  unfolding session_start get_session
  session_start-session lawful client c t a = go a.entropy
    where
      go :
          (es : List (Option ℕ))
          → get_session t (session_start client (record a { entropy = es })).1 ≡ some c
          → (get_session t a ≡ some c)
            ⊎ ((client ≡ c) × ((session_start client (record a { entropy = es })).0 ≡ ok t))
      go [] h = inl h
      go (none ∷ es) h = inl h
      go (some k ∷ es) h = ground (arith, lawful.get-insert a.sessions k t client, ==_iff k t)

  -- Without a challenge for a client, only a new one for that client sets it one.
  pub challenge_begin-none :
      (lawful : IsDelayMap D) (c client : ClientId) (a : ClientAuthManager D)
      → D.get a.challenges client ≡ none
      → (c == client) ≡ false
      → D.get (challenge_begin c a).1.challenges client ≡ none
  unfolding challenge_begin
  challenge_begin-none lawful c client a e n = go a.entropy
    where
      go :
          (es : List (Option ℕ))
          → D.get (challenge_begin c (record a { entropy = es })).1.challenges client ≡ none
      go [] = e
      go (none ∷ es) = e
      go (some k ∷ es) = ground (arith, lawful.get-insert a.challenges c client k)

  pub challenge_verify-none :
      (lawful : IsDelayMap D) (C : Crypto) (c client : ClientId) (response : ChallengeResponse)
      (a : ClientAuthManager D)
      → D.get a.challenges client ≡ none
      → D.get (challenge_verify C c response a).1.challenges client ≡ none
  unfolding challenge_verify
  challenge_verify-none lawful C c client response a e =
      ground (arith, lawful.get-remove a.challenges c client)
