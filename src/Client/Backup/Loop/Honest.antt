-- ===== src/Client/Backup/Loop/Honest.antt =====
-- Which flags of `send` (client/src/backup/send.rs) stand for what, and that a round keeps this.
use backuwup.Prelude.{
  ℕ, ◌≡◌, refl, ◌∙◌, ap, sym, subst, true, false, not, ◌&&◌, ◌||◌, Option, none, some, Result, ok,
  err, Done, arith, Bool-cases, Option-cases, Result-cases, inl, inr, ltb, ◌==◌, ==_iff,
}
use backuwup.Shared.{ClientId}
use backuwup.DelayMap.{DelayMap}
use backuwup.Client.Config.{Failure}
use backuwup.Client.Net.Transport.{Codec}
use backuwup.Client.Net.Stream.{BackupTransportManager}
use backuwup.Client.Net.Requests.{P2PConnectionRequest}
use backuwup.Client.Backup.Orchestrator.{BackupOrchestrator, pause, resume}
use backuwup.Client.Backup.Sending.{Names, send_index}
use backuwup.Client.Backup.Connecting.{Desk, get_peer_connection}
use backuwup.Client.Backup.Loop.{
  Sending, Folders, Part, onward, retry, stop, finished, resume_if_room, pause_if_full, begin_turn,
  outbox, packs_sent, send_packs, serve_packs, serve_index_over, serve_index, serve, send_turn,
  end_turn, then_index,
}
use backuwup.Client.Backup.Loop.Untouched.{send_index-orchestrator}
use backuwup.Client.Backup.Loop.Keeps.{Completed, AreCalm, Keeps-get_peer_connection}

pause_if_full-packing :
    (o : BackupOrchestrator) → (pause_if_full o).packing_completed ≡ o.packing_completed
unfolding pause_if_full pause
pause_if_full-packing o = ground arith

resume_if_room-packing :
    (o : BackupOrchestrator) → (resume_if_room o).packing_completed ≡ o.packing_completed
unfolding resume_if_room resume
resume_if_room-packing o = ground arith

module _ {D : DelayMap P2PConnectionRequest} (folders : Folders) where
  -- The packfiles are marked as done only with packing completed and an empty folder.
  pub record IsHonest (s : Sending D) : Type 0 where
    pub calm : AreCalm s.desk.meanwhile
    pub packed : s.packfiles_done ≡ true → Completed s.desk.shared
    pub empty : s.packfiles_done ≡ true → folders.get_size s.packfiles ≡ ok 0

  -- Between two turns, the other tasks run: packing that is completed stays so, and writes no more.
  pub record Others (s t : Sending D) : Type 0 where
    pub same_flags : (t.packfiles_done ≡ s.packfiles_done) × (t.index_done ≡ s.index_done)
    pub stays : Completed s.desk.shared → Completed t.desk.shared
    pub writes : Completed s.desk.shared → t.packfiles ≡ s.packfiles
    pub calm : AreCalm t.desk.meanwhile

  pub Others-IsHonest : (s t : Sending D) → Others s t → IsHonest s → IsHonest t
  Others-IsHonest s t o h = record {
    calm = o.calm;
    packed = λ e. o.stays (h.packed (ground (arith, o.same_flags)));
    empty = λ e.
        let done : s.packfiles_done ≡ true = ground (arith, o.same_flags) in
        ground (arith, o.writes (h.packed done), h.empty done);
  }

  begin_turn-IsHonest : (s : Sending D) → IsHonest s → IsHonest (begin_turn s)
  unfolding begin_turn
  begin_turn-IsHonest s h =
      let o = pause_if_full s.desk.shared.orchestrator in
      let same = pause_if_full-packing s.desk.shared.orchestrator in
      let d : Desk D = record s.desk { shared = record s.desk.shared { orchestrator = o } } in
      let (rest, still) = Keeps-get_peer_connection d h.calm in
      elim (Option-cases s.connection) [
        | inr (c, p) ↦
            rw p (record { calm = h.calm; packed = λ e. same ∙ h.packed e; empty = h.empty })
        | inl p ↦ elim (Result-cases (get_peer_connection d).0) [
          | inl (found, q) ↦ rw p (
              rw q
                (record { calm = rest; packed = λ e. still (same ∙ h.packed e); empty = h.empty }))
          | inr (f, q) ↦ rw p (
              rw q
                (record { calm = rest; packed = λ e. still (same ∙ h.packed e); empty = h.empty }))
        ]
      ]

  module _ (C : Codec) (names : Names) (me : ClientId) where
    send_packs-flags :
        (peer : ClientId) (t : BackupTransportManager) (s : Sending D)
        → ((send_packs C names folders me peer t s).1.packfiles_done ≡ s.packfiles_done)
          × ((send_packs C names folders me peer t s).1.desk.meanwhile ≡ s.desk.meanwhile)
    unfolding send_packs
    send_packs-flags peer t s = (refl, refl)

    -- While the packfiles are not done, nothing is claimed of them.
    pub unmarked-IsHonest :
        (s : Sending D) → AreCalm s.desk.meanwhile → s.packfiles_done ≡ false → IsHonest s
    unmarked-IsHonest s calm e = record { calm = calm; packed = λ x. cc; empty = λ x. cc }

    packs_sent-IsHonest :
        (written matched : ℕ) (r : Result Failure Done) (x : Sending D)
        → AreCalm x.desk.meanwhile
        → x.packfiles_done ≡ false
        → IsHonest (packs_sent C names folders me written matched (r, x)).1
    unfolding packs_sent
    packs_sent-IsHonest written matched (err f) x calm e =
        unmarked-IsHonest (record x { connection = none }) calm e
    packs_sent-IsHonest written matched (ok u) x calm e =
        elim (Bool-cases (resume_if_room x.desk.shared.orchestrator).packing_completed) [
          | inr more ↦ rw more (unmarked-IsHonest _ calm e)
          | inl packed ↦ elim (Result-cases (folders.get_size x.packfiles)) [
            | inr (f, p) ↦ rw packed (rw p (unmarked-IsHonest _ calm e))
            | inl (size, p) ↦ elim (Bool-cases (size == 0)) [
              | inr z ↦ rw packed (rw p (rw z (unmarked-IsHonest _ calm e)))
              | inl z ↦ rw packed (
                  rw p (
                    rw z (record {
                      calm = calm;
                      packed = λ y. refl;
                      empty = λ y. ground (arith, ==_iff size 0);
                    })))
            ]
          ]
        ]

    serve_packs-IsHonest :
        (written matched : ℕ) (peer : ClientId) (t : BackupTransportManager) (s : Sending D)
        → IsHonest s
        → IsHonest (serve_packs C names folders me written matched peer t s).1
    unfolding serve_packs send_packs
    serve_packs-IsHonest written matched peer t s h =
        let test =
          ((ltb s.last_written written || ltb s.last_matched matched)
            || s.desk.shared.orchestrator.packing_completed)
          && not s.packfiles_done in
        elim (Bool-cases test) [
          | inr skip ↦ rw skip h
          | inl due ↦
              let open_still : s.packfiles_done ≡ false = ground arith in
              rw due (
                packs_sent-IsHonest written matched (send_packs C names folders me peer t s).0
                  (send_packs C names folders me peer t s).1 h.calm open_still)
        ]

    serve_index_over-IsHonest :
        (c : Option (ClientId × BackupTransportManager)) (s : Sending D)
        → IsHonest s
        → IsHonest (serve_index_over C names folders me c s).1
    unfolding serve_index_over
    serve_index_over-IsHonest none s h = h
    serve_index_over-IsHonest (some (peer, t)) s h =
        let entries = folders.index_entries s.indexes in
        let o = outbox s t s.indexes in
        let same = send_index-orchestrator C names me peer entries o in
        elim (Result-cases (send_index C names me peer entries o).0) [
          | inl (u, p) ↦ rw p (record {
            calm = h.calm;
            packed = λ e. ap (λ x. x.packing_completed) same ∙ h.packed e;
            empty = h.empty;
          })
          | inr (f, p) ↦ rw p (record {
            calm = h.calm;
            packed = λ e. ap (λ x. x.packing_completed) same ∙ h.packed e;
            empty = h.empty;
          })
        ]

    serve_index-IsHonest :
        (s : Sending D) → IsHonest s → IsHonest (serve_index C names folders me s).1
    unfolding serve_index
    serve_index-IsHonest s h = elim (Bool-cases (s.packfiles_done && not s.index_done)) [
      | inr skip ↦ rw skip h
      | inl due ↦ rw due (serve_index_over-IsHonest s.connection s h)
    ]

    -- The body of the loop, and with which flags it ends the loop.
    abbrev pub IsDone : Sending D → Type 0
    IsDone s = (s.packfiles_done ≡ true) × (s.index_done ≡ true)

    end_turn-same :
        (x : Part × Sending D)
        → ((end_turn C names folders me x).1 ≡ x.1)
          × ((end_turn C names folders me x).0 ≡ finished → IsDone x.1)
    unfolding end_turn
    end_turn-same (onward, s) = (ground arith, λ e. (ground arith, ground arith))
    end_turn-same (retry, s) = (refl, λ e. cc)
    end_turn-same (stop, s) = (refl, λ e. cc)

    then_index-IsHonest :
        (x : Part × Sending D) → IsHonest x.1 → IsHonest (then_index C names folders me x).1
    unfolding then_index
    then_index-IsHonest (onward, s) h = serve_index-IsHonest s h
    then_index-IsHonest (retry, s) h = h
    then_index-IsHonest (stop, s) h = h

    serve-IsHonest :
        (written matched : ℕ) (c : Option (ClientId × BackupTransportManager)) (s : Sending D)
        → IsHonest s
        → IsHonest (serve C names folders me written matched c s).1
          × ((serve C names folders me written matched c s).0 ≡ finished
              → IsDone (serve C names folders me written matched c s).1)
    unfolding serve
    serve-IsHonest written matched none s h = (h, λ e. cc)
    serve-IsHonest written matched (some (peer, t)) s h =
        let x =
          then_index C names folders me (serve_packs C names folders me written matched peer t s) in
        let k =
          then_index-IsHonest (serve_packs C names folders me written matched peer t s)
            (serve_packs-IsHonest written matched peer t s h) in
        let (same, ends) = end_turn-same x in
        (subst IsHonest (sym same) k, λ e. subst IsDone (sym same) (ends e))

    pub send_turn-IsHonest :
        (s : Sending D)
        → IsHonest s
        → IsHonest (send_turn C names folders me s).1
          × ((send_turn C names folders me s).0 ≡ finished
              → IsDone (send_turn C names folders me s).1)
    unfolding send_turn
    send_turn-IsHonest s h =
        let o = pause_if_full s.desk.shared.orchestrator in
        serve-IsHonest o.packfile_bytes_written o.storage_request_last_matched
          (begin_turn s).connection (begin_turn s) (begin_turn-IsHonest s h)
