-- ===== src/Client/Restore/RoundTrip.antt =====
-- Both ends of a restore together (client/src/backup/restore_send.rs and net_p2p/restore_files_writer.rs).
use backuwup.Prelude.{
  ℕ, ◌≡◌, refl, sym, ap, ◌∙◌, Bool, true, false, List, [], ◌∷◌, ◌++◌, Option, none, some, ok, arith,
  map, Bool-cases, Result-cases, inl, inr, ==_iff, if◌then◌else◌,
}
use backuwup.Shared.{ClientId, TransportSessionNonce}
use backuwup.Client.Bytes.{Bytes}
use backuwup.Client.Tables.Log.Transaction.{is_restore_request, newest}
use backuwup.Client.Tables.LogLaws.{stamp}
use backuwup.Client.Net.Obfuscation.{ObfuscationKey}
use backuwup.Client.Net.Received.{FileInfo, packfile, index, is_same_file, Write, works, fails}
use backuwup.Client.Net.Transport.{Codec}
use backuwup.Client.Net.Stream.{
  binary, Delivery, new_transport, Receiving, handle_stream, send_files,
}
use backuwup.Client.Net.Arrival.{IsLawful, saves, handle_stream-send_files}
use backuwup.Client.Restore.Orchestrator.{RestoreOrchestrator, complete_peer}
use backuwup.Client.Restore.Send.{Returning, is_throttled, is_packfile, restore_all_data_to_peer}
use backuwup.Client.Restore.Given.{Holds, of_kind}
use backuwup.Client.Restore.Returned.{restore_all_data_to_peer-sent}
use backuwup.Client.Restore.Receiving.{
  overwrite, Restored, save_restored, received, handle_receiving,
}

abbrev first_of : {A : Type 0} → Option A → Option A → Option A
first_of none other = other
first_of (some a) other = some a

-- What a list of files says of one name, where a later file counts.
abbrev pub last_given : FileInfo → List (FileInfo × Bytes) → Option Bytes
last_given name [] = none
last_given name ((info, b) ∷ files) =
    first_of (last_given name files) (if is_same_file info name then some b else none)

-- The file of one name in a folder.
abbrev pub find_file : FileInfo → List (FileInfo × Bytes) → Option Bytes
find_file name [] = none
find_file name ((info, b) ∷ files) =
    let rest = find_file name files in if is_same_file info name then some b else rest

is_same_file-same : (a b : FileInfo) → is_same_file a b ≡ true → a ≡ b
unfolding is_same_file
is_same_file-same (packfile a) (packfile b) e = ap packfile ((==_iff a b).0 e)
is_same_file-same (index a) (index b) e = ap index ((==_iff a b).0 e)
is_same_file-same (packfile a) (index b) e = absurd (ground arith)
is_same_file-same (index a) (packfile b) e = absurd (ground arith)

is_same_file-both :
    (a b c : FileInfo) → is_same_file a c ≡ true → is_same_file b c ≡ true → is_same_file a b ≡ true
unfolding is_same_file
is_same_file-both (packfile a) (packfile b) (packfile c) e f = ground arith
is_same_file-both (index a) (index b) (index c) e f = ground arith
is_same_file-both (packfile a) (packfile b) (index c) e f = absurd (ground arith)
is_same_file-both (index a) (index b) (packfile c) e f = absurd (ground arith)
is_same_file-both (packfile a) (index b) (packfile c) e f = absurd (ground arith)
is_same_file-both (packfile a) (index b) (index c) e f = absurd (ground arith)
is_same_file-both (index a) (packfile b) (packfile c) e f = absurd (ground arith)
is_same_file-both (index a) (packfile b) (index c) e f = absurd (ground arith)

find_file-overwrite :
    (name info : FileInfo) (b : Bytes) (files : List (FileInfo × Bytes))
    → find_file name (overwrite info b files)
      ≡ (if is_same_file info name then some b else find_file name files)
unfolding overwrite
find_file-overwrite name info b [] = refl
find_file-overwrite name info b ((other, old) ∷ files) =
    elim (Bool-cases (is_same_file other info)) [
      | inl e ↦ ground (arith, is_same_file-same other info e)
      | inr e ↦ elim (Bool-cases (is_same_file other name)) [
        | inr f ↦ ground (arith, find_file-overwrite name info b files)
        | inl f ↦ elim (Bool-cases (is_same_file info name)) [
          | inr g ↦ ground (arith, find_file-overwrite name info b files)
          | inl g ↦ absurd (ground (arith, is_same_file-both other info name f g))
        ]
      ]
    ]

save_restored-ok :
    (info : FileInfo) (b : Bytes) (r r' : Restored)
    → save_restored info b r ≡ (ok tt, r')
    → r'.files ≡ overwrite info b r.files
unfolding save_restored
save_restored-ok info b r r' e = go r.writes e
  where
    go :
        (ws : List Write)
        → save_restored info b (record r { writes = ws }) ≡ (ok tt, r')
        → r'.files ≡ overwrite info b r.files
    go [] q = ground arith
    go (works ∷ ws) q = ground arith
    go (fails n ∷ ws) q = absurd (ground arith)

first_of-none : {A : Type 0} (x : Option A) → first_of x none ≡ x
first_of-none none = refl
first_of-none (some a) = refl

first_of_assoc :
    {A : Type 0} (x y z : Option A) → first_of (first_of x y) z ≡ first_of x (first_of y z)
first_of_assoc none y z = refl
first_of_assoc (some a) y z = refl

first_of_test :
    {A : Type 0} (test : Bool) (a : A) (x : Option A)
    → first_of (if test then some a else none) x ≡ (if test then some a else x)
first_of_test true a x = refl
first_of_test false a x = refl

last_given-append :
    (name : FileInfo) (xs ys : List (FileInfo × Bytes))
    → last_given name (xs ++ ys) ≡ first_of (last_given name ys) (last_given name xs)
last_given-append name [] ys = sym (first_of-none (last_given name ys))
last_given-append name ((info, b) ∷ xs) ys = rw (last_given-append name xs ys) (
    first_of_assoc (last_given name ys) (last_given name xs)
      (if is_same_file info name then some b else none))

last_given-of_kind :
    (name : FileInfo) (packs : Bool) (files : List (FileInfo × Bytes))
    → last_given name (of_kind packs files) ≡ (
        if is_packfile name
        then (if packs then last_given name files else none)
        else (if packs then none else last_given name files))
unfolding is_packfile is_same_file
last_given-of_kind (packfile n) true [] = refl
last_given-of_kind (packfile n) false [] = refl
last_given-of_kind (index n) true [] = refl
last_given-of_kind (index n) false [] = refl
last_given-of_kind (packfile n) true ((packfile m, b) ∷ files) =
    rw (last_given-of_kind (packfile n) true files) refl
last_given-of_kind (packfile n) false ((packfile m, b) ∷ files) =
    last_given-of_kind (packfile n) false files
last_given-of_kind (packfile n) true ((index m, b) ∷ files) =
    last_given-of_kind (packfile n) true files ∙ sym (first_of-none (last_given (packfile n) files))
last_given-of_kind (packfile n) false ((index m, b) ∷ files) =
    rw (last_given-of_kind (packfile n) false files) refl
last_given-of_kind (index n) true ((packfile m, b) ∷ files) =
    rw (last_given-of_kind (index n) true files) refl
last_given-of_kind (index n) false ((packfile m, b) ∷ files) =
    last_given-of_kind (index n) false files ∙ sym (first_of-none (last_given (index n) files))
last_given-of_kind (index n) true ((index m, b) ∷ files) = last_given-of_kind (index n) true files
last_given-of_kind (index n) false ((index m, b) ∷ files) =
    rw (last_given-of_kind (index n) false files) refl

last_given-kinds :
    (name : FileInfo) (files : List (FileInfo × Bytes))
    → last_given name (of_kind true files ++ of_kind false files) ≡ last_given name files
unfolding is_packfile
last_given-kinds name files =
    last_given-append name (of_kind true files) (of_kind false files)
    ∙ (rw (last_given-of_kind name true files, last_given-of_kind name false files) (go name))
  where
    go :
        (n : FileInfo)
        → first_of
            (if is_packfile n then none else last_given name files)
            (if is_packfile n then last_given name files else none)
          ≡ last_given name files
    go (packfile id) = refl
    go (index id) = first_of-none (last_given name files)

module _ (C : Codec) (lawful : IsLawful C) (nonce : TransportSessionNonce) (peer : ClientId)
    (me : ClientId) where
  saves-last_given :
      (name : FileInfo) (files : List (FileInfo × Bytes)) (r r' : Restored)
      → saves C lawful nonce peer save_restored me files r ≡ (ok tt, r')
      → find_file name r'.files ≡ first_of (last_given name files) (find_file name r.files)
  saves-last_given name [] r r' e = ground arith
  saves-last_given name ((info, b) ∷ files) r r' e =
      elim (Result-cases (save_restored info b r).0) [
        | inr (f, p) ↦ absurd (ground arith)
        | inl (u, p) ↦
            let r1 : Restored = (save_restored info b r).1 in
            let written : find_file name r1.files
                ≡ (if is_same_file info name then some b else find_file name r.files) =
              ap (find_file name) (save_restored-ok info b r r1 (ground arith))
              ∙ find_file-overwrite name info b r.files in
            let rest = saves-last_given name files r1 r' (ground arith) in
            rest
            ∙ (rw
                (
                  written,
                  first_of_assoc (last_given name files)
                      (if is_same_file info name then some b else none) (find_file name r.files),
                  first_of_test (is_same_file info name) b (find_file name r.files),
                )
                refl)
      ]

  -- A client gets back what it gave: if a peer with a working database and its key, which has not been
  -- asked by the client lately, answers its request without an error over a new connection and the client takes what was
  -- sent without one, into an empty folder, then under each name the folder has the content
  -- that the client last gave to the peer under that name, or no file when it gave none, and the peer
  -- counts as completed.
  pub handle_receiving-restore_all_data_to_peer :
      (to_le_bytes : ℕ → ObfuscationKey) (r r' : Returning) (key : ℕ)
      (orig : List (FileInfo × Bytes)) (ds : List Delivery) (s s' : Receiving Restored)
      (o o' : RestoreOrchestrator)
      → r.config.faults ≡ []
      → r.config.settings.obfuscation_key ≡ some key
      → is_throttled (stamp (newest (is_restore_request me) r.config.log)) r.config.now ≡ false
      → Holds (to_le_bytes key) me r.files orig
      → r.transport ≡ new_transport nonce ds
      → restore_all_data_to_peer C to_le_bytes peer me r ≡ (ok tt, r')
      → s.data_msg_counter ≡ 1
      → s.stored.files ≡ []
      → handle_receiving C me nonce peer (map binary r'.transport.sent) s o ≡ (ok tt, s', o')
      → ((name : FileInfo) → find_file name s'.stored.files ≡ last_given name orig)
        × (o' ≡ complete_peer peer o)
  unfolding handle_receiving received
  handle_receiving-restore_all_data_to_peer to_le_bytes r r' key orig ds s s' o o' sound keyed free
        h fresh sent count empty taken =
      let files : List (FileInfo × Bytes) = of_kind true orig ++ of_kind false orig in
      let given =
        restore_all_data_to_peer-sent C to_le_bytes peer me r r' key orig sound keyed free h sent in
      let sends : send_files C peer files (new_transport nonce ds) ≡ (ok tt, r'.transport) =
        ground arith in
      let stream = handle_stream C save_restored me nonce peer (map binary r'.transport.sent) s in
      elim (Result-cases stream.0) [
        | inr (f, p) ↦ absurd (ground arith)
        | inl (u, p) ↦
            let saved =
              handle_stream-send_files C lawful nonce peer save_restored me files ds r'.transport s
                s' sends count (ground arith) in
            (
              λ name.
                  saves-last_given name files s.stored s'.stored saved
                  ∙ (rw (empty, first_of-none (last_given name files))
                      (last_given-kinds name orig)),
              ground arith,
            )
      ]
