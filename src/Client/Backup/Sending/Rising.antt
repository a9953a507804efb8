-- ===== src/Client/Backup/Sending/Rising.antt =====
-- `send_index` of client/src/backup/send.rs: which index files are sent, and which number is kept.
use backuwup.Prelude.{
  ℕ, ◌≡◌, ◌≤◌, ◌<◌, refl, true, false, List, [], ◌∷◌, Option, none, some, ok, arith, All, subst,
  Result-cases, inl, inr,
}
use backuwup.Prelude.Dict.{Dict, lookup}
use backuwup.Shared.{ClientId}
use backuwup.Client.Bytes.{Bytes}
use backuwup.Client.Net.Received.{FileInfo, index}
use backuwup.Client.Net.Transport.{Codec}
use backuwup.Client.Net.Stream.{send_files}
use backuwup.Client.Backup.Sending.{
  Outbox, Names, Entry, file, stray, unreadable, is_sent_already, visit_index, send_index,
}
use backuwup.Client.Backup.Sending.Shipped.{paths_of}
use backuwup.Client.Backup.Sending.Indexes.{highest_of, Visited, skipped, sent, visit_index-Visited}

abbrev IsAbove : Option ℕ → ℕ → Type 0
IsAbove none n = Unit {0}
IsAbove (some k) n = k < n

abbrev IsCovered : Option ℕ → ℕ → Type 0
IsCovered none n = ⊥
IsCovered (some k) n = n ≤ k

-- What is sent of a listing: each index file whose number is above the highest one so far, with the
-- content that the folder has for it; its number is the highest one then. The others are passed over.
pub data Picks (names : Names)
    : Option ℕ → List ℕ → Dict Bytes → List (FileInfo × Bytes) → Option ℕ → Type 0 where
  no_paths : {h : Option ℕ} {d : Dict Bytes} → Picks names h [] d [] h
  passes :
      {h h' : Option ℕ} {path n : ℕ} {paths : List ℕ} {d : Dict Bytes}
      {files : List (FileInfo × Bytes)}
      → names.parse_index_path_into_id path ≡ some n
      → IsCovered h n
      → Picks names h paths d files h'
      → Picks names h (path ∷ paths) d files h'
  picks :
      {h h' : Option ℕ} {path n : ℕ} {b : Bytes} {paths : List ℕ} {d : Dict Bytes}
      {files : List (FileInfo × Bytes)}
      → names.parse_index_path_into_id path ≡ some n
      → IsAbove h n
      → lookup path d ≡ some b
      → Picks names (some n) paths d files h'
      → Picks names h (path ∷ paths) d ((index n, b) ∷ files) h'

sent_already-IsCovered : (h : Option ℕ) (n : ℕ) → is_sent_already h n ≡ true → IsCovered h n
unfolding is_sent_already
sent_already-IsCovered none n e = cc
sent_already-IsCovered (some k) n e = ground arith

not_sent-IsAbove : (h : Option ℕ) (n : ℕ) → is_sent_already h n ≡ false → IsAbove h n
unfolding is_sent_already
not_sent-IsAbove none n e = tt
not_sent-IsAbove (some k) n e = ground arith

-- What is covered stays covered while the numbers rise.
Picks-IsCovered :
    {names : Names} {paths : List ℕ} {d : Dict Bytes} {files : List (FileInfo × Bytes)}
    (h h' : Option ℕ) (n : ℕ)
    → Picks names h paths d files h'
    → IsCovered h n
    → IsCovered h' n
Picks-IsCovered h h' n no_paths k = k
Picks-IsCovered h h' n (passes p c r) k = Picks-IsCovered h h' n r k
Picks-IsCovered none h' n (picks {n = m} p above found r) k = absurd k
Picks-IsCovered (some x) h' n (picks {n = m} p above found r) k =
    Picks-IsCovered (some m) h' n r (omega arith)

module _ (C : Codec) (names : Names) (me peer_id : ClientId) where
  -- The number of a listed path is not above `h`.
  abbrev pub IsKnown : Option ℕ → ℕ → Type 0
  IsKnown h path = (n : ℕ) × (names.parse_index_path_into_id path ≡ some n) × IsCovered h n

  -- What a call that succeeds has sent, and the highest number behind it.
  pub record SendsIndexes (paths : List ℕ) (o o' : Outbox) : Type 0 where
    pub files : List (FileInfo × Bytes)
    pub delivered : send_files C me files o.transport ≡ (ok tt, o'.transport)
    pub picked : Picks names (highest_of o) paths o.files files (highest_of o')
    pub kept : o'.files ≡ o.files
    pub known : All (IsKnown (highest_of o')) paths

  SendsIndexes-Visited :
      (path : ℕ) (paths : List ℕ) (o o1 o' : Outbox)
      → Visited C names me peer_id path o o1
      → SendsIndexes paths o1 o'
      → SendsIndexes (path ∷ paths) o o'
  unfolding send_files
  SendsIndexes-Visited path paths o o1 o' (skipped n named old files transport high) k =
      let covered = sent_already-IsCovered (highest_of o) n old in
      let more =
        subst (λ h. Picks names h paths o.files k.files (highest_of o')) high
          (subst (λ d. Picks names (highest_of o1) paths d k.files (highest_of o')) files
            k.picked) in
      record {
        files = k.files;
        delivered = ground (arith, k.delivered);
        picked = passes named covered more;
        kept = ground (arith, k.kept);
        known =
            ((n, named, Picks-IsCovered (highest_of o) (highest_of o') n more covered), k.known);
      }
  SendsIndexes-Visited path paths o o1 o' (sent n b named new found files one high) k =
      let more =
        subst (λ h. Picks names h paths o.files k.files (highest_of o')) high
          (subst (λ d. Picks names (highest_of o1) paths d k.files (highest_of o')) files
            k.picked) in
      record {
        files = (index n, b) ∷ k.files;
        delivered = ground (arith, k.delivered);
        picked = picks named (not_sent-IsAbove (highest_of o) n new) found more;
        kept = ground (arith, k.kept);
        known =
            ((n, named, Picks-IsCovered (some n) (highest_of o') n more (omega arith)), k.known);
      }

  -- A call of `send_index` that succeeds has sent over the connection, in the order of the listing and
  -- with their contents, exactly the index files whose number is above the highest one before them,
  -- that sent by earlier calls included. The highest number that is kept is then that of the last of
  -- them, and no listed file has a number above it, those that were passed over included. The files
  -- stay on the disk.
  pub send_index-SendsIndexes :
      (entries : List Entry) (o : Outbox)
      → (send_index C names me peer_id entries o).0 ≡ ok tt
      → SendsIndexes (paths_of entries) o (send_index C names me peer_id entries o).1
  unfolding send_index send_files
  send_index-SendsIndexes [] o e = record {
    files = [];
    delivered = refl;
    picked = no_paths;
    kept = refl;
    known = tt;
  }
  send_index-SendsIndexes (stray ∷ more) o e = send_index-SendsIndexes more o e
  send_index-SendsIndexes (unreadable ∷ more) o e = cc
  send_index-SendsIndexes (file path ∷ more) o e =
      let o1 : Outbox = (visit_index C names me peer_id path o).1 in
      elim (Result-cases (visit_index C names me peer_id path o).0) [
        | inr (f, p) ↦ absurd (ground arith)
        | inl (tt, p) ↦ subst (SendsIndexes (path ∷ paths_of more) o) (ground arith) (
            SendsIndexes-Visited path (paths_of more) o o1 (send_index C names me peer_id more o1).1
              (visit_index-Visited C names me peer_id path o p)
              (send_index-SendsIndexes more o1 (ground arith)))
      ]
