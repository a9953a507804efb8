-- ===== src/Client/Backup/Sending/Shipments.antt =====
-- What may leave the folder of packfiles.
use backuwup.Prelude.{
  ℕ, ◌≡◌, ◌≢◌, refl, sym, ap, ◌∙◌, subst, List, [], ◌∷◌, ◌++◌, some, Result, ok, err, Exec, Done,
  arith, Result-cases, inl, inr, ◌>>◌,
}
use mathlib.Core.List.{append_assoc, append-nil}
use backuwup.Prelude.Dict.{Dict, lookup, erase}
use backuwup.Shared.{ClientId}
use backuwup.Client.Bytes.{Bytes}
use backuwup.Client.Config.{Failure}
use backuwup.Client.Net.Received.{FileInfo, packfile}
use backuwup.Client.Net.Transport.{Codec}
use backuwup.Client.Net.Stream.{BackupTransportManager, send_data, send_files}
use backuwup.Client.Backup.Sending.{Outbox, Names}

-- The listed files leave the folder in their order, each with the number of its name and its content.
pub data Leaves (names : Names)
    : List ℕ → Dict Bytes → List (FileInfo × Bytes) → Dict Bytes → Type 0 where
  all_left : {d : Dict Bytes} → Leaves names [] d [] d
  leaves :
      {path id : ℕ} {b : Bytes} {paths : List ℕ} {d d' : Dict Bytes}
      {files : List (FileInfo × Bytes)}
      → lookup path d ≡ some b
      → names.parse_packfile_path_into_id path ≡ some id
      → Leaves names paths (erase path d) files d'
      → Leaves names (path ∷ paths) d ((packfile id, b) ∷ files) d'

Leaves-append :
    {names : Names} {ps qs : List ℕ} {d e f : Dict Bytes} {xs ys : List (FileInfo × Bytes)}
    → Leaves names ps d xs e
    → Leaves names qs e ys f
    → Leaves names (ps ++ qs) d (xs ++ ys) f
Leaves-append all_left l = l
Leaves-append (leaves a b m) l = leaves a b (Leaves-append m l)

-- At most the next file, which is still in the folder.
pub data IsNext (names : Names) : List ℕ → Dict Bytes → List (FileInfo × Bytes) → Type 0 where
  none_tried : {paths : List ℕ} {d : Dict Bytes} → IsNext names paths d []
  next_tried :
      {path id : ℕ} {b : Bytes} {paths : List ℕ} {d : Dict Bytes}
      → lookup path d ≡ some b
      → names.parse_packfile_path_into_id path ≡ some id
      → IsNext names (path ∷ paths) d ((packfile id, b) ∷ [])

IsNext-append :
    {names : Names} {ps : List ℕ} {d : Dict Bytes} {xs : List (FileInfo × Bytes)} (qs : List ℕ)
    → IsNext names ps d xs
    → IsNext names (ps ++ qs) d xs
IsNext-append qs none_tried = none_tried
IsNext-append qs (next_tried a b) = next_tried a b

module _ (C : Codec) (me : ClientId) where
  pub send_files-append :
      (xs ys : List (FileInfo × Bytes)) (t : BackupTransportManager)
      → (send_files C me xs t).0 ≡ ok tt
      → send_files C me (xs ++ ys) t ≡ send_files C me ys (send_files C me xs t).1
  unfolding send_files
  send_files-append [] ys t e = refl
  send_files-append ((info, b) ∷ xs) ys t e = elim (Result-cases (send_data C me b info t).0) [
    | inr (f, p) ↦ absurd (ground arith)
    | inl (u, p) ↦ ground (arith, send_files-append xs ys (send_data C me b info t).1)
  ]

  -- What a call that sends the files at `paths` leaves behind, whether it fails or not: the first of
  -- them have gone, what was sent of them was acknowledged, and over the connection went that and, at
  -- most, the next file, which is still there.
  pub record Ships (names : Names) (paths : List ℕ) (o : Outbox)
      (out : Result Failure Done × Outbox) : Type 0 where
    pub gone : List ℕ
    pub rest : List ℕ
    pub sent : List (FileInfo × Bytes)
    pub tried : List (FileInfo × Bytes)
    pub listed : gone ++ rest ≡ paths
    pub left : Leaves names gone o.files sent out.1.files
    pub acknowledged : (send_files C me sent o.transport).0 ≡ ok tt
    pub next : IsNext names rest out.1.files tried
    pub moved : (send_files C me (sent ++ tried) o.transport).1 ≡ out.1.transport
    pub complete : out.0 ≡ ok tt → (rest ≡ []) × (tried ≡ [])

  -- Nothing was sent and no file left.
  pub Ships-none :
      (names : Names) (paths : List ℕ) (o : Outbox) (out : Result Failure Done × Outbox)
      → out.1.files ≡ o.files
      → out.1.transport ≡ o.transport
      → (out.0 ≡ ok tt → paths ≡ [])
      → Ships names paths o out
  unfolding send_files
  Ships-none names paths o out same still whole = record {
    gone = [];
    rest = paths;
    sent = [];
    tried = [];
    listed = refl;
    left = subst (Leaves names [] o.files []) (sym same) all_left;
    acknowledged = refl;
    next = none_tried;
    moved = sym still;
    complete = λ x. (whole x, refl);
  }

  -- One file was sent, and whatever comes back it is still there.
  pub Ships-tried :
      (names : Names) (path id : ℕ) (b : Bytes) (o : Outbox) (out : Result Failure Done × Outbox)
      → out.1.files ≡ o.files
      → lookup path o.files ≡ some b
      → names.parse_packfile_path_into_id path ≡ some id
      → out.1.transport ≡ (send_data C me b (packfile id) o.transport).1
      → out.0 ≢ ok tt
      → Ships names (path ∷ []) o out
  unfolding send_files
  Ships-tried names path id b o out same found named went bad = record {
    gone = [];
    rest = path ∷ [];
    sent = [];
    tried = (packfile id, b) ∷ [];
    listed = refl;
    left = subst (Leaves names [] o.files []) (sym same) all_left;
    acknowledged = refl;
    next = next_tried (ap (lookup path) same ∙ found) named;
    moved = elim (Result-cases (send_data C me b (packfile id) o.transport).0) [
      | inl (u, p) ↦ ground arith
      | inr (f, p) ↦ ground arith
    ];
    complete = λ x. absurd (bad x);
  }

  Ships-failed :
      (names : Names) (ps qs : List ℕ) (o : Outbox) (first out : Result Failure Done × Outbox)
      (e : Failure)
      → out ≡ (err e, first.1)
      → Ships names ps o first
      → Ships names (ps ++ qs) o out
  Ships-failed names ps qs o first out e same k = record {
    gone = k.gone;
    rest = k.rest ++ qs;
    sent = k.sent;
    tried = k.tried;
    listed = sym (append_assoc k.gone k.rest qs) ∙ ap (λ x. x ++ qs) k.listed;
    left = subst (Leaves names k.gone o.files k.sent) (ground arith) k.left;
    acknowledged = k.acknowledged;
    next =
        subst (λ d. IsNext names (k.rest ++ qs) d k.tried) (ground arith) (IsNext-append qs k.next);
    moved = k.moved ∙ ground arith;
    complete = λ x. ground arith;
  }

  Ships-then :
      (names : Names) (ps qs : List ℕ) (o : Outbox) (first out : Result Failure Done × Outbox)
      → first.0 ≡ ok tt
      → Ships names ps o first
      → Ships names qs first.1 out
      → Ships names (ps ++ qs) o out
  Ships-then names ps qs o first out fine k l =
      let (whole, empty) = k.complete fine in
      let all : k.gone ≡ ps =
        sym (append-nil k.gone) ∙ ap (λ x. k.gone ++ x) (sym whole) ∙ k.listed in
      let at : (send_files C me k.sent o.transport).1 ≡ first.1.transport =
        ap (λ x. (send_files C me x o.transport).1)
          (sym (append-nil k.sent) ∙ ap (λ x. k.sent ++ x) (sym empty))
        ∙ k.moved in
      let joined = send_files-append k.sent l.sent o.transport k.acknowledged in
      let further = send_files-append k.sent (l.sent ++ l.tried) o.transport k.acknowledged in
      record {
        gone = k.gone ++ l.gone;
        rest = l.rest;
        sent = k.sent ++ l.sent;
        tried = l.tried;
        listed =
            append_assoc k.gone l.gone l.rest
            ∙ (ap (λ x. k.gone ++ x) l.listed ∙ ap (λ x. x ++ qs) all);
        left = Leaves-append k.left l.left;
        acknowledged = ground (arith, joined, l.acknowledged, at);
        next = l.next;
        moved =
            ap (λ x. (send_files C me x o.transport).1) (append_assoc k.sent l.sent l.tried)
            ∙ ground (arith, further, l.moved, at);
        complete = l.complete;
      }

  -- Two calls after one another.
  pub Ships->> :
      (names : Names) (ps qs : List ℕ) (m n : Exec Outbox Failure Done) (o : Outbox)
      → Ships names ps o (m o)
      → ((o' : Outbox) → Ships names qs o' (n o'))
      → Ships names (ps ++ qs) o ((m >> n) o)
  Ships->> names ps qs m n o k l = elim (Result-cases (m o).0) [
    | inr (e, p) ↦ Ships-failed names ps qs o (m o) ((m >> n) o) e (rw p) k
    | inl (tt, p) ↦
        Ships-then names ps qs o (m o) ((m >> n) o) p k
          (subst (Ships names qs (m o).1) (ground arith) (l (m o).1))
  ]
