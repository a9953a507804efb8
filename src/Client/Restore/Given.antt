-- ===== src/Client/Restore/Given.antt =====
-- The files that a client gave to a peer, as the peer holds them (client/src/backup/restore_send.rs).
use backuwup.Prelude.{
  ◌≡◌, refl, ap, ◌∙◌, Bool, true, false, List, [], ◌∷◌, arith, All, ◌==◌, if◌then◌else◌,
}
use backuwup.Shared.{ClientId}
use backuwup.Client.Bytes.{Bytes}
use backuwup.Client.Net.Obfuscation.{
  ObfuscationKey, obfuscate_data_impl, IsByte, obfuscate_data_impl_twice,
}
use backuwup.Client.Net.Received.{FileInfo, packfile, index, StoredFile}
use backuwup.Client.Restore.Send.{is_packfile, is_wanted}

-- The files that a peer gave, in the order in which the others' folders hold them.
pub data Holds (key : ObfuscationKey) (peer : ClientId)
    : List StoredFile → List (FileInfo × Bytes) → Type 0 where
  no_files : Holds key peer [] []
  others :
      {f : StoredFile} {files : List StoredFile} {given : List (FileInfo × Bytes)}
      → (f.owner == peer) ≡ false
      → Holds key peer files given
      → Holds key peer (f ∷ files) given
  given :
      {f : StoredFile} {files : List StoredFile} {b : Bytes} {rest : List (FileInfo × Bytes)}
      → (f.owner == peer) ≡ true
      → f.bytes ≡ obfuscate_data_impl b key
      → All IsByte b
      → Holds key peer files rest
      → Holds key peer (f ∷ files) ((f.info, b) ∷ rest)

-- The files of a peer that are of one kind, in the order of the list, with their content as the key turns
-- it back.
abbrev pub deobfuscated :
    ObfuscationKey → ClientId → Bool → List StoredFile → List (FileInfo × Bytes)
deobfuscated key peer packs [] = []
deobfuscated key peer packs (f ∷ files) =
    let rest = deobfuscated key peer packs files in
    if is_wanted peer packs f then (f.info, obfuscate_data_impl f.bytes key) ∷ rest else rest

-- Those of one kind.
abbrev pub of_kind : Bool → List (FileInfo × Bytes) → List (FileInfo × Bytes)
of_kind packs [] = []
of_kind true ((packfile id, b) ∷ files) = (packfile id, b) ∷ of_kind true files
of_kind true ((index n, b) ∷ files) = of_kind true files
of_kind false ((packfile id, b) ∷ files) = of_kind false files
of_kind false ((index n, b) ∷ files) = (index n, b) ∷ of_kind false files

of_kind-given :
    (packs : Bool) (info : FileInfo) (b : Bytes) (files : List (FileInfo × Bytes))
    → of_kind packs ((info, b) ∷ files) ≡ (
        if is_packfile info
        then (if packs then (info, b) ∷ of_kind packs files else of_kind packs files)
        else (if packs then of_kind packs files else (info, b) ∷ of_kind packs files))
unfolding is_packfile
of_kind-given true (packfile id) b files = refl
of_kind-given true (index n) b files = refl
of_kind-given false (packfile id) b files = refl
of_kind-given false (index n) b files = refl

pub deobfuscated-Holds :
    (key : ObfuscationKey) (peer : ClientId) (packs : Bool) {files : List StoredFile}
    {orig : List (FileInfo × Bytes)}
    → Holds key peer files orig
    → deobfuscated key peer packs files ≡ of_kind packs orig
unfolding is_wanted
deobfuscated-Holds key peer packs no_files = refl
deobfuscated-Holds key peer packs (others e h) = ground (arith, deobfuscated-Holds key peer packs h)
deobfuscated-Holds key peer packs (given {f} {b} {rest} e hidden bytes h) =
    let back : obfuscate_data_impl f.bytes key ≡ b =
      ap (λ x. obfuscate_data_impl x key) hidden ∙ obfuscate_data_impl_twice b key bytes in
    ground (arith, back, deobfuscated-Holds key peer packs h, of_kind-given packs f.info b rest)
