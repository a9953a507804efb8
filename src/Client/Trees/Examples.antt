-- ===== src/Client/Trees/Examples.antt =====
-- The theorem on trees (client/src/backup/filesystem/dir_packer.rs, dir_unpacker.rs) at a concrete input:
-- a directory of two children, by a codec for trees without a name.
use Prim.Native.String.{String}
use backuwup.Prelude.{
  ℕ, zero, suc, ◌≡◌, refl, [], ◌∷◌, Option, none, some, Result, ok, arith, if◌then◌else◌, ◌==◌,
}
use backuwup.Shared.{BlobHash}
use backuwup.Client.Bytes.{Bytes}
use backuwup.Client.Packfile.Types.{Blob, tree}
use backuwup.Client.Trees.{
  TreeKind, file, dir, Tree, TreeCodec, TreeError, split_serialize_tree, serialize_tree,
  fetch_full_tree, first_hash,
}
use backuwup.Client.Trees.Laws.{fetch_full_tree-split_serialize_tree}

abbrev kind_code : TreeKind → ℕ
kind_code file = 0
kind_code dir = 1

abbrev code_kind : ℕ → TreeKind
code_kind zero = file
code_kind (suc n) = dir

abbrev option_code : Option ℕ → ℕ
option_code none = 0
option_code (some n) = suc n

abbrev code_option : ℕ → Option ℕ
code_option zero = none
code_option (suc n) = some n

abbrev tree_bytes : String → Tree → Option Bytes
tree_bytes String.[] t = some (
    kind_code t.kind
    ∷ option_code t.metadata.size
    ∷ option_code t.metadata.mtime
    ∷ option_code t.metadata.ctime
    ∷ option_code t.next_sibling
    ∷ t.children)
tree_bytes (String.◌∷◌ c s) t = none

abbrev bytes_tree : Bytes → Option Tree
bytes_tree (k ∷ s ∷ m ∷ c ∷ n ∷ children) = some (record {
  kind = code_kind k;
  name = String.[];
  metadata = record { size = code_option s; mtime = code_option m; ctime = code_option c };
  children = children;
  next_sibling = code_option n;
})
bytes_tree _ = none

abbrev nameless : TreeCodec
nameless = record { serialize = λ t. tree_bytes t.name t; deserialize = bytes_tree; hash = λ b. 42 }

code_kind-kind_code : (k : TreeKind) → code_kind (kind_code k) ≡ k
code_kind-kind_code file = refl
code_kind-kind_code dir = refl

code_option-option_code : (o : Option ℕ) → code_option (option_code o) ≡ o
code_option-option_code none = refl
code_option-option_code (some n) = refl

bytes_tree-tree_bytes :
    (name : String) (t : Tree) (b : Bytes)
    → name ≡ t.name
    → tree_bytes name t ≡ some b
    → bytes_tree b ≡ some t
bytes_tree-tree_bytes String.[] t b n e = ground (
  arith,
  code_kind-kind_code t.kind,
  code_option-option_code t.metadata.size,
  code_option-option_code t.metadata.mtime,
  code_option-option_code t.metadata.ctime,
  code_option-option_code t.next_sibling,
)
bytes_tree-tree_bytes (String.◌∷◌ c s) t b n e = cc

abbrev two_children : Tree
two_children = record {
  kind = dir;
  name = String.[];
  metadata = record { size = some 20; mtime = none; ctime = none };
  children = 8 ∷ 9 ∷ [];
  next_sibling = none;
}

abbrev tree_blob : Blob
tree_blob = record { hash = 42; kind = tree; bytes = 1 ∷ 21 ∷ 0 ∷ 0 ∷ 0 ∷ 8 ∷ 9 ∷ [] }

abbrev get_tree : BlobHash → Result TreeError (Option Blob)
get_tree h = ok (if h == 42 then some tree_blob else none)

splits : split_serialize_tree nameless two_children ≡ ok (tree_blob ∷ [])
unfolding split_serialize_tree serialize_tree
splits = refl

fetch_full_tree-split_serialize_tree_example :
    fetch_full_tree nameless get_tree 0 42
    ≡ some (ok (record two_children { next_sibling = first_hash [] }))
fetch_full_tree-split_serialize_tree_example =
    fetch_full_tree-split_serialize_tree nameless get_tree
      (λ t b e. bytes_tree-tree_bytes t.name t b refl e) two_children tree_blob [] refl splits
      (refl, tt)
