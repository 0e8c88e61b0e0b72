-- ===== src/MemoryFs/Honeypot.antt =====
-- The honeypot mode of memoryshare/memory_fs.go: the part of the state that it is to protect.
pub mod Ghosts
pub mod Methods
pub mod Runs
use smb_mem_lib.Prelude.{
  ℕ, ◌+◌, ◌≤◌, ◌<◌, ◌≡◌, refl, ◌∙◌, Bool, true, false, ◌||◌, Option, none, some, List, [], ◌∷◌,
  Bytes, arith, ◌==◌, Bool-cases, Option-cases, inl, inr, if◌then◌else◌,
}
use smb_mem_lib.Prelude.Assoc.{Assoc}
use smb_mem_lib.Vfs.{OperationContext}
use smb_mem_lib.Vfs.Attributes.{Attributes}
use smb_mem_lib.MemoryFs.Types.{
  MemoryNode, MemoryFs, OpenMemoryFile, GhostFile, Env, Op, set_node, ok, update,
}
use smb_mem_lib.MemoryFs.Ghost.{get_ghost_file, add_ghost_file, remove_ghost_file}

-- The mark of a symbolic link stays, unless links may be made.
abbrev pub SameMark : Bool → Bool → Bool → Type 0
SameMark true m n = Unit {0}
SameMark false m n = n ≡ m

-- The part of a node that the honeypot mode protects; where links may be made, the mark of a symbolic
-- link is left out of it.
pub record SameNode (links : Bool) (m n : MemoryNode) : Type 0 where
  pub name : n.name ≡ m.name
  pub is_dir : n.is_dir ≡ m.is_dir
  pub is_symlink : SameMark links m.is_symlink n.is_symlink
  pub content : n.content ≡ m.content
  pub spare : n.spare ≡ m.spare
  pub children : n.children ≡ m.children
  pub parent : n.parent ≡ m.parent

-- The mode stays, and so does that part of each node that there was.
pub record Held (links : Bool) (s t : MemoryFs) : Type 0 where
  pub discard : t.discard_writes ≡ s.discard_writes
  pub root : t.root ≡ s.root
  pub grows : s.next_node ≤ t.next_node
  pub tree : (p : ℕ) → p < s.next_node → SameNode links (s.nodes p) (t.nodes p)

abbrev pub Frozen : MemoryFs → MemoryFs → Type 0
Frozen s t = Held false s t

pub SameNode-refl : (n : MemoryNode) → SameNode false n n
SameNode-refl n = record {
  name = refl;
  is_dir = refl;
  is_symlink = refl;
  content = refl;
  spare = refl;
  children = refl;
  parent = refl;
}

pub Frozen-refl : (s : MemoryFs) → Frozen s s
Frozen-refl s = record {
  discard = refl;
  root = refl;
  grows = omega arith;
  tree = λ p h. SameNode-refl (s.nodes p);
}

SameMark-trans : (a b x y z : Bool) → SameMark a x y → SameMark b y z → SameMark (a || b) x z
SameMark-trans true b x y z h k = tt
SameMark-trans false true x y z h k = tt
SameMark-trans false false x y z h k = k ∙ h

pub Held-trans : (a b : Bool) (s t u : MemoryFs) → Held a s t → Held b t u → Held (a || b) s u
Held-trans a b s t u f g = record {
  discard = g.discard ∙ f.discard;
  root = g.root ∙ f.root;
  grows = omega arith;
  tree = λ p h.
      let x = f.tree p h in
      let y = g.tree p (omega arith) in
      record {
        name = y.name ∙ x.name;
        is_dir = y.is_dir ∙ x.is_dir;
        is_symlink = SameMark-trans a b _ _ _ x.is_symlink y.is_symlink;
        content = y.content ∙ x.content;
        spare = y.spare ∙ x.spare;
        children = y.children ∙ x.children;
        parent = y.parent ∙ x.parent;
      };
}

pub Frozen-trans : (s t u : MemoryFs) → Frozen s t → Frozen t u → Frozen s u
Frozen-trans s t u f g = Held-trans false false s t u f g
