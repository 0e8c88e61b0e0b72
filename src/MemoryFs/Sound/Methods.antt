-- ===== src/MemoryFs/Sound/Methods.antt =====
-- Read, Write, Truncate and the attributes of memoryshare/memory_fs.go: contents and sizes.
use smb_mem_lib.Prelude.{
  ℕ, ◌≡◌, Bool, true, false, Option, none, some, Bytes, length, ◌++◌, arith, if◌then◌else◌,
  length-take,
}
use smb_mem_lib.Prelude.Words.{add64}
use smb_mem_lib.Vfs.{OperationContext, InterceptResult}
use smb_mem_lib.Vfs.Attributes.{Attributes}
use smb_mem_lib.MemoryFs.Types.{MemoryFs, Env, MemoryNode, Op, Error, found}
use smb_mem_lib.MemoryFs.Handles.{
  load_open, judge, node_to_attributes, get_attr, set_attr, ask_create,
}
use smb_mem_lib.MemoryFs.Content.{
  ask_write, grown, put_bytes, write_node, write, truncate_node, truncate,
}
use smb_mem_lib.MemoryFs.Content.Slices.{length-grown, length-overwrite}
use smb_mem_lib.MemoryFs.Sound.{IsBacked, IsSound}
use smb_mem_lib.MemoryFs.Sound.Trees.{Keeps, Keeps-bind}

pub get_attr-Keeps : (h : ℕ) → Keeps (get_attr h)
unfolding get_attr node_to_attributes
get_attr-Keeps h fs s = record {
  kept = ground (arith, s.kept);
  backed = λ q. ground (arith, s.backed q);
}

pub set_attr-Keeps : (h : ℕ) (a : Attributes) → Keeps (set_attr h a)
unfolding set_attr
set_attr-Keeps h a fs s = record {
  kept = ground (arith, s.kept);
  backed = λ q. ground (arith, s.backed q);
}

pub put_bytes-Keeps :
    (env : Env) (p : ℕ) (n : MemoryNode) (buf : Bytes) (offset : ℕ)
    → IsBacked n
    → Keeps (put_bytes env p n buf offset)
put_bytes-Keeps env p n buf offset b fs s = record {
  kept = ground (arith, s.kept);
  backed = λ q. ground (arith, s.backed q, length-overwrite n.content offset buf);
}

pub write_node-Keeps :
    (env : Env) (p : ℕ) (buf : Bytes) (offset : ℕ) → Keeps (write_node env p buf offset)
unfolding write_node
write_node-Keeps env p buf offset fs s =
    let end = add64 offset (length buf) in
    let c = (fs.nodes p).content in
    record {
      kept = ground (arith, s.kept);
      backed = λ q. ground (
        arith,
        s.backed q,
        s.backed p,
        length-grown end c,
        length-overwrite c offset buf,
        length-overwrite (grown end c) offset buf,
      );
    }

pub truncate_node-Keeps : (env : Env) (p size : ℕ) → Keeps (truncate_node env p size)
unfolding truncate_node
truncate_node-Keeps env p size fs s =
    let n = fs.nodes p in
    record {
      kept = ground (arith, s.kept);
      backed = λ q. ground (
        arith,
        s.backed q,
        s.backed p,
        length-grown size n.content,
        length-take size (n.content ++ n.spare),
      );
    }

-- The branches on a callback's verdict and on the mode, which is off.
pub choose-Keeps :
    {A : Type 0} (b d : Bool) (x y z : Op A) (s : MemoryFs)
    → d ≡ false
    → IsSound (x s).1
    → IsSound (z s).1
    → IsSound ((if b then x else if d then y else z) s).1
choose-Keeps true d x y z s e h k = h
choose-Keeps false true x y z s e h k = cc
choose-Keeps false false x y z s e h k = k

pub mode-Keeps :
    {A : Type 0} (d : Bool) (y z : Op A) (s : MemoryFs)
    → d ≡ false
    → IsSound (z s).1
    → IsSound ((if d then y else z) s).1
mode-Keeps true y z s e k = cc
mode-Keeps false y z s e k = k

pub load_open-Keeps : (h : ℕ) → Keeps (load_open h)
load_open-Keeps h fs s = record {
  kept = ground (arith, s.kept);
  backed = λ q. ground (arith, s.backed q);
}

pub found-Keeps : {A : Type 0} (e : Error) (o : Option A) → Keeps (found e o)
found-Keeps e none fs s = s
found-Keeps e (some a) fs s = s

pub judge-Keeps : (ctx : Option OperationContext) (r : InterceptResult) → Keeps (judge ctx r)
judge-Keeps ctx r fs s = record {
  kept = ground (arith, s.kept);
  backed = λ q. ground (arith, s.backed q);
}

pub ask_write-Keeps : (env : Env) (h : ℕ) (p buf : Bytes) (o : ℕ) → Keeps (ask_write env h p buf o)
ask_write-Keeps env h p buf o fs s = record {
  kept = ground (arith, s.kept);
  backed = λ q. ground (arith, s.backed q);
}

pub ask_create-Keeps :
    (env : Env) (p : Bytes) (d : Bool) (mode : ℕ) → Keeps (ask_create env p d mode)
ask_create-Keeps env p d mode fs s = record {
  kept = ground (arith, s.kept);
  backed = λ q. ground (arith, s.backed q);
}

pub write-Keeps : (env : Env) (h : ℕ) (buf : Bytes) (offset : ℕ) → Keeps (write env h buf offset)
unfolding write
write-Keeps env h buf offset = Keeps-bind (load_open h) _ (load_open-Keeps h) λ f.
    Keeps-bind (ask_write env h f.path buf offset) _ (ask_write-Keeps env h f.path buf offset)
      λ blocked s k.
        choose-Keeps blocked s.discard_writes _ _ (write_node env f.node buf offset) s k.kept k
          (write_node-Keeps env f.node buf offset s k)

pub truncate-Keeps : (env : Env) (h size : ℕ) → Keeps (truncate env h size)
unfolding truncate
truncate-Keeps env h size fs k =
    mode-Keeps fs.discard_writes _ _ fs k.kept (
      Keeps-bind (load_open h) _ (load_open-Keeps h) (λ f. truncate_node-Keeps env f.node size) fs
        k)
