-- ===== src/Server/Files.antt =====
-- server/file_tree.go and server/server.go: the table of open files, and the handler create of a fileTree
-- over an interface of the file system.
pub mod Calls
pub mod Closed
pub mod Create
pub mod Laws
mod Tests
use smb_mem_lib.Prelude.{
  ℕ, ◌+◌, ◌/◌, ◌%◌, Bool, true, false, ◌&&◌, ◌||◌, not, Option, none, some, [], ◌∷◌, Bytes,
  bytes_eq, ◌==◌, if◌then◌else◌,
}
use smb_mem_lib.Prelude.Assoc.{Assoc, nat_key, load, store, delete}
use smb_mem_lib.Vfs.Attributes.{Attributes}

-- The errors that the handlers tell apart
pub data Fault : Type 0 where
  end_of_file : Fault
  failed : Fault

-- VFSFileSystem, as far as the handlers call it: S is its state. Read and Getxattr give the bytes that
-- they put into the buffer, of the length that they are given.
pub record FileSystem (S : Type 0) : Type 0 where
  pub lookup : Bytes → S → Option Attributes × S
  pub mkdir : Bytes → S → Bool × S
  pub open_file : Bytes → ℕ → S → Option ℕ × S
  pub open_dir : Bytes → S → Option ℕ × S
  pub close : ℕ → S → S
  pub get_attr : ℕ → S → Option Attributes × S
  pub flush : ℕ → S → S
  pub read : ℕ → ℕ → ℕ → S → (Bytes × Option Fault) × S
  pub write : ℕ → Bytes → ℕ → ℕ → S → (ℕ × Bool) × S
  pub truncate : ℕ → ℕ → S → S
  pub unlink : ℕ → S → Bool × S
  pub rename : ℕ → Bytes → ℕ → S → Bool × S
  pub get_xattr : ℕ → Bytes → ℕ → S → Option Bytes × S
  pub set_xattr : ℕ → Bytes → Bytes → S → Bool × S
  pub remove_xattr : ℕ → Bytes → S → Bool × S

-- Open, as far as the handlers read it
pub record Open : Type 0 where
  pub file_id : ℕ
  pub node_id : ℕ
  pub oplock_level : ℕ
  pub granted_access : ℕ
  pub oplock_held : Bool
  pub path_name : Bytes
  pub create_options : ℕ
  pub create_disposition : ℕ
  pub is_ea : Bool
  pub ea_key : Bytes

-- The file system, and the opens of the server, which all trees of all connections share
pub record Table (S : Type 0) : Type 0 where
  pub fs : S
  pub opens : Assoc ℕ Open

-- What a handler hands to sendPacket last: an error with its status, or what was asked for; `panics` when
-- it does not come so far.
pub data Answer : Type 0 where
  error : ℕ → Answer
  created : ℕ → ℕ → ℕ → Attributes → Answer
  closed_with : Option Attributes → Answer
  flushed : Answer
  payload : Bytes → Answer
  written : ℕ → Answer
  info_set : Answer
  panics : Answer

abbrev pub Handler : Type 0 → Type 0
Handler S = Table S → Answer × Table S

-- getOpen, addOpen and deleteOpen; opensByGuid is nil, so that addOpen of a durable open panics.
unfoldable pub get_open : {S : Type 0} → ℕ → Table S → Option Open
get_open id t = load id t.opens

unfoldable pub add_open : {S : Type 0} → Open → Table S → Table S
add_open o t = record t { opens = store o.file_id o t.opens }

unfoldable pub delete_open : {S : Type 0} → ℕ → Table S → Table S
delete_open id t = record t { opens = delete id t.opens }

-- A CREATE request: the view of its fields, and whether its contexts ask for a persistent handle
pub record CreateCall : Type 0 where
  pub name : Bytes
  pub disposition : ℕ
  pub options : ℕ
  pub access : ℕ
  pub oplock_level : ℕ
  pub is_persistent : Bool

-- strings.ReplaceAll(name, "\\", "/"), and "/" for no name
abbrev pub to_slashes : Bytes → Bytes
to_slashes [] = []
to_slashes (c ∷ cs) = (if c == b'\\' then b'/' else c) ∷ to_slashes cs

abbrev pub path_name : Bytes → Bytes
path_name [] = b'/' ∷ []
path_name (c ∷ cs) = to_slashes (c ∷ cs)

-- IsEA and SplitEA: what stands before the first colon, and between it and the second
abbrev pub upto_colon : Bytes → Bytes
upto_colon [] = []
upto_colon (c ∷ cs) = if c == b':' then [] else c ∷ upto_colon cs

abbrev pub ea_key_of : Bytes → Option Bytes
ea_key_of [] = none
ea_key_of (c ∷ cs) = let rest = ea_key_of cs in if c == b':' then some (upto_colon cs) else rest

-- What the disposition leads to: an error, or to go on, with whether a directory is made, the action of
-- the answer, and the flags for Open (O_CREATE 0x40, O_EXCL 0x80, O_TRUNC 0x200)
pub data Plan : Type 0 where
  refuse : ℕ → Plan
  go_on : Bool → ℕ → ℕ → Plan

abbrev pub plan_for : Bool → Bool → ℕ → Plan
plan_for exists create_dir d =
    if d == 3
    then go_on (not exists && create_dir) (if exists then 1 else 2) 0x40
    else if d == 1
    then (if exists then go_on false 1 0 else refuse 0xC000000F)
    else if d == 2
    then (if exists then refuse 0x40000000 else go_on create_dir 2 0xC0)
    else if d == 4
    then (if exists then go_on false 3 0x240 else refuse 0xC000000F)
    else if d == 5
    then go_on false (if exists then 3 else 2) 0x240
    else if d == 0
    then go_on false (if exists then 0 else 2) 0x40
    else go_on false 1 0

unfoldable pub plan : Bool → Bool → Bool → Bool → ℕ → Plan
plan exists is_dir create_dir is_ea d =
    if exists && (not is_dir && create_dir)
    then refuse (if d == 2 then 0xC0000035 else 0xC0000103)
    else if is_ea && not exists
    then refuse 0xC000000F
    else plan_for exists create_dir d

-- The flags that the oplock, the access and the options add
abbrev lock_flags : ℕ → ℕ
lock_flags level = if level == 1 then 0x10 else if level == 8 then 0x20 else 0

abbrev access_flags : ℕ → ℕ
access_flags access = if access / 2 % 2 == 1 || access / 0x40000000 % 2 == 1 then 2 else 0

abbrev reparse_flags : ℕ → ℕ
reparse_flags options = if options / 0x200000 % 2 == 1 then 0x200000 else 0

abbrev pub open_flags : CreateCall → Bool → ℕ → ℕ
open_flags r is_ea flags =
    (if is_ea then 0 else flags + lock_flags r.oplock_level + access_flags r.access)
    + reparse_flags r.options

abbrev pub granted_level : ℕ → ℕ
granted_level level = if level == 1 || (level == 8 || level == 0xFF) then level else 0

-- Open{...}
abbrev pub new_open : CreateCall → Bytes → Option Bytes → ℕ → ℕ → Open
new_open r name key handle node = record {
  file_id = handle;
  node_id = node;
  oplock_level = granted_level r.oplock_level;
  granted_access = r.access;
  oplock_held = r.oplock_level == 1 || r.oplock_level == 8;
  path_name = name;
  create_options = r.options;
  create_disposition = r.disposition;
  is_ea = elim key [ none ↦ false | some k ↦ true ];
  ea_key = elim key [ none ↦ [] | some k ↦ k ];
}
