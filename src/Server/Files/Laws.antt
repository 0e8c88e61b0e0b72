-- ===== src/Server/Files/Laws.antt =====
-- server/file_tree.go: what create, close and the calls on an open file do to the table of opens.
use smb_mem_lib.Prelude.{
  if_case, ℕ, ◌≤◌, ◌≡◌, refl, ap, Bool, true, false, ◌&&◌, ◌||◌, not, Option, none, some, Bytes,
  ◌==◌, arith,
}
use smb_mem_lib.Prelude.Assoc.{nat_key, store}
use smb_mem_lib.Vfs.Attributes.{FileType, Attributes}
use smb_mem_lib.Server.Files.{
  FileSystem, Open, Table, Answer, created, add_open, CreateCall, path_name, ea_key_of, Plan,
  refuse, go_on, plan, new_open,
}
use smb_mem_lib.Server.Files.Create.{
  create_ea, finish_with, after_ea, stat_opened, opened_ea, opened, open_it, carry_out,
  is_directory, target, with_kind, looked_up, create,
}

-- What the actions of an answer mean: 1 is for a file that was there, 2 for one that was not, 3 and 0 for
-- one that was there and is overwritten or superseded.
abbrev pub means : Bool → ℕ → ℕ → Bool
means exists d action =
    (action == 1 && (exists && (d == 1 || d == 3)))
    || ((action == 2 && (not exists && (d == 0 || (d == 2 || (d == 3 || d == 5)))))
        || ((action == 3 && (exists && (d == 4 || d == 5))) || (action == 0 && (exists && d == 0))))

-- After an answer to CREATE: a file that is opened is in the table under its id, and nothing else has
-- changed there; after any other answer the table is as before.
abbrev pub IsEntered : {S : Type 0} → CreateCall → Bool → Table S → Answer → Table S → Type 0
IsEntered r exists t (created action h level a) t' =
    (means exists r.disposition action ≡ true)
    × (r.is_persistent ≡ false)
    × ((o : Open) × (o.file_id ≡ h) × (t'.opens ≡ store h o t.opens))
IsEntered r exists t answer t' = t'.opens ≡ t.opens

abbrev IsSensible : Bool → ℕ → Plan → Type 0
IsSensible exists d (refuse status) = Unit
IsSensible exists d (go_on makes action flags) = means exists d action ≡ true

plan-IsSensible :
    (exists is_dir create_dir is_ea : Bool) (d : ℕ)
    → d ≤ 5
    → IsSensible exists d (plan exists is_dir create_dir is_ea d)
unfolding plan
plan-IsSensible exists is_dir create_dir is_ea d h = ground (arith, h)

module _ {S : Type 0} (vfs : FileSystem S) (r : CreateCall) (exists : Bool) (start : Table S) where
  abbrev Enters : Answer × Table S → Type 0
  Enters (answer, t) = IsEntered r exists start answer t

  finish_with-Enters :
      (node : Option ℕ) (kind : Option FileType) (durable : Bool) (name : Bytes)
      (key : Option Bytes) (action h : ℕ) (a : Attributes) (t : Table S)
      → r.is_persistent ≡ durable
      → means exists r.disposition action ≡ true
      → t.opens ≡ start.opens
      → Enters (finish_with vfs node kind durable r name key action h a t)
  unfolding add_open
  finish_with-Enters none kind durable name key action h a t p m same = same
  finish_with-Enters (some node) none durable name key action h a t p m same = same
  finish_with-Enters (some node) (some kind) true name key action h a t p m same = same
  finish_with-Enters (some node) (some kind) false name key action h a t p m same =
      (m, p, (new_open r name key h node, refl, ap (store h (new_open r name key h node)) same))

  opened_ea-Enters :
      (key : Option Bytes) (name : Bytes) (action h : ℕ) (a : Attributes) (t : Table S)
      → means exists r.disposition action ≡ true
      → t.opens ≡ start.opens
      → Enters (opened_ea vfs key r name action h a t)
  opened_ea-Enters none name action h a t m same =
      finish_with-Enters a.inode_number a.file_type r.is_persistent name none action h a t refl m
        same
  opened_ea-Enters (some key) name action h a t m same =
      after (create_ea vfs r.disposition h key t.fs).0
        (record t { fs = (create_ea vfs r.disposition h key t.fs).1 }) same
    where
      after :
          (bad : Option ℕ) (u : Table S)
          → u.opens ≡ start.opens
          → Enters (after_ea vfs bad key r name action h a u)
      after none u e =
          finish_with-Enters a.inode_number a.file_type r.is_persistent name (some key) action h a
            (record u { fs = (vfs.get_xattr h key 0 u.fs).1 }) refl m e
      after (some status) u e = e

  opened-Enters :
      (o : Option ℕ) (key : Option Bytes) (name : Bytes) (action : ℕ) (t : Table S)
      → means exists r.disposition action ≡ true
      → t.opens ≡ start.opens
      → Enters (opened vfs o key r name action t)
  opened-Enters none key name action t m same = same
  opened-Enters (some h) key name action t m same =
      after (vfs.get_attr h t.fs).0 (record t { fs = (vfs.get_attr h t.fs).1 }) same
    where
      after :
          (a : Option Attributes) (u : Table S)
          → u.opens ≡ start.opens
          → Enters (stat_opened vfs a h key r name action u)
      after none u e = e
      after (some a) u e = opened_ea-Enters key name action h a u m e

  open_it-Enters :
      (is_dir : Bool) (action flags : ℕ) (key : Option Bytes) (name : Bytes) (t : Table S)
      → means exists r.disposition action ≡ true
      → t.opens ≡ start.opens
      → Enters (open_it vfs is_dir action flags key r name t)
  open_it-Enters is_dir action flags key name t m same = opened-Enters _ key name action _ m same

  carry_out-Enters :
      (q : Plan) (is_dir : Bool) (key : Option Bytes) (name : Bytes) (t : Table S)
      → IsSensible exists r.disposition q
      → t.opens ≡ start.opens
      → Enters (carry_out vfs q is_dir key r name t)
  carry_out-Enters (refuse status) is_dir key name t m same = same
  carry_out-Enters (go_on false action flags) is_dir key name t m same =
      open_it-Enters is_dir action flags key name t m same
  carry_out-Enters (go_on true action flags) is_dir key name t m same =
      if_case Enters (vfs.mkdir name t.fs).0
        (open_it-Enters true action flags key name (record t { fs = (vfs.mkdir name t.fs).1 }) m
          same)
        same

-- Whether there is something under the path already
abbrev pub is_found : Option Attributes → Bool
is_found none = false
is_found (some a) = true

looked_up-Enters :
    {S : Type 0} (vfs : FileSystem S) (r : CreateCall) (start : Table S) (a : Option Attributes)
    (key : Option Bytes) (t : Table S)
    → r.disposition ≤ 5
    → t.opens ≡ start.opens
    → IsEntered r
        (is_found a)
        start
        (looked_up vfs a key r (target r) t).0
        (looked_up vfs a key r (target r) t).1
looked_up-Enters vfs r start none key t d same =
    carry_out-Enters vfs r false start _ false key (target r) t
      (plan-IsSensible false false _ _ r.disposition d) same
looked_up-Enters {S} vfs r start (some a) key t d same = after a.file_type
  where
    after :
        (k : Option FileType)
        → IsEntered r true start
            (with_kind vfs k key r (target r) t).0
            (with_kind vfs k key r (target r) t).1
    after none = same
    after (some k) =
        carry_out-Enters vfs r true start _ (is_directory k) key (target r) t
          (plan-IsSensible true (is_directory k) _ _ r.disposition d) same

-- A CREATE request of a known disposition: when it is answered with a file, the action says what was there
-- before as the disposition allows, the handle is not a persistent one, and the table has the file under
-- its handle and is else as before; every other answer leaves the table as it was.
pub create_lem :
    {S : Type 0} (vfs : FileSystem S) (r : CreateCall) (t : Table S)
    → r.disposition ≤ 5
    → IsEntered r (is_found (vfs.lookup (target r) t.fs).0) t (create vfs r t).0 (create vfs r t).1
unfolding create
create_lem vfs r t d =
    looked_up-Enters vfs r t (vfs.lookup (target r) t.fs).0 (ea_key_of (path_name r.name))
      (record t { fs = (vfs.lookup (target r) t.fs).1 }) d refl
