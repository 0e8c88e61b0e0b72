-- ===== src/Server/Files/Create.antt =====
-- server/file_tree.go: fileTree.create and handleCreateEA.
use smb_mem_lib.Prelude.{
  ℕ, ◌%◌, Bool, true, false, ◌||◌, Option, none, some, [], ◌∷◌, Bytes, bytes_eq, ◌==◌,
  if◌then◌else◌,
}
use smb_mem_lib.Vfs.Attributes.{FileType, directory, Attributes}
use smb_mem_lib.Server.Files.{
  FileSystem, error, created, panics, Handler, add_open, CreateCall, path_name, ea_key_of,
  upto_colon, Plan, refuse, go_on, plan, open_flags, granted_level, new_open,
}

abbrev pub is_directory : FileType → Bool
is_directory directory = true
is_directory k = false

-- AFP_AfpInfo
abbrev pub afp_info : Bytes
afp_info = 65 ∷ 70 ∷ 80 ∷ 95 ∷ 65 ∷ 102 ∷ 112 ∷ 73 ∷ 110 ∷ 102 ∷ 111 ∷ []

-- The path of a CREATE request, without the name of an extended attribute
abbrev pub target : CreateCall → Bytes
target r =
    let full = path_name r.name in elim (ea_key_of full) [ none ↦ full | some k ↦ upto_colon full ]

module _ {S : Type 0} (vfs : FileSystem S) where
  abbrev set_ea : ℕ → Bytes → S → Option ℕ × S
  set_ea h key s =
      let (ok, s') = vfs.set_xattr h key [] s in ((if ok then none else some 0xC0000136), s')

  -- handleCreateEA: the status of its error, if it has one
  abbrev pub create_ea : ℕ → ℕ → Bytes → S → Option ℕ × S
  create_ea d h key s =
      if bytes_eq key afp_info
      then (none, s)
      else if d == 0 || d == 5
      then set_ea h key s
      else if d == 1 || (d == 2 || (d == 3 || d == 4))
      then (let (got, s') = vfs.get_xattr h key 0 s in
          if d == 4 then set_ea h key s' else elim got [
            | none ↦ if d == 1 then (some 0xC0000034, s') else set_ea h key s'
            | some v ↦ if d == 2 then (some 0x40000000, s') else (none, s')
          ])
      else (none, s)

  -- The end of create: the open is added, and the answer sent. GetInodeNumber and GetFileType panic when
  -- the attribute is not given, and addOpen for a durable open, which it has then already stored under its
  -- id: this is left out, as the process ends.
  abbrev pub finish_with :
      Option ℕ
      → Option FileType
      → Bool
      → CreateCall
      → Bytes
      → Option Bytes
      → ℕ
      → ℕ
      → Attributes
      → Handler S
  finish_with none kind durable r name key action h a t = (panics, t)
  finish_with (some node) none durable r name key action h a t = (panics, t)
  finish_with (some node) (some kind) true r name key action h a t = (panics, t)
  finish_with (some node) (some kind) false r name key action h a t =
      (created action h (granted_level r.oplock_level) a, add_open (new_open r name key h node) t)

  abbrev pub finish : CreateCall → Bytes → Option Bytes → ℕ → ℕ → Attributes → Handler S
  finish r name key action h a t =
      finish_with a.inode_number a.file_type r.is_persistent r name key action h a t

  abbrev pub after_ea : Option ℕ → Bytes → CreateCall → Bytes → ℕ → ℕ → Attributes → Handler S
  after_ea none key r name action h a t =
      finish r name (some key) action h a (record t { fs = (vfs.get_xattr h key 0 t.fs).1 })
  after_ea (some status) key r name action h a t =
      (error status, record t { fs = vfs.close h t.fs })

  abbrev pub opened_ea : Option Bytes → CreateCall → Bytes → ℕ → ℕ → Attributes → Handler S
  opened_ea none r name action h a t = finish r name none action h a t
  opened_ea (some key) r name action h a t =
      let (bad, s) = create_ea r.disposition h key t.fs in
      after_ea bad key r name action h a (record t { fs = s })

  abbrev pub stat_opened : Option Attributes → ℕ → Option Bytes → CreateCall → Bytes → ℕ → Handler S
  stat_opened none h key r name action t = (error 0xC0000022, t)
  stat_opened (some attrs) h key r name action t = opened_ea key r name action h attrs t

  abbrev pub opened : Option ℕ → Option Bytes → CreateCall → Bytes → ℕ → Handler S
  opened none key r name action t = (error 0xC0000022, t)
  opened (some h) key r name action t =
      let (a, s) = vfs.get_attr h t.fs in stat_opened a h key r name action (record t { fs = s })

  abbrev pub is_some_key : Option Bytes → Bool
  is_some_key none = false
  is_some_key (some k) = true

  -- Open or OpenDir
  abbrev pub open_it : Bool → ℕ → ℕ → Option Bytes → CreateCall → Bytes → Handler S
  open_it is_dir action flags key r name t =
      let (h, s) =
        if is_dir
        then vfs.open_dir name t.fs
        else vfs.open_file name (open_flags r (is_some_key key) flags) t.fs in
      opened h key r name action (record t { fs = s })

  abbrev pub carry_out : Plan → Bool → Option Bytes → CreateCall → Bytes → Handler S
  carry_out (refuse status) is_dir key r name t = (error status, t)
  carry_out (go_on false action flags) is_dir key r name t =
      open_it is_dir action flags key r name t
  carry_out (go_on true action flags) is_dir key r name t =
      let (made, s) = vfs.mkdir name t.fs in
      if made
      then open_it true action flags key r name (record t { fs = s })
      else (error 0xC0000022, record t { fs = s })

  -- The kind of what is there already; GetFileType panics when it is not given.
  abbrev pub with_kind : Option FileType → Option Bytes → CreateCall → Bytes → Handler S
  with_kind none key r name t = (panics, t)
  with_kind (some k) key r name t =
      carry_out (plan true (is_directory k) (r.options % 2 == 1) (is_some_key key) r.disposition)
        (is_directory k) key r name t

  abbrev pub looked_up : Option Attributes → Option Bytes → CreateCall → Bytes → Handler S
  looked_up none key r name t =
      carry_out (plan false false (r.options % 2 == 1) (is_some_key key) r.disposition) false key r
        name t
  looked_up (some a) key r name t = with_kind a.file_type key r name t

  -- create, behind accept and IsInvalid
  unfoldable pub create : CreateCall → Handler S
  create r t =
      let (a, s) = vfs.lookup (target r) t.fs in
      looked_up a (ea_key_of (path_name r.name)) r (target r) (record t { fs = s })
