-- ===== src/MemoryFs/Tests/Trees.antt =====
-- The theorems on the tree and on the contents of files, applied to a small tree.
use smb_mem_lib.Prelude.{
  ◌≡◌, ◌≢◌, refl, none, some, [], ◌∷◌, length, arith, inl, get_elem?, bytes_eq,
}
use smb_mem_lib.Prelude.Assoc.{load, bytes_key, nat_key}
use smb_mem_lib.GoPath.{clean, dir, base, trim}
use smb_mem_lib.MemoryFs.Types.{ok, panic, new_memory_fs}
use smb_mem_lib.MemoryFs.Paths.{
  child_of, resolve_path, get_or_create_dir_path, walk, make_dirs, child_or_new,
}
use smb_mem_lib.MemoryFs.Paths.Walks.{IsClosed, resolve_path-get_or_create_dir_path}
use smb_mem_lib.MemoryFs.Content.{read, write}
use smb_mem_lib.MemoryFs.Content.Writes.{read-write, write_elsewhere}
use smb_mem_lib.MemoryFs.Content.Reads.{read_behind_content}
use smb_mem_lib.MemoryFs.Names.{rename}
use smb_mem_lib.MemoryFs.Names.Effects.{rename_lem, rename_into_self}
use smb_mem_lib.MemoryFs.Calls.{Call, run_all}
use smb_mem_lib.MemoryFs.Sound.{IsSound}
use smb_mem_lib.MemoryFs.Sound.Runs.{run_all-IsSound, read-run_all}
use smb_mem_lib.MemoryFs.Tests.{env, tree, honeypot, open_a, open_d}

tree-IsSound : IsSound tree
unfolding new_memory_fs
tree-IsSound = record { kept = refl; backed = λ q. ground arith }

tree-IsClosed : IsClosed tree
unfolding new_memory_fs load
tree-IsClosed = record { root = omega arith; child = λ q name c h e. ground (arith, e) }

run_all-IsSound_example :
    IsSound (run_all ((env, Call.write 9 (1 ∷ 2 ∷ []) 1) ∷ (env, Call.truncate 9 1) ∷ []) tree)
run_all-IsSound_example =
    run_all-IsSound ((env, Call.write 9 (1 ∷ 2 ∷ []) 1) ∷ (env, Call.truncate 9 1) ∷ []) tree
      tree-IsSound

read-run_all_example :
    (read 9 4 2 (run_all ((env, Call.write 9 (1 ∷ 2 ∷ []) 1) ∷ []) tree)).0 ≢ panic
read-run_all_example =
    read-run_all ((env, Call.write 9 (1 ∷ 2 ∷ []) 1) ∷ []) tree 9 4 2 tree-IsSound

read-write_example :
    ((write env 9 (7 ∷ 8 ∷ 9 ∷ []) 1 tree).0 ≡ ok 3)
    × ((read 9 3 1 (write env 9 (7 ∷ 8 ∷ 9 ∷ []) 1 tree).1).0 ≡ ok (7 ∷ 8 ∷ 9 ∷ []))
    × (((write env 9 (7 ∷ 8 ∷ 9 ∷ []) 1 tree).1.nodes 2).size ≡ 4)
    × (length ((write env 9 (7 ∷ 8 ∷ 9 ∷ []) 1 tree).1.nodes 2).content
        ≡ ((write env 9 (7 ∷ 8 ∷ 9 ∷ []) 1 tree).1.nodes 2).size)
unfolding new_memory_fs load
read-write_example =
    read-write env tree 9 open_a (7 ∷ 8 ∷ 9 ∷ []) 1 refl refl refl refl refl (omega arith)
      (omega arith)

write_elsewhere_example :
    (get_elem? ((write env 9 (7 ∷ 8 ∷ []) 1 tree).1.nodes 2).content 0 ≡ some 10)
    × ((write env 9 (7 ∷ 8 ∷ []) 1 tree).1.nodes 3 ≡ tree.nodes 3)
unfolding new_memory_fs load
write_elsewhere_example =
    write_elsewhere env tree 9 open_a (7 ∷ 8 ∷ []) 1 refl refl refl refl refl (omega arith) 0 3
      (omega arith) (inl (omega arith)) (λ e. omega arith)

read_behind_content_example : (read 9 1 3 (write env 9 (7 ∷ 8 ∷ 9 ∷ []) 2 honeypot).1).0 ≡ panic
unfolding new_memory_fs load
read_behind_content_example =
    read_behind_content env honeypot 9 open_a (7 ∷ 8 ∷ 9 ∷ []) 2 1 3 refl refl refl refl
      (omega arith) (omega arith) (omega arith)

resolve_path-get_or_create_dir_path_example :
    (resolve_path
        (b'/' ∷ b'd' ∷ b'/' ∷ b'e' ∷ [])
        (get_or_create_dir_path env (b'/' ∷ b'd' ∷ b'/' ∷ b'e' ∷ []) tree).1
      ≡ some 4)
    × IsClosed (get_or_create_dir_path env (b'/' ∷ b'd' ∷ b'/' ∷ b'e' ∷ []) tree).1
unfolding new_memory_fs get_or_create_dir_path bytes_eq clean make_dirs trim child_or_new load
resolve_path-get_or_create_dir_path_example =
    resolve_path-get_or_create_dir_path env (b'/' ∷ b'd' ∷ b'/' ∷ b'e' ∷ []) tree
      (get_or_create_dir_path env (b'/' ∷ b'd' ∷ b'/' ∷ b'e' ∷ []) tree).1 4 tree-IsClosed refl

rename_lem_example :
    ((rename env 9 (b'/' ∷ b'd' ∷ b'/' ∷ b'b' ∷ []) 0 tree).0 ≡ ok tt)
    × (((rename env 9 (b'/' ∷ b'd' ∷ b'/' ∷ b'b' ∷ []) 0 tree).1.nodes 2).name ≡ b'b' ∷ [])
    × (((rename env 9 (b'/' ∷ b'd' ∷ b'/' ∷ b'b' ∷ []) 0 tree).1.nodes 2).parent ≡ some 3)
    × (child_of ((rename env 9 (b'/' ∷ b'd' ∷ b'/' ∷ b'b' ∷ []) 0 tree).1.nodes 1) (b'a' ∷ [])
        ≡ none)
unfolding new_memory_fs resolve_path clean dir base load walk trim bytes_eq
rename_lem_example =
    rename_lem env tree 9 open_a (b'/' ∷ b'd' ∷ b'/' ∷ b'b' ∷ []) 3 1 [] refl refl refl refl refl
      refl refl 0 1 (b'a' ∷ [])

rename_into_self_example :
    (((rename env 8 (b'/' ∷ b'd' ∷ b'/' ∷ b'b' ∷ []) 0 tree).1.nodes 3).parent ≡ some 3)
    × (child_of ((rename env 8 (b'/' ∷ b'd' ∷ b'/' ∷ b'b' ∷ []) 0 tree).1.nodes 3) (b'b' ∷ [])
        ≡ some 3)
    × (child_of ((rename env 8 (b'/' ∷ b'd' ∷ b'/' ∷ b'b' ∷ []) 0 tree).1.nodes 1) (b'd' ∷ [])
        ≡ none)
unfolding new_memory_fs resolve_path clean dir base load walk trim
rename_into_self_example =
    rename_into_self env tree 8 open_d (b'/' ∷ b'd' ∷ b'/' ∷ b'b' ∷ []) 3 1 [] refl refl refl refl
      refl refl refl 0 refl (λ e. omega arith)
