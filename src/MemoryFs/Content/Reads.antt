-- ===== src/MemoryFs/Content/Reads.antt =====
-- Read and Write of memoryshare/memory_fs.go in the honeypot mode: reads behind the content of a file.
use smb_mem_lib.Prelude.{ℕ, ◌+◌, ◌^◌, ◌<◌, ◌≡◌, true, false, none, some, Bytes, length, arith}
use smb_mem_lib.Prelude.Assoc.{nat_key, load}
use smb_mem_lib.MemoryFs.Types.{MemoryFs, OpenMemoryFile, Env, panic}
use smb_mem_lib.MemoryFs.Content.{read, write, discard_write}

-- In the honeypot mode, without a callback, on an open file (not a directory): after a write that ends
-- below 2 ^ 64, every read at an offset behind the content and before the end of the write panics.
pub read_behind_content :
    (env : Env) (fs : MemoryFs) (handle : ℕ) (f : OpenMemoryFile) (buf : Bytes) (offset len at : ℕ)
    → load handle fs.open_files ≡ some f
    → fs.write_callback ≡ none
    → fs.discard_writes ≡ true
    → (fs.nodes f.node).is_dir ≡ false
    → offset + length buf < 2 ^ 64
    → length (fs.nodes f.node).content < at
    → at < offset + length buf
    → (read handle len at (write env handle buf offset fs).1).0 ≡ panic
unfolding read write discard_write
read_behind_content env fs handle f buf offset len at opened quiet on file fits behind before =
    ground arith
