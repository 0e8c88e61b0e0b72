-- ===== src/Server/Acl/Tests.antt =====
-- The security descriptor of a concrete file, with all of its parts.
use smb_mem_lib.Prelude.{◌≡◌, refl, some, arith}
use smb_mem_lib.Server.Acl.Descriptor.{
  descriptor_for, descriptor_bytes, mode_of_descriptor, mode_of_descriptor-descriptor_for,
}

mode_of_descriptor-descriptor_for_example :
    mode_of_descriptor (descriptor_bytes (descriptor_for 7 501 20 0o100644)) ≡ some (some 0o100644)
mode_of_descriptor-descriptor_for_example =
    mode_of_descriptor-descriptor_for 7 501 20 0o100644 refl (omega arith) (omega arith)
      (omega arith)
