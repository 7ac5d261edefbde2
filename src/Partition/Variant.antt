-- ===== src/Partition/Variant.antt =====
-- `VariantSpec` of partition.py, with the fields of the source's `TypedDict` in its order.
use asm_dataset_nix.Prelude.{String}
use asm_dataset_nix.Prelude.Int.{ℤ}

pub record VariantSpec : Type 0 where
  pub label : String
  pub drv : String
  pub variant_dir : String
  pub metadata_name : String
  pub compiler_id : String
  pub compiler_family : String
  pub compiler_version : String
  pub optimization : String
  pub flag_set : String
  pub hardening : String
  pub sanitizer : String
  pub march : String
  pub tier : ℤ
  pub pkg : String
  pub arch : String
