-- ===== src/Wire.antt =====
-- tlwire: the numbers that its encoding stands on. They are constants of nikand.dev/go/cbor, to which
-- tlwire/wire.go gives names, so they are a parameter of the models below.
pub mod Int64
pub mod Scan
pub mod Reader
use tlog.Base.{ℕ}

-- The masks, the major types (`tag_`), the forms of a length (`len_`) and the special values.
pub record Consts : Type 0 where
  pub tag_mask : ℕ
  pub sub_mask : ℕ
  pub tag_int : ℕ
  pub tag_neg : ℕ
  pub tag_bytes : ℕ
  pub tag_string : ℕ
  pub tag_array : ℕ
  pub tag_map : ℕ
  pub tag_semantic : ℕ
  pub tag_special : ℕ
  pub len_1 : ℕ
  pub len_2 : ℕ
  pub len_4 : ℕ
  pub len_8 : ℕ
  pub break_code : ℕ
  pub special_false : ℕ
  pub special_true : ℕ
  pub special_nil : ℕ
  pub special_undefined : ℕ
  pub float_8 : ℕ
  pub float_16 : ℕ
  pub float_32 : ℕ
  pub float_64 : ℕ

-- The values that RFC 8949 gives them, with the 8-bit float of the package in the free place.
abbrev pub rfc8949 : Consts
rfc8949 = record {
  tag_mask = 0xe0;
  sub_mask = 0x1f;
  tag_int = 0x00;
  tag_neg = 0x20;
  tag_bytes = 0x40;
  tag_string = 0x60;
  tag_array = 0x80;
  tag_map = 0xa0;
  tag_semantic = 0xc0;
  tag_special = 0xe0;
  len_1 = 24;
  len_2 = 25;
  len_4 = 26;
  len_8 = 27;
  break_code = 31;
  special_false = 20;
  special_true = 21;
  special_nil = 22;
  special_undefined = 23;
  float_8 = 24;
  float_16 = 25;
  float_32 = 26;
  float_64 = 27;
}
