-- ===== src/Oci.antt =====
-- The external data types of OCI that the program names: the SQLT constants of
-- src/include/oraduck/oci_api.hpp.
use oraduck.Prelude.{ℕ}

abbrev pub sqlt_chr : ℕ
sqlt_chr = 1

abbrev pub sqlt_num : ℕ
sqlt_num = 2

abbrev pub sqlt_int : ℕ
sqlt_int = 3

abbrev pub sqlt_flt : ℕ
sqlt_flt = 4

abbrev pub sqlt_dat : ℕ
sqlt_dat = 12

abbrev pub sqlt_bfloat : ℕ
sqlt_bfloat = 21

abbrev pub sqlt_bdouble : ℕ
sqlt_bdouble = 22

abbrev pub sqlt_uin : ℕ
sqlt_uin = 68

abbrev pub sqlt_bin : ℕ
sqlt_bin = 23

abbrev pub sqlt_lvc : ℕ
sqlt_lvc = 94

abbrev pub sqlt_clob : ℕ
sqlt_clob = 112

abbrev pub sqlt_blob : ℕ
sqlt_blob = 113

-- The internal TIMESTAMP type.
abbrev pub internal_timestamp : ℕ
internal_timestamp = 180
