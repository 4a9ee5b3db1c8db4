-- ===== src/Nanopb/Htype.antt =====
-- The `PB_HTYPE_` numbers of pb.h.
use study_hours.Common.{ℕ}

abbrev pub required : ℕ
required = 0x00

abbrev pub optional : ℕ
optional = 0x10

abbrev pub repeated : ℕ
repeated = 0x20

abbrev pub oneof : ℕ
oneof = 0x30
