-- ===== src/Nanopb/Atype.antt =====
-- The `PB_ATYPE_` numbers of pb.h.
use study_hours.Common.{ℕ}

abbrev pub static : ℕ
static = 0x00

abbrev pub pointer : ℕ
pointer = 0x80

abbrev pub callback : ℕ
callback = 0x40
