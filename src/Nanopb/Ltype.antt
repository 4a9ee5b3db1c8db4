-- ===== src/Nanopb/Ltype.antt =====
-- The `PB_LTYPE_` numbers of pb.h.
use study_hours.Common.{ℕ}

abbrev pub varint : ℕ
varint = 0x00

abbrev pub uvarint : ℕ
uvarint = 0x01

abbrev pub svarint : ℕ
svarint = 0x02

abbrev pub fixed32 : ℕ
fixed32 = 0x03

abbrev pub fixed64 : ℕ
fixed64 = 0x04

abbrev pub last_packable : ℕ
last_packable = 0x04

abbrev pub bytes : ℕ
bytes = 0x05

abbrev pub string : ℕ
string = 0x06

abbrev pub submessage : ℕ
submessage = 0x07

abbrev pub extension : ℕ
extension = 0x08

abbrev pub fixed_length_bytes : ℕ
fixed_length_bytes = 0x09
