-- ===== src/Nanopb.antt =====
-- iOS/StudyHours/Pods/nanopb: the protocol buffer encoder and decoder in C.
pub mod Run
pub mod Ltype
pub mod Htype
pub mod Atype
pub mod Wire
pub mod Ostream
pub mod Istream
pub mod Reader
pub mod ReaderBounds
pub mod Codec
mod Examples
mod CodecExamples
pub mod Memory
pub mod Field
pub mod Search
pub mod Encoder
pub mod World
pub mod Decoder
pub mod Defaults
pub mod Release
pub mod Released
pub mod Allocation
pub mod DecodeField
pub mod DecodePointer
pub mod DecodeMessage
pub mod Bitmap
pub mod Required
pub mod Encode
pub mod EncodeMessage
pub mod Sizing
pub mod SizingValues
pub mod SizingArrays
pub mod SizingMessage
