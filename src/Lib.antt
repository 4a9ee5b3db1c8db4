-- ===== src/Lib.antt =====
-- Verification of StudyHours: of the iOS and the Android app, with which its users, the sisters,
-- record the hours that they study, and of the C code that the iOS app carries in its pods:
-- nanopb, the protocol buffer encoder and decoder that Firebase's diagnostics and data transport
-- write their messages with, and the Base 64 coder that the realtime database's web socket uses.
--
-- The program's parts
-- -------------------
-- Both apps keep a user's hours in the Firebase node hours/<uid>: totalHours, numSessions,
-- sisterName, and a child for each session, with the keys 1, 2 and so on, that has `in` and `out`.
-- The iOS app stores the `in` of a running session behind the last one; the Android app stores a
-- session when it is submitted. Below iOS/StudyHours/StudyHours:
--   RecordViewController.swift   starts, stops, confirms and discards a session
--   ViewController.swift, Session.swift   the list of the sessions
--   LoginViewController.swift    signing in and up
-- and below Android/Frontend/app/src/main/java/com/example/studyhours:
--   ui/home/HomeFragment.java, StudySession.java   the stopwatch, and the submission
--   ui/gallery/GalleryFragment.java   the list of a user's sessions
--   ui/sistersHours/SistersHoursFragment.java   the list of all users
--   EmailPasswordActivity.java, BaseActivity.java   signing in, and making an account
--   MainActivity.java   the menu
-- Below iOS/StudyHours/Pods:
--   nanopb/pb_common.c   the iterator over the field descriptors of a message
--   nanopb/pb_encode.c   the encoder: output streams, single values, arrays, fields, messages
--   nanopb/pb_decode.c   the decoder: input streams, single values, fields, messages, release
--   FirebaseDatabase/Firebase/Database/third_party/SocketRocket/fbase64.c   Base 64
-- pb_encode and pb_decode walk a message struct in memory by the iterator of pb_common.c. Both use
-- a stream, whose callback may be the buffer functions of the library or the user's own.
--
-- Which file models what
-- ----------------------
-- Common          shared names, lists and tests over the native numbers, machine words, bits
-- App.Text        texts, and the reading of an integer
-- App.Node        the children of a node, and what a write changes
-- App.Database    Firebase, the doubles and the formatting of hours, as interfaces
-- App.Ledger, Steps   the abstract view of a user's hours and its steps
-- App.Leaves, Nodes, Bounds   about the node of a ledger, and the hours of one
-- App.Dict, Listing   dictionaries by number, and the sessions to list
-- App.Ios.Record  RecordViewController: its callbacks, as functions of what they are given
-- App.Ios.Phone, Protocol   the callbacks over the database, and what they are to do with a ledger
-- App.Ios.Observer, Invariant, Answers, Runs   about them; Races, where other devices write
-- App.Ios.History, Listed, Shown   ViewController, and about it
-- App.Ios.Login   LoginViewController, and logout of RecordViewController
-- App.Android.Stopwatch, Rotation   HomeFragment's stopwatch and instance state, and about them
-- App.Android.Submit, Recorded, Submission, Races   its transactions, and about them
-- App.Android.Rounds   its rounds of recording and submitting, and about them
-- App.Android.History, Listed, Shown   GalleryFragment, and about it
-- App.Android.Sisters, Opened   SistersHoursFragment, and about it
-- App.Android.Accounts, SignInScreen, Waiting   EmailPasswordActivity, BaseActivity, and about them
-- App.Android.Navigation   MainActivity
-- App.SignUp, NewAccount, Thresholds, Journey   about both apps, or several screens
-- App.Sample, SampleDatabase, SampleLedger   a database that meets the interface, for the tests
-- App.Examples, ClientExamples, JourneyExamples   runs and tests of the apps
-- Nanopb.Run      how a C function runs: it changes its stream and returns true or false
-- Nanopb.Ltype, Htype, Atype   the PB_LTYPE_, PB_HTYPE_ and PB_ATYPE_ numbers of pb.h
-- Nanopb.Wire     the wire format of varints, stated without the code
-- Nanopb.Memory   the memory that message structs lie in, byte by byte
-- Nanopb.Field    pb_field_t, pb_field_iter_begin, _next, _find, find_extension_field
-- Nanopb.Search   about the searches of Field
-- Nanopb.Ostream  pb_ostream_t, pb_write, and the writers of varints, fixed numbers, tags, strings
-- Nanopb.Encoder  the pb_enc_ functions of single values, and pb_encode_submessage
-- Nanopb.Encode, EncodeMessage   encode_array up to pb_encode, its variants, pb_get_encoded_size
-- Nanopb.Sizing, SizingValues, SizingArrays, SizingMessage   about sizing against writing
-- Nanopb.Istream  pb_istream_t, pb_read, pb_readbyte, the varint readers
-- Nanopb.Reader   tags, skipping, raw values, substreams, fixed numbers
-- Nanopb.ReaderBounds   about how far the readers of Istream and Reader go
-- Nanopb.World    the stream, the memory, the heap and fixed_count_size together; allocate_field
-- Nanopb.Allocation   about allocate_field
-- Nanopb.Decoder  the pb_dec_ functions of single values
-- Nanopb.Defaults pb_field_set_to_default, pb_message_set_to_defaults, iter_from_extension
-- Nanopb.Release  pb_release, pb_release_single_field, pb_release_union_field
-- Nanopb.Released   about pb_release_single_field
-- Nanopb.DecodeField, DecodePointer   decode_static_field, decode_pointer_field,
--                 decode_callback_field, decode_field, pb_dec_submessage
-- Nanopb.DecodeMessage   extensions, pb_decode_noinit, pb_decode and its variants
-- Nanopb.Bitmap, Required   about fields_seen
-- Nanopb.Codec    readers against writers, through a buffer
-- Base64          f_b64_ntop and f_b64_pton; Alphabet, Groups, Size,
--                 RoundTrip and Exact are about them
-- Nanopb.Examples, CodecExamples, Base64.Examples   runs and tests on concrete messages and texts
--
-- A callback of an app is a function of the screen's or fragment's fields, of what Firebase or
-- Android hands over, and of the time; it returns the new fields and its writes. `none` is a
-- crash: an unwrapped nil, an unboxed null or an exception. Times are milliseconds; a duration
-- that would be negative is 0, which every test of the apps takes alike.
--
-- A function of nanopb or of Base 64 has the name that it has in C. A stream that such a function
-- changes in place is the state of Res: `done` is a return of true, `failed` a return of false,
-- with the stream as it is left. What a C function stores through other pointers is part of its
-- result or of `World`.
--
-- Configuration
-- -------------
-- As nanopb.xcconfig and the pod set it: PB_FIELD_32BIT, PB_NO_PACKED_STRUCTS, PB_ENABLE_MALLOC,
-- and by default 64 bit integers, error messages, callbacks of the new style and
-- PB_MAX_REQUIRED_FIELDS of 64. size_t and pointers have 64 bits, uint_fast8_t has 8, numbers lie
-- in memory with their lowest byte first, and isspace is that of the C locale.
--
-- Parameters
-- ----------
-- The database under a user's node is an interface: its snapshots list each child once, and a
-- write shows in the next snapshot. So are the doubles, with an addition and the reading of a
-- decimal with one digit, and the formatter of each app, which prints the nearest tenth of an hour
-- and may do either at a tie. The reading of the total as a Float is an argument. A
-- transaction's handler may run on guesses of the value before it runs on the value: the guesses
-- are an argument. What authentication answers, the times of the callbacks, and the printing of a
-- double are arguments. That Android gives a recreated button its state back after
-- onActivityCreated, and that a button calls its listener when it changes, is taken from its
-- documentation. The descriptor arrays, the user's callbacks, the extension types, and realloc and
-- free are arguments. A size_offset, which is signed, is given modulo 2 ^ 64.
--
-- Fuel
-- ----
-- A loop over fields takes as many rounds as the array has fields, the searches one more. A loop
-- over a varint or the fields of a stream takes a byte in each round, and gets one round more than
-- bytes are left. The `fuel` of the functions on messages bounds how deep messages nest and how
-- long a list of extensions is, which no descriptor array bounds. `callback_rounds` bounds how
-- often a callback is called on one substream: one that takes nothing would be called for ever.
-- `stuck` is the result where fuel runs out, and where the C code has no defined meaning: a call
-- through a null entry of PB_ENCODERS or PB_DECODERS, a division by a data_size of 0, a submessage
-- without a descriptor.
--
-- The handlers of an Android submission run at any time after the click, as one step on the node
-- and the fragment as they are by then: they read the fragment's session there. In the rounds of
-- Rounds, they have run before the next check-in; Races shows what they do after it.
--
-- Bounds
-- ------
-- Of the apps: a count of sessions is below 2 ^ 31, the default locale of Android writes a decimal
-- point, and admin codes are ASCII texts, since Long.valueOf takes digits of other scripts. Of the
-- C code: an `int` that Base 64 returns is given by its 32 bits, tarindex, pb_size_t and the product
-- of two of them wrap around at 2 ^ 32, and size_t at 2 ^ 64, which no buffer's length reaches.
--
-- Not modelled
-- ------------
-- Of the apps: layouts, colours, toasts and texts; the formatting of dates; what Android does to a
-- fragment that another one replaces; a press of the iOS button while an answer is waited for, and
-- of the Android one between an offer and the run of its handlers, in the rounds; another write
-- between the listener and the two transactions of a submission; values in the node of types that the
-- apps do not write; a user that is signed out meanwhile. Of the C code: the generated descriptor
-- arrays, pb_encode_negative_varint (for builds without 64 bit integers), alignment, the struct
-- padding between fields, and what a callback does to a stream other than through its state. The
-- pods in Objective-C and C++, LevelDB among them, which are other projects' libraries.
pub mod Common
pub mod Nanopb
pub mod Base64
pub mod App
