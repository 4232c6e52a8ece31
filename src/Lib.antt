-- ===== src/Lib.antt =====
-- Verification of the chess application of this repository and of the C code that it is built with:
-- the board, the moves, the game of two players and the saved games (Code/MyIVR, in Swift); nanopb, the
-- protocol buffer library (Code/Pods/nanopb); and the base 64 routines of the Firebase database client
-- (Code/Pods/FirebaseDatabase/Firebase/Database/third_party/SocketRocket/fbase64.c).
--
-- Parts and files:
--   Base                shared helpers: tests by Bool on native numbers, lists of bytes, bits
--   Nanopb.Descriptor   pb.h: field types, `pb_field_t`, wire types, error messages
--   Nanopb.Input        pb_decode.c: `pb_istream_t`, `pb_read`, `pb_readbyte`
--   Nanopb.Varint       pb_decode.c: the varint readers
--   Nanopb.Decode       pb_decode.c: fixed-width numbers, tags, skipping, substreams
--   Nanopb.Output       pb_encode.c: `pb_ostream_t`, `pb_write`
--   Nanopb.Encode       pb_encode.c: varints, fixed-width numbers, tags and strings
--   Nanopb.Iter         pb_common.c: the iterator over the fields of a message
--   Nanopb.Memory       the memory of a message struct
--   Nanopb.Message      pb_encode.c: field encoders, arrays, callbacks, extensions, `pb_encode`;
--                       Message.Wire describes the bytes of a message, without a stream
--   Nanopb.FieldDecode  pb_decode.c: field decoders and `allocate_field`
--   Nanopb.MessageDecode  pb_decode.c: arrays, pointers, callbacks, extensions, `pb_decode`, and the
--                       defaults and the release of a message
--   Nanopb.RoundTrip    what the encoder wrote, read back by the decoder
--   Base64              fbase64.c: `f_b64_ntop`, `f_b64_pton`
--   Chess.Piece         ChessFigure/PieceType.swift and Piece.swift: kinds, colors, pieces, crashes
--   Chess.Board         ChessFigure/GameData.swift: `boardA`, `initBoardA`, `GoTo`, `kill`
--   Chess.Int           integers: coordinates on the way, and the numbers of a saved game
--   Chess.Moves         GameData.swift: `CanGoTo` with its loops, `canKill`
--   Chess.Game          Controllers/TwoPlayerGame.swift: `startNewGame`, and `check` of GameData.swift
--   Chess.Saves         DataService.swift: `saveGame`, `loadGame`
--
-- A C function that returns false is a function whose result is `none` (a reader) or `false` (a
-- writer), beside the stream it leaves; PB_RETURN_ERROR keeps the first message. An `n`-bit number
-- is a natural number below 2 ^ n, a signed one its bit pattern, and every shift that can lose bits
-- is reduced by `%`; the bytes left of a stream are a size_t, from which `minus_size` subtracts. An
-- int that is returned is its bit pattern, and `none` where it is -1 for an error. A stream over a
-- buffer holds the bytes from the pointer on (input) or before it (output); the callbacks of other
-- streams are parameters.
--
-- A message struct is memory, a function from addresses to bytes, with little-endian numbers and
-- pointers of 8 bytes. `Env` holds it with the field tables at their addresses and the user's
-- functions for callback fields and extensions, which are parameters; `DecodeEnv` has the tables and
-- functions of the decoder, `realloc` and `free` among them. The decoder's Descriptor, Input, Varint,
-- Decode and Iter are used by MessageDecode as the C functions call each other: `decode_round` reads a
-- tag, finds its field and calls `decode_field`, which decodes by the allocation of the field.
--
-- The dictionary of a chess board is a function from numbers of squares to pieces, if any. A Swift
-- function that can crash, by a forced unwrap of nil or a forced cast, returns a `Result`: `err crash`
-- there, and `err stuck` where a loop runs out of fuel. The arguments of `CanGoTo` and the others are
-- natural numbers, as the game calls them with `row * 8 + col`; a coordinate on a diagonal can be
-- below 0. `Game.turn` is a round of the loop of `startNewGame`, which calls `CanGoTo`, `canKill`,
-- `GoTo`, `kill` and `check` as the Swift code does; the taps that the semaphore waits for are a
-- list, each of them taken before the next one comes, and a round whose taps run out gives nothing.
-- `Game.Steps.Step` is a move by the rules, which the rounds are compared with. The node of a saved
-- game is that of a `Database`, a parameter, whose laws are that what was written last under a key is
-- read there; `load_game` is what `loadGame` does with one child of "saves".
--
-- Fuel: the loop of `pb_decode_varint` runs at most ten times, and its eleventh test fails, so it
-- has 11; the loop of `pb_encode_varint` divides by 128, so the value is fuel enough; the loops
-- that read a byte in each round have the bytes left and one more. `encode` has fuel for the
-- nesting of submessages and the length of extension lists, and a run that needs more fails; so has
-- `decode_noinit`, whose defaults and release go as deep as the fuel and no deeper. The loops over
-- the fields of a message have their number. The loop of `pb_decode_noinit` reads a tag in each
-- round, and those over packed arrays an item, so they have the bytes left and one more. So has
-- that of `decode_callback_field`, which is enough for a callback that reads a byte each time; with
-- one that reads nothing and returns true the C loop runs forever, and the model fails. The loop
-- along a diagonal of the board has 10 rounds: each ends at the target, at a piece or off the board,
-- and the board has 8 rows. The digits of a number are fewer than the number and one.
--
-- Not modelled: the screens of the Swift application (what is drawn, buttons, sign-in, the list
-- of games) and the calls of Firebase that only pass a value on; the four-player game, which
-- waits for the moves of others by polling the database; the classes of Code/MyIVR/ChessFigure
-- that the game does not use (DefaultFigure, Rook, Pawn, Knight, Board); the other pods,
-- vendored libraries in other languages; and the descriptor tables that the protocol buffer
-- compiler generates, which are the `fields` argument of the encoder and the decoder.
pub mod Base
pub mod Nanopb
pub mod Base64
pub mod Chess
