-- ===== src/Lib.antt =====
-- saltpack: a message format for encryption, signing and signcryption on top of NaCl. A message is
-- a header packet and then block packets; each mode is a pair of streams, a writer that cuts the
-- plaintext into blocks, and a reader that gives the plaintext block by block.
--
-- The parts of the program and the files that model them:
-- - encoding/basex (encoding.go, bases.go, EncodeToString and DecodeString of stream.go): Basex, with
--   decoding in Basex/Decoding, proofs in Basex/Lengths, Basex/Blocks and Basex/RoundTrip, and
--   computed roundings in Basex/Exact; Radix has the numerals. The encoder of stream.go is
--   Basex/Streaming, whose invariant is in Basex/Streaming/Writes. The two float64 results that the
--   code truncates are a parameter, `Rounding`, of which `IsRounding` says that they are exact.
-- - chunk_reader.go: ChunkReader, over any `getNextChunk`; ChunkReader/Laws has io.ReadAll over it.
-- - const.go, errors.go: Const, Errors. A call is a `Result`: a value, an error, or a panic. A call
--   on a mutable object is a `St` (State): it also returns the object's new state, on errors too.
-- - packets.go, msgpack.go: Packets. The codec (go-codec) is a parameter, `Codecs`, with its laws in
--   `IsLawful`: what is encoded is decoded, whatever follows it.
-- - key.go: Key, with NaCl's operations (`Crypto`, `BoxKeys`, `SigningKeys`) as parameters, and what
--   the program relies on as laws.
-- - common.go: Common, Common/Chunks. nonce.go: Nonce, Nonce/Unique.
-- - The buffers of encrypt.go and sign_stream.go: Blocks, with Blocks/Cut on how a message is cut,
--   Blocks/Layout on the blocks on the wire, Blocks/Writer on a series of writes, Blocks/Closer on
--   Close in either version, and Blocks/Reader on reading such a layout back.
-- - sign.go, sign_stream.go: Sign; Sign/Stream has one block, Sign/Runs one write and Close, and
--   Sign/Streaming a series of writes.
-- - verify.go, verify_stream.go: Verify, Verify/Stream, Verify/RoundTrip.
-- - rand.go: Rand, with Rand/Bounds and Rand/Ends on a draw. csprngShuffle and the shuffles of the
--   receivers of encrypt.go and signcrypt_seal.go: Shuffle, Shuffle/Swap, Shuffle/Permuted.
-- - encrypt.go: Encrypt, with Encrypt/Receivers on the check of the receivers, Encrypt/Entries on the
--   boxes of the header, and Encrypt/Runs and Encrypt/Streaming on the blocks. decrypt.go: Decrypt,
--   with Decrypt/Header for the header, Decrypt/Blocks and Decrypt/MacKeys; Decrypt/Chunks reads a
--   message's blocks, Decrypt/Visible and Decrypt/Senders its header, and Decrypt/RoundTrip the whole.
-- - signcrypt_seal.go: Signcrypt/Keys for the receivers' keys and Signcrypt/Sealing for the stream.
--   signcrypt_open.go: Signcrypt/Finding for the search for the payload key and Signcrypt/Opening
--   for the stream. Their proofs are in the other files of Signcrypt.
-- - frame.go: Frame, Frame/Words, Frame/RoundTrip. The encoder of armor.go: Armor, with Armor/Spacing
--   on the separators and Armor/Whole on a series of writes. NewArmor62EncoderStream, Armor62Seal
--   and CheckArmor62 of armor62.go: Armor62.
-- - punctuated_reader.go: PunctuatedReader, over any reader; PunctuatedReader/Laws has its invariant
--   and what remains to be read, PunctuatedReader/Reading and PunctuatedReader/Segments one Read, and
--   PunctuatedReader/Until the search for the punctuation.
-- - Tests holds the theorems at concrete inputs, over a small codec and toy cryptography that meet
--   the laws.
--
-- A byte string is a list of numbers, and a number of the program a native number with its
-- wrap-around written out. The writer under a stream takes all that it is given. Loops on fuel:
-- `encode_loop`, `decode_loop`, `read_loop`, `drain`, `interior` of the stream encoder and
-- `space_and_output_buffer` are called with as many rounds as there are bytes, and each round takes
-- one at least. `csprng_loop` is called with one round more than there are bytes, and
-- `read_until_loop` with one round more than the limit, since a round that goes on adds a byte.
-- `read_all` takes the fuel as an argument. Slices are values: the punctuated reader keeps slices of
-- its callers' buffers, and the model takes them not to be overwritten in between. The regular
-- expression and the trimming of frames are written out for bytes below 128.
--
-- Not modelled: the decoder of armor.go and what the armor62 files build on it, the classifier, the
-- decoder of stream.go, the public wrappers that only pass the system's randomness, and the sample
-- keyring of basic/. In the streams the shuffle is a parameter (`EncryptRng`, `SigncryptRng`).
pub mod Base
pub mod Const
pub mod Errors
pub mod Radix
pub mod Basex
pub mod ChunkReader
pub mod State
pub mod Packets
pub mod Key
pub mod Nonce
pub mod Common
pub mod Blocks
pub mod Sign
pub mod Verify
pub mod Rand
pub mod Shuffle
pub mod Encrypt
pub mod Decrypt
pub mod Signcrypt
pub mod Frame
pub mod Armor
pub mod Armor62
pub mod PunctuatedReader
pub mod Tests
