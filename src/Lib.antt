-- ===== src/Lib.antt =====
-- A model of the OpenPGP card driver, the key files and the secrets of hawkes (cunicu/go-skes), with
-- the theorems that make them correct.
--
-- The program derives secrets from keys that are kept in tokens or files. internal/iso7816 has the
-- wire formats of smart cards: BER-TLV data objects and status codes. internal/openpgp drives an
-- OpenPGP card over the scard library: it frames commands, collects the parts of an answer, and decodes
-- the data objects of the card with internal/iso7816. ecdh has the public and private keys: in software,
-- on a PKCS #11 token, and in the Secure Enclave. provider has the sources of keys behind one
-- interface: the files of a directory with software keys, a YKOATH applet, the Secure Enclave, and
-- several sources joined into one. handshake and hmac turn keys into shared secrets and one-time
-- passwords, and cmd is a command line for the keys of the Secure Enclave.
--
-- Files and code:
--   Prelude      shared notation: byte slices, the outcome of a Go call (value, error, panic, or
--                the end of the model's fuel), calls that change a state (Exec) and what holds
--                after them (Post), lists up to order (Bag), bit masks as arithmetic, decimal
--                numerals, and Sscanf of package fmt (Scan).
--   Iso7816      internal/iso7816. Tag: tag.go. Tlv: ber_tlv.go (EncodeTLV, DecodeTag,
--                DecodeLength, DecodeTLV, DecodeCompactTLV). Status: error.go. Instructions:
--                constants.go. Header, RoundTrip, Length, Truncation and Ends have theorems on
--                them.
--   Openpgp      internal/openpgp. Constants and Tables: constants.go. Errors: error.go. Apdu,
--                Reader, Card and Queries: card.go. Objects, Templates and Application: objects.go.
--                Framing (with an independent reader of ISO 7816-3 commands), Chaining (with a
--                relation for the answers of a card in parts), Commands, Listing and SharedSecret
--                have the theorems on card.go; Loops, Containers, Codec, Historical, Keys and
--                Totality those on objects.go.
--   Provider     provider. File and Store: provider/file.go, what reads and what changes the
--                directory. Lookup, Listing, Creation, Lifecycle and Order have theorems on it.
--                Session: the calls of that provider in a row, with the store of files by name that
--                they are to be; its View and Changes have the files of a directory, Search and
--                Ends the ends of the loops, and Refinement the theorem. FileKey: an opened key, on
--                top of Ecdh.Software. Ykoath: provider/ykoath.go; its Behaviour has the documented
--                behaviour of the applet, Calls the store that the provider is to be, and
--                Refinement the theorem. Multi: provider/multi.go, with Devices, Joined, Laws and
--                Registry (what is registered when the program starts); Sources has the sources of
--                files and of a card that keep to the promise there. Slots: provider/openpgp.go,
--                piv.go, pkcs11.go and tpm2.go. Applese: provider/applese.go, on top of
--                Ecdh.Applese; its Keychain has the documented behaviour of the Security framework
--                with the references that the program owns, Ownership how they come and go, Search,
--                Opening and Deletion the theorems.
--   Handshake    Chained: handshake/handshake_chained.go. Oath: handshake/oath.go and hmac/oath.go.
--                Protocol: handshake/protocol.go. Key: handshake/key.go. Texts has the theorems on
--                the last two. Noise: handshake/noise.go and handshake/pipe.go, with NoiseTrace.
--                CardKey: the handshake of oath.go with a key of a YKOATH applet.
--   Ecdh         PublicKey: ecdh/public_key.go. Software: ecdh/sw, ecdh/keypair.go and the stubs in
--                ecdh/openpgp and ecdh/tpm2; Exchange has theorems on it. Pkcs11:
--                ecdh/pkcs11/pkcs11.go, with Sessions and Noise. Applese and Applese.Device:
--                ecdh/applese, with Balance and Leaks. Check: internal/test/ecdh.go.
--   Cmd          cmd/cmd.go.
--   The modules whose names end in Runs apply the theorems at concrete inputs.
--
-- Conventions. Numbers are natural numbers; a conversion to a byte is written `% 256`. A method
-- with a pointer receiver is a function from the receiver's state to the state after it and the
-- outcome, so that what an error leaves behind is part of the model. An index or a slice out of
-- range is a panic. Parameters are the reader behind scard (a state, Reconnect and Transmit), the
-- elliptic curves, SHA-256, BLAKE2b and the keyed hash, the names of nyquist's algorithms with the
-- texts of durations and base64, the state machine of nyquist, and the order in which a loop runs
-- over a map; and the libraries of the devices, each a record of calls on a world of its own:
-- go-ykoath, p11, go-tpm with os.Stat, and Apple's Security framework. What a theorem takes of
-- their documented behaviour is a record of laws beside the theorem, which a value in a Runs or
-- Sample module meets.
--
-- Fuel. The loops over data objects have the length of their input as fuel; a round takes two
-- bytes. The loops of communicate and getAllData go on as long as the card says: their fuel is a
-- parameter, and the theorems on them say how much is enough for a card that stops. So for the
-- messages of a Noise handshake, and for the deletions of a key in the Secure Enclave, which go on
-- as long as the framework says. The search for devices ends in its first round.
--
-- Not modelled: log lines and warnings; concurrent calls on one card; the file system beyond one
-- directory of files with distinct names, and labels with a separator, which name files elsewhere;
-- float rounding in the counter of a time, which is taken for whole seconds; the constructor of
-- hmac/oath.go, which only stores its arguments; Key.PrivateKey, which always fails; and the texts
-- of the errors of Core Foundation.
pub mod Prelude
pub mod Iso7816
pub mod Openpgp
pub mod Provider
pub mod Handshake
pub mod Ecdh
pub mod Cmd
