-- ===== src/Lib.antt =====
-- Verification of the RA8M1 provisioning tool, a Python program that provisions Renesas RA8M1
-- microcontrollers: it merges and programs firmware images over the chip's serial boot mode, and
-- signs with keys of a cloud key service, which a crypto broker guards. Four parts are modelled.
--
-- Device: programming the flash.
--   Device/Region   the memory map and address helpers of device/ra8_srec_programmer.py
--                   (`_remap_alias`, `_classify_region`, `_range_check_block`, `_align_down`, `_align_up`)
--   Device/Merge    `_merge_contiguous_blocks`
--   Device/Phrase   the phrases of `_write_block_in_phrases_aligned`
--   Device/Serial   the port and the packets of device/ra8_provisioning_client.py (`_calc_sum`,
--                   `_receive_data_packet`, `_decode_status_packet`)
--   Device/Command  `_command_erase`, `_command_write`
--   Device/Boot     the handshake, the queries, `_dlm_state_transition` and `initialize_device`
--   Device/Program  `program_srec_file` from the parsed blocks on
-- The children state the meaning of each: Merge/Image the bytes that a list of blocks puts at each
-- address, Merge/Sorted and Merge/Overlap the two branches of merging, Phrase/Cover the phrases,
-- Command/Frames the packets of a command, Program/Sent, Program/Image and Program/Correct those of a
-- whole run, Program/Erase the erased range.
-- A block is an address and its bytes, numbers are natural numbers and bytes are numbers; the port is
-- the sequence of what the device will send and a record of what was written. The loop that sends the
-- packets of a write runs on fuel, the length of its data, of which each round takes a byte or more.
--
-- Broker: the service that holds the credentials of the key service, in security/broker/.
--   Broker/Text, Broker/Json, Broker/Base64, Broker/Glob   what the broker uses of Python's library
--   Broker/Exn      exceptions.py
--   Broker/Policy   authorization.py, and the identity of auth.py
--   Broker/Session  service/session.py: a store of session objects, and the dictionary of the manager
--   Broker/Service  the state of the service, the actions on it, and the client of the key service
--   Broker/Backend  service/kms_backend.py
--   Broker/Handler  service/handler.py: all methods, the dispatch and the error replies
--   Broker/Framing  `read_message` and `write_message` of protocol.py
-- Children: Policy/Laws, Glob/Matching, the invariant of the manager in Session/Kept, Session/Created,
-- Session/Cleanup and along requests in Handler/Kept, the calls of the key service in Handler/Calls.
-- A request is one step: it takes the state of the sessions and the calls that were made of the key
-- service so far, and gives a response and the state after it, as the manager's lock and the order of
-- requests have it. The client of AWS KMS is a parameter. The random tokens of session identifiers are
-- a sequence that the state holds; where it ends, the model says that the loop goes on.
--
-- Pkcs11: the PKCS#11 library through which clients use the broker, in security/broker/pkcs11/.
--   Pkcs11/Types            what is used of types.py
--   Pkcs11/Table            dictionaries that are keyed by handles
--   Pkcs11/Session          `Session` of session.py: login, signing, verification, digests
--   Pkcs11/Session/Objects  its attributes, search, key generation and registration of keys
--   Pkcs11/Token            `Slot` of token.py
--   Pkcs11/Library, Pkcs11/Library/Calls   `BrokerPKCS11Lib` of lib.py
-- Children: Session/Calls the sequences of calls of a session, with the invariant in Valid and
-- Keeps, the abstract signing operation in Quiet and Signing, whole operations in Signed and the
-- search in Pages and Search; Library/Found, Library/Slots, Library/Good, Library/Keeps, Library/Asks
-- and Library/Steps the library along its functions, Library/Apart sessions side by side. The broker is a parameter here: a function from a
-- method, its parameters and a state to the answer, none for any failure on the way, and the next
-- state. What it answers is not assumed.
--
-- Srec: files of S-records, as the lines of the file.
--   Srec/Hex      what is used of Python's hexadecimal texts
--   Srec/Parse    `_parse_srec_file_strict` of device/ra8_srec_programmer.py
--   Srec/Manager, Srec/Manager/Offset   utils/srec_manager.py
--   Srec/Program  `program_srec_file`, `_collect_osm_srec_records` and `program_osm_from_srec` of
--                 device/ra8_srec_programmer.py
-- Children: Hex/Written what the readers make of texts that were written, Manager/Records the
-- records of a block, Manager/Files and Manager/Coalesced whole files, Manager/Injected a key over a
-- record, Manager/Offset/Moved files with an offset, Program/Programmed a run from the file to the
-- port, Program/Windows the option-setting memories. Characters are ASCII codes. How Python reads a
-- number in base 16 (blanks, a sign, `0x`, underscores) is modelled; the texts of errors are not.
--
-- Not modelled: the combiner of SREC files, the connection loop of the daemon, and what is input and
-- output or runs other programs: the command line, files, sockets, pipes and the Windows service,
-- the key service's clients, imgtool (a copy of MCUboot's), SKMT, PGP and DLM exchanges. Letter case
-- is that of ASCII, the parameters of a request are texts, and one request reads the clock once.
pub mod Prelude
pub mod Device
pub mod Broker
pub mod Pkcs11
pub mod Srec
