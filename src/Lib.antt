-- ===== src/Lib.antt =====
-- The Astarte device SDK for Zephyr: a model of the parts of lib/astarte_device_sdk that compute on
-- their own, and the theorems about them. A device announces its interfaces to an Astarte server
-- (introspection.c), checks the paths and values that it is asked to send against the mappings of
-- those interfaces (validation.c, interface.c, mapping.c), writes the values as BSON documents
-- (data/serialize.c, object.c, bson/serializer.c), reads the documents that the server sends
-- (bson/deserializer.c), keeps messages in storage until they can be sent (storage/trans.c), and
-- waits between attempts to connect (backoff.c).
--
-- Parts and files:
-- - Prelude: numbers, lists and words of 32 and 64 bits, with the wrap-around written out.
-- - Result: include/astarte_device_sdk/result.h, the error codes. `Outcome` is what a fallible
--   function yields: a value with success, an error code, `fault` for an access outside the memory
--   that the function may touch, `stuck` for a loop that used up its fuel. `Returns` and `Settles`
--   say that a function ends, and rule both out.
-- - Backoff: backoff.c, a context as a record, each function on an optional one (NULL); the draw of
--   `sys_rand32_get` is an argument. Backoff.Bounds and Backoff.Growth hold its theorems.
-- - Bson.ByteOrder: `sys_get_le32` and its kin, an interface with the laws of little-endian words.
-- - Bson.Memory: memory is one sequence of bytes and a pointer an index into it.
-- - Bson.Deserializer: bson/deserializer.c, function by function under the source's names. The loops
--   run on fuel: an element takes two bytes at least, so the size of the list is enough rounds, and
--   the theorems show that none gets stuck. Bounds, Walk and Validity hold the proofs.
-- - Bson.Serializer: bson/serializer.c. The byte array is the bytes written so far with its
--   capacity; a write past the capacity is a fault; an argument tells which blocks the allocator
--   grants. The macro of the array functions is the one definition `append_array`. Format states
--   the BSON format on its own, Append, Fields and Arrays that each function writes it.
-- - Data: data/serialize.c and the serialization of object.c over the tagged union of
--   include/astarte_device_sdk/data.h; Data.Encoding has the bytes that a value stands for,
--   Data.Elements and Data.RoundTrip read them back.
-- - Mapping: mapping.c. Strings are their bytes before the terminator. The loop of `check_path`
--   runs on fuel, one round for a byte of the path at least. Mapping.Path describes the accepted
--   paths on segments, Mapping.Types the values and types that agree.
-- - Interface: interface.c; Interface.Lookup says which mapping is found.
-- - Validation: validation.c; Validation.Accepted describes what it accepts.
-- - Introspection: introspection.c. Introspection.Nodes is the interface to the doubly linked list
--   of Zephyr. Find, Updates, Names and Reachable treat the introspection as a map from names;
--   Text and Filling treat the announced string. `get_digit_count` has fuel for ten digits, which
--   a number of 32 bits does not exceed.
-- - TransQueue: device/transmission_queue.c and transmission_queue_msg.c. TransQueue.Message has the
--   messages and their copies, Parts what the operations are put together from, Kernel the
--   interface to `k_msgq` of Zephyr. Backlog is the specification: one list of entries, in the order
--   of their sequence numbers; Abstraction says when the three kernel queues and the storage hold
--   it, Insertion and Refinement what an insertion into a queue of the kernel does to it, Oldest,
--   Removal and Clearing what the other operations do. Examples fills the calls of the storage with
--   TransStorage.Access on a list. The loops of `clear` have fuel for the messages of one place.
-- - Session: device/session_manager.c, with the callbacks of device/dispatcher.c that change the
--   connection. Session.Poll has the handlers of the states, Publishing what they send, TopicText
--   the topics of device/core.c, Surroundings the interface to the rest of the device. Invariant,
--   Connected, Sent and Handshake hold the theorems. The loop of `disconnect` runs on the devices that
--   its rounds see.
-- - Dispatcher: the topics of device/dispatcher.c, and where an incoming message goes.
-- - TransStorage: storage/trans.c. `get_indexes` stands on an interface for the iterator of
--   key_value/, its fuel is the number of keys in the namespace; Access has push, peek, get and
--   discard over an interface for the entries of key_value/, Format the bytes of a message, in the
--   order of a little-endian target, RoundTrip reads them back, and Truncated treats those cut short.
-- - Worker: what the worker thread of device/core.c does for the transmission, over TransQueue and an
--   interface for the introspection, the dispatcher and the clock. Discards, Order, Drained and
--   Pacing hold the theorems.
--
-- How they interact: Data calls the functions of Bson.Serializer; Interface asks Mapping for the
-- paths of its mappings; Validation asks both; Introspection asks Interface to validate, and
-- compares mappings; Session asks Introspection for the string, Bson.Serializer for the
-- capabilities and Backoff for the delay, and Dispatcher reads the topics of Session. The
-- allocator, the list of Zephyr, byte order, `isfinite`, the key-value iterator, the queues of the
-- kernel and the MQTT client are parameters.
--
-- Sizes are those of a 32-bit target: `size_t` has 32 bits. Doubles and signed numbers are bit
-- patterns. Logging is left out.
--
-- Threads: a call of the user, a round of the loop of `disconnect` and a poll or a pass of the worker
-- thread are steps, one after the other; what happens where two of them overlap is not modelled.
--
-- Not modelled: the reading of values by type (data/deserialize*.c) and of objects;
-- device/core.c but for the topics, the tokens and the pass over the transmission queue;
-- device/datastreams.c, device/properties.c and device/properties_storage.c; mqtt/;
-- the entries of key_value/ and the other files of storage/; and pairing/, http.c,
-- tls_credentials.c, crypto.c, device_id.c and alloc.c, which mostly call Zephyr and mbedTLS.
-- Whether the storage reads back, in order, what `push` wrote is left to the key-value store: the
-- theorems on the transmission queue speak of what the storage yields in the state it is in.
pub mod Prelude
pub mod Result
pub mod Backoff
pub mod Bson
pub mod Data
pub mod Mapping
pub mod Interface
pub mod Introspection
pub mod TransStorage
pub mod Validation
pub mod TransQueue
pub mod Session
pub mod Dispatcher
pub mod Worker
