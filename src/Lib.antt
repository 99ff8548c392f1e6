-- ===== src/Lib.antt =====
-- async_mqtt (https://github.com/redboltz/async_mqtt): the MQTT protocol machine of
-- include/async_mqtt/protocol, which turns calls of the application and bytes of the peer into
-- packets to send, packets to hand over, timer operations and errors, without any input or output
-- of its own.
--
-- Util models include/async_mqtt/util. Util/ValueAllocator is value_allocator.hpp: vacant values as
-- ordered intervals. Its container is a Boost multi_index with one ordered unique index, a parameter
-- that MultiIndex describes; its children describe the intervals and the set of vacant values.
-- Util/VariableBytes is variable_bytes.hpp, the variable byte integer, and Util/TopicAliasRecv is
-- topic_alias_recv.hpp, which fills an interface of the connection in Protocol/TopicAliases.
-- Util/Utf8 is utf8validate.hpp, with Utf8/CodePoints for the code points it accepts, and
-- Util/EndianConvert is endian_convert.hpp. Texts and buffers are lists of bytes.
--
-- Protocol/PacketIdManager is impl/packet_id_manager.hpp over the allocator; it fills the interface
-- Protocol/PidManager, which the connection is built on. Protocol/Store is impl/store.hpp with
-- packet/store_packet_variant.hpp: the packets kept until they are acknowledged, over a Boost
-- container that is a parameter. Protocol/Packet has the packets, packet_traits.hpp and the topic
-- alias operations of impl/v5_publish.ipp; Protocol/Event the reports of a connection;
-- Protocol/PidSet the sets of identifiers. Protocol/Builder is recv_packet_builder of
-- impl/connection_impl.ipp, which cuts the byte stream into packets.
--
-- Protocol/Codec is protocol/packet: Result for what a parser reports, where `fault` is a read outside
-- of the buffer; FixedHeader for control_packet_type.hpp; Fields for copy_to_static_vector.hpp and the
-- length-prefixed texts; PublishHeader for pubopts.hpp; ConnectFlags for connect_flags.hpp; PropertyId,
-- PropertyLocation and Property for the properties of v5. V311 and V5 have the packets of the two
-- versions: print_* is a constructor from the fields with const_buffer_sequence, make_* the checks of
-- that constructor, parse_* the constructor from a buffer, and n the bytes of a packet identifier.
-- V5/Section is a property section, V5/Reason the optional reason code and properties that end an
-- acknowledgement, a DISCONNECT or an AUTH. Variant is buffer_to_packet_variant.ipp; Variant/Wire puts
-- it behind the packet builder. Safety says which parsers stay inside their buffer, Progress that
-- their loops take bytes in each round.
-- Protocol/TopicSharename is topic_sharename.hpp.
--
-- Protocol/Connection is basic_connection_impl. A state `Conn env` holds the fields of the class and
-- the events reported so far, the newest first: on_send, on_receive, on_error, on_close, on_timer_op
-- and on_packet_id_release each put one in front. An `Env` holds what a connection is built from:
-- its role, the identifier manager, the container of the store, the topic alias tables, the size of
-- a packet and the packet codec. Protocol/Connection/Send is connection_send.ipp, with the steps of
-- a publish packet in Send/Publishing as a monad whose steps stop or go on; Protocol/Connection/Recv
-- is process_recv_packet and notify_timer_fired, with a child per kind of packet. The other children
-- of Protocol/Connection hold theorems, each named for what it is about; Gate has the tables of the
-- protocol that a connection's checks are compared with.
--
-- Fuel and bounds: the loops over the characters of a text, the properties of a section and the
-- entries of a packet run on fuel that is the length of the buffer; each round takes at least a byte.
-- val_to_variable_bytes runs on fuel 4, and a value up to 0xfffffff has at most four
-- groups of seven bits. The loop of for_each runs as often as the store has packets. Identifiers are
-- 32-bit numbers with their wrap-around; the theorems on the allocator ask for a largest value below
-- the largest 32-bit number, as 16-bit identifiers have. publish_send_count_ wraps at 16 bits.
--
-- A BOOST_ASSERT is compiled out in the operations, as with NDEBUG: what it asks of a caller is a
-- hypothesis where a theorem needs it. The one in the middle of allocate is allocate_asserts, and
-- checked_allocate is allocate with it compiled in. A BOOST_ASSERT(false) in front of the value of an
-- empty optional is a `fault`.
--
-- Not modelled: sizes of packets and the decoder inside the connection (parameters of its Env; the
-- decoder itself is Protocol/Codec), comparison and stream output of packets, the topic alias table
-- for sending (an interface; the tests use a table with one entry), logging, the asynchronous layers
-- under asio_bind, the tools and the broker.
mod Prelude
pub mod MultiIndex
pub mod Util
pub mod Protocol
mod Tests
