-- ===== src/Lib.antt =====
-- sipster, a SIP stack: a model of its messages, headers, session descriptions and call legs, and what
-- is proved of them.
--
-- A datagram is parsed into a request or a response (src/sip.cpp): the first line, then header lines,
-- each parsed by the function that a table gives for its name (src/sip_headers_private.h and
-- src/sip_headers.cpp), then a body. The headers of a message form a list with shared metadata. The
-- dialog layer (src/sipster.cpp) finds the call leg of a message by its Call-ID and a tag, or creates
-- one. A request is answered by copies of its headers, and messages are printed for sending.
--
-- Base: native numbers, lists, byte strings and the outcomes of code that may fault. A C string is the
--   list of the bytes before its NUL; `Exec` has a value or a memory fault (a write or a read past a
--   buffer, a NULL or freed pointer, a `free` of what is not allocated).
-- Memory: `sipster_allocator` and `sipster_free` of src/utils.cpp, as a heap of objects at addresses;
--   Freeing says what a sequence of frees does.
-- Text/Token: `nextToken`, `getRest` and the trims of src/utils.cpp and src/sipster/utils.h.
-- Text/Number, Text/Buffer, Text/Regex: what the source uses of the C and C++ libraries: `strtol` and
--   its kin, `%u`, the forms of `strncpy` and `snprintf`, and `std::regex_match` by derivatives.
-- Text/Uuid: `sipster_generate_uuid`; the UUID library is the parameter `UuidLibrary`.
-- Sip/Enums, Sip/Status: src/sipster/sip_enums.h.
-- Sip/Inet: src/base.cpp, on a little-endian machine; `getaddrinfo` is the parameter `Resolver`,
--   `inet_pton` the parameter `Pton`.
-- Sip/Parameter: `parse_header_params`, the parameters' print loop, `sipster_sip_parameter_get`,
--   `sipster_sip_header_append_parameter` and `sipster_sip_parameters_clone`.
-- Sip/Address: `sipster_address_parse_inPlace`, `sipster_address_parse` and the two prints.
-- Sip/Header: the structures and the table; Parse, Print and Clone have the functions of the table.
-- Sip/Chain: `sipster_sip_append_new_header`, `sipster_sip_get_header`, `firstHeader`, `lastHeader`.
-- Sip/Message: the structures of src/sipster/sip.h; Line has the first lines, Parse
--   `sipster_sip_request_parse` and `sipster_sip_response_parse`, Print `sipster_sip_request_print` and
--   `sipster_sip_response_print`, Respond `sipster_sip_request_create_response`.
-- Sip/Objects: the leaves, metadata, headers and parameters of a message as objects in memory:
--   `sipster_sip_append_new_header`, `sipster_sip_get_header`, `sipster_sip_header_destroy` and
--   `sipster_sip_header_append_destroy`. Sip/Chain is the list that these objects stand for.
-- Sdp/Types: the structures of src/sipster/sdp.h and src/sipster/sdp_headers.h, and the enumerations.
-- Sdp/Attribute: the attributes of src/sdp.cpp with the table of src/sdp_private.h.
-- Sdp/Header: the headers of a session description: the table, `sipster_sdp_parse_header` and the parse
--   functions; Print and Clone have the print and clone functions.
-- Sdp/Session: `sipster_sdp_parse` and `sipster_sdp_print`.
-- Sdp/Objects: a session description in memory: `sipster_sdp_destroy`, `sipster_sdp_destroy_header`,
--   `sipster_sdp_header_destroy`, `sipster_sdp_print_header`, and the copies that share an attribute.
-- Dialog: the maps of call legs and their creation; Lookup has `sipster_get_call_leg_for_request` and
--   `sipster_get_call_leg_for_response`, Template `sipster_sip_request_create_template` of src/sip.cpp;
--   `inet_ntop` is the parameter `Ntop`. Runtime has the sends, and the replies of src/sip.cpp, Process
--   `sipster_process_request`, `sipster_process_response`, `sipster_sip_message_handler` and
--   `udp_receive`; the handlers of the application are the parameter `Application`, and what is sent is
--   a list of jobs. Table is the abstract table of legs, Reach the states that are reached. Library has
--   `sipster_init`, `sipster_deinit` and `sipster_sip_call_leg_create_default`; what libuv returns is
--   the parameter `Libuv`.
-- Tests: runs on concrete datagrams, and the theorems applied to them.
--
-- Fuel: the loops over header lines and over parameters take one more than the length of their input.
-- Each round but the last takes at least a byte of it, so the fuel is never used up. Printing a number
-- takes 20 digits, which is enough below 10 ^ 20, and the widest number of the code has 64 bits.
--
-- The loops that search and free leaves and parameters have more fuel than addresses were given out.
--
-- Sizes of structures that bound a print or a copy are those of a 64-bit machine with integers of four
-- bytes. The loops over the lines of a session description and over payload types have fuel in the same
-- way as those over header lines.
--
-- Not modelled: the event loop and the sockets of src/sipster.cpp, the log. A datagram is handled at
-- once and to its end: the event loop calls the message handler from one thread. Outside Sip/Objects,
-- Sdp/Objects and Dialog/Library, freeing is modelled for the request that a refused parse returns and
-- for call legs, and what two objects share does not show in the values: a response with two To headers,
-- which would share one tag parameter in the code, has a tag in each. Running out of memory is not
-- modelled: the code does not test for it.
pub mod Base
pub mod Memory
pub mod Text
pub mod Sip
pub mod Sdp
pub mod Dialog
mod Tests
