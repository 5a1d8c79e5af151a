-- ===== src/Lib.antt =====
-- Verification of the core of fengnet, an actor framework in C++ whose services exchange messages.
--
-- A service (a context) owns a message queue. Senders push messages to it; a queue with work stands
-- in the global queue, from which worker threads take queues and dispatch their messages. The timer
-- thread advances a timing wheel and pushes a response message for each timer that is due.
--
-- Modules and the code they model:
-- - Base: shared names, Boolean tests on numbers, arrays as lists, and the laws of `&` and `|` with
--   masks at every width.
-- - Mq: fengnet-src/fengnet_mq.cpp and fengnet_mq.h. `MessageQueue` is `message_queue`; `enqueue` is
--   `fengnet_mq_push` up to its test of `in_global`, `mq_pop` is `fengnet_mq_pop`, `expand_queue` and
--   `drop_queue` keep their names. Mq.Global holds the queues by address with the intrusive list of
--   the global queue: `globalmq_push`, `globalmq_pop`, `mq_push`, `mq_mark_release`, `mq_release`.
-- - Chains: linked lists in a store of nodes, for the global queue and the id table.
-- - Server: fengnet-src/fengnet_server.cpp and fengnet_server.h, the contexts of a node with their
--   reference counts: `context_grab`, `context_release`, `context_push` and so on are
--   `fengnet_context_grab` and so on. Server.Harbor is fengnet_harbor.cpp; Server.Send is `fengnet_send`
--   with `_filter_args` of fengnet.cpp, whose buffers are listed as they are made and deleted;
--   Server.Dispatch is the loop of `fengnet_context_message_dispatch`, with the callbacks and the memory of
--   the services, which only they change, as parameters, and Server.Dispatch.Next the function around it.
-- - Monitor: fengnet-src/fengnet_monitor.cpp.
-- - Timer: fengnet-src/fengnet_timer.cpp, fengnet_timer.h and spinlock.h. Functions keep their names;
--   the loop of `add_node` is `find_level`, that of `timer_shift` is `find_cascade`.
-- - Handle: fengnet-src/fengnet_handle.cpp and fengnet_handle.h, the names of services. `search_name`
--   is the loop of `fengnet_handle_findname` and `_insert_name`; `findname` and `namehandle` are
--   `fengnet_handle_findname` and `fengnet_handle_namehandle`.
-- - Handle.Slots: the same files, the slots. `handle_register`, `handle_grab`, `handle_retire` and
--   `handle_retireall` are `fengnet_handle_register` and so on; `scan`, `rehash` and `retire_names` are
--   the loops inside. Handle.Slots.Reach is a step relation over the operations on
--   the storage, of which a registration is one for which the table need not grow.
-- - Databuffer: service-src/databuffer.h, the bytes of a connection that are not yet cut into packets.
--   Functions keep their names; the loop of `databuffer_read` is `read_loop`. The chain of messages
--   is a list, the pool two numbers.
-- - Gate: service-src/service_gate.cpp, `_forward` as `forward` and `dispatch_message` with its loop
--   `dispatch_loop`. What it sends and closes is a list of effects; its log lines are left out, and
--   `snprintf` is a parameter.
-- - Gate.Sockets: the same file, the table of connections: `dispatch_socket_message`, the case
--   PTYPE_CLIENT of `_cb` as `client_message`, `_forward_agent`, the command `close` of `_ctrl` as
--   `close_listening`, `gate_release`, and what `gate_init`
--   allocates as `gate_tables`. Gate.Sockets.Life is a relation over all that a gate comes to.
-- - Hashid: service-src/hashid.h, the table from the ids of sockets to places. Functions keep their
--   names, and a pointer to a node is its index; an invariant gives the chain of each bucket.
-- - Crypt: lualib-src/lua-crypt.cpp, the functions behind the Lua module crypt, on lists of bytes;
--   `none` is a Lua error. Functions keep their names. Crypt.Des has the macros and `des_crypt`,
--   Crypt.Des.Padding the paddings with `ldesencode` and `ldesdecode`, Crypt.Hex `ltohex` and
--   `lfromhex`, Crypt.Base64 `lb64encode` and `lb64decode`, Crypt.Dh the exchange of
--   keys, Crypt.Md5 the codes over `Hash` and `digest_md5`, and `lxor_str`;
--   Crypt.Md5.Reference is the MD5 sum of RFC 1321, on its own.
--
-- Fuel. `raise_overload` runs on the length, which `Mq.Overload` shows to be enough; `drop_queue` on
-- one more than the length (`Mq.Drop`); `find_cascade` on four rounds, since a time other than 0 has
-- a bit below 2^32; `execute_loop` on two, since the list is empty at the second test; `search_name`
-- on one more than the number of names (`Handle.Find`); `dispatch_loop` on one more than the number of
-- bytes held, since each round but the last takes a header or a packet (`Gate.Dispatch`);
-- `register_loop` on two rounds, since the doubled table has a free slot (`Handle.Slots.Register`); `mul_loop`
-- on 65 turns and `pow_loop` on 64 levels, since each halves a number of 64 bits (`Crypt.Dh`);
-- `decode_loop` on the length of the text, since a turn takes at least one character; `lookup_loop` and
-- `remove_loop` on the capacity, since a chain has no node twice (`Hashid.Table`); `hash_capacity` on 26
-- doublings of 16, for at most 2^30 nodes (`Hashid.Init`); the loop of a worker runs on its count.
--
-- Integers are natural numbers. `uint32_t` wraps by `% 2 ^ 32`; an `int` that only grows with the
-- number of messages is left unbounded, with a bound on the growth as a theorem, and the length that
-- a packet announces is a signed `int` (`Databuffer.int32`). The `int` size of a packet buffer is left
-- unbounded too: it is that of the source while fewer than 2^31 bytes are held, a bound that `Gate.Stuck`
-- asks for, since there the buffer only grows. A function that runs
-- under a spin lock is one step, and the lock itself is modelled where the code takes it twice.
--
-- Not modelled: the socket server, the other commands of the gate, those of contexts, the creation of contexts, the
-- other Lua bindings, the loading of shared objects, logging, and the vendored
-- libraries; the memory order of the spin lock.
pub mod Base
pub mod Chains
pub mod Mq
pub mod Server
pub mod Monitor
pub mod Timer
pub mod Crypt
pub mod Databuffer
pub mod Gate
pub mod Hashid
pub mod Handle
