-- ===== src/Lib.antt =====
-- learn-Space: containers, a cache and a thread pool in C++, and programs that use sockets.
--
-- The parts that are modelled, and the files about them:
-- - Vector (with Vector/): the growing array `MContainer::Vector<T>` of
--   Data Structure/DataStructure/Vector.hpp. The array is a list of cells, each with a value or not
--   yet written to; the fields are those of the class, and each method is a function of its name.
-- - Stack: `MContainer::Stack<T>` of Data Structure/DataStructure/Stack.hpp, which is a `Vector`
--   and the index of its top.
-- - Tree: the traversals of Data Structure/DataStructure/Tree.hpp. Those with `V2` in their names
--   run on `Stack`, and are proved through its theorems.
-- - Lru: `LRUContainers` and `LRUCache` of Project/Cache/LRU.hpp. The nodes are in a store, a
--   function for each field, with the set of addresses that hold a node; the hash map is a
--   function from keys to pointers. Lru/Serve compares a series of calls with a plain list.
-- - Pool: `ThreadPool` and `ThreadWork` of ThreadPool/ThreadPool.cpp as a step relation, over any
--   number of workers and callers in any interleaving.
-- - Nodes: nodes linked both ways behind a head, in a store like those of the cache, with what it
--   means that they hold a list. Queue and LinkedList are made of them.
-- - Queue: `Queue<T>` and `SQueue<T>` of Data Structure/DataStructure/Queue.hpp.
-- - LinkedList: `List<T>` of Data Structure/DataStructure/List.hpp.
-- - KvStore: the protocol of kv_store/Protocol.cpp, over `find` and `split` of
--   kv_store/CMByteArray.cpp. KvStore/Reactor is the reactor of kv_store/ReactorServer.cpp with the
--   handlers of kv_store/Network.cpp: the state is `_eventMap` and what epoll watches, an event comes
--   with the answers of the socket calls made for it, and what epoll does is an interface.
-- - TcpServer: the echo server `EchoTcpServer` of TCPServer/TcpServer.cpp, with its sockets and the
--   byte strings of TCPServer/CMByteArray.cpp, which move bytes in another way than those of base.
-- - Epoll: what both servers rely on of epoll, as an interface, and a small model of it.
-- - Dns: the messages of `DNSServe` (DNS/DNSServe.cpp), as lists of bytes, and its `query`; what
--   the host and the network do is a parameter.
-- - Spin: `SpinLock` of Data Structure/DataStructure/SpinLock.hpp, as steps of many threads.
-- - ByteArray: `CMByteArray` of base/CMByteArray.cpp. The buffers are in a store that counts the
--   arrays that share each, so that the theorems say what becomes of the other arrays.
-- - Base: what these share: the outcomes of a run, arrays of cells, 32-bit words, lists.
--
-- Bounds: the `int` positions of `find` and `onSend` of kv_store are modelled with their 31 bits; the
-- `int pos` of `getQuestionStr` is not, and the theorem on it takes a name below 2 ^ 31 bytes.
--
-- A run of C++ code comes to an `Outcome`: a result, an exception (`std::out_of_range` in most
-- places), the end of the program (a failed assertion, or an exception that leaves a `noexcept`
-- function), undefined behaviour, or no more fuel. `unsigned int` has 32 bits, and its sums and differences wrap as
-- written; `size_t` counters, of 64 bits, are not bounded by the model.
--
-- Fuel: `preorder_v2` and `postorder_v2` take one more than the number of nodes, `clear` of the
-- cache two more than the number of entries behind the first, `remove_one` sets its own, the size
-- and one; the theorems show that these are enough. The loops of `shift`, `reverse`, `contains` and
-- `find` count down. `findNode`, `clear` and the removals of the list take the size and one, `split`
-- the size of the text and one, and `analysis` the bytes of the buffer and one. The loops of the
-- servers on a socket run on its answers, and do not come to an end when the answers run out first.
--
-- Not modelled: the files that only call the operating system's sockets, the samples that print,
-- the copy of the KCP library in KcpUdp, and iterators. Where the source does not compile, the
-- model takes what it means to say: `Tree::valid` and the `data` that
-- `preorderTraversalV2` passes to its callback are called, and `find` returns no position.
pub mod Base
pub mod Vector
pub mod Stack
pub mod Tree
pub mod Lru
pub mod Pool
pub mod Nodes
pub mod Queue
pub mod LinkedList
pub mod Epoll
pub mod KvStore
pub mod TcpServer
pub mod Dns
pub mod Spin
pub mod ByteArray
