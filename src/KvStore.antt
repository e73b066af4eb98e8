-- ===== src/KvStore.antt =====
-- kv_store: the byte strings that its protocol is parsed from (CMByteArray.cpp), the parser
-- (Protocol.cpp), the reactor (ReactorServer.cpp) and the connections over it (Network.cpp).
pub mod Text
pub mod Protocol
pub mod Reactor
mod Tests
