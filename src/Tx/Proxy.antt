-- ===== src/Tx/Proxy.antt =====
-- src/tx/runtime/proxy_runtime: an actor's way to the runtime. `send` gives the message as the
-- runtime gets it; an actor sends only at the end of its tick, so its tick returns the messages.
use simple_db.Tx.Types.{ActorId}
use simple_db.Tx.Msg.{Message}

pub record ProxyRuntime : Type 0 where
  pub source_actor_id : ActorId

unfoldable pub send : ProxyRuntime → Message → Message
send proxy msg = record msg { source = proxy.source_actor_id }
