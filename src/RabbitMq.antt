-- ===== src/RabbitMq.antt =====
-- The RabbitMQ client of rabbitmq/: listeners and their acknowledgements, dead messages, publishing
-- with confirmation, and messages kept in the database until they are confirmed.
pub mod Conn
pub mod Topology
pub mod Listener
pub mod Consume
pub mod Dead
pub mod Publish
pub mod Reliable
